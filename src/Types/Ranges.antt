-- ===== src/Types/Ranges.antt =====
-- The integers that the elementary number types can hold.
use native.Mathlib.Nat.{two-pow-succ, pow-le-pow_right, le-div_iff_mul-le}
use polynomial.Prelude.{
  ℕ, ◌+◌, ◌-◌, ◌*◌, ◌/◌, ◌^◌, ◌≤◌, ◌<◌, ◌≡◌, ap, Bool, true, false, ◌&&◌, ltb, leb, ◌↔◌, arith,
  false_ne_true, zero, suc, Bool-cases, inl, inr,
}
use polynomial.Types.{
  ElementaryType, address, integer, fixed_point, bool, fixed_bytes, IsValid, max_value, below_zero,
  max_integer_value, integer_below_zero, is_implicitly_convertible_to,
}
use polynomial.Types.Convert.{pow_mono, pow_pos, integer_ranges, widens-parts}

pub data ℤ : Type 0 where
  pos : ℕ → ℤ
  negsuc : ℕ → ℤ

-- An integer times the power of ten is in the two's complement of the bits.
abbrev pub HasScaled : ℕ → ℕ → Bool → ℤ → Type 0
HasScaled bits scale true (pos n) = n * scale < 2 ^ (bits - 1)
HasScaled bits scale true (negsuc n) = (n + 1) * scale ≤ 2 ^ (bits - 1)
HasScaled bits scale false (pos n) = n * scale < 2 ^ bits
HasScaled bits scale false (negsuc n) = ⊥

-- The integers among the values of a type.
abbrev pub HasInteger : ElementaryType → ℤ → Type 0
HasInteger (integer bits signed) z = HasScaled bits 1 signed z
HasInteger (fixed_point bits digits signed) z = HasScaled bits (10 ^ digits) signed z
HasInteger _ z = ⊥

-- An integer between two bounds, the lower one given by how far it is below zero.
abbrev IsBetween : ℕ → ℕ → ℤ → Type 0
IsBetween low high (pos n) = n ≤ high
IsBetween low high (negsuc n) = n + 1 ≤ low

ten_pos : (n : ℕ) → 0 < 10 ^ n
ten_pos n = pow-le-pow_right (omega arith) {i = 0} {j = n} (omega arith)

below_div : (n scale m : ℕ) → 0 < scale → (n * scale ≤ m) ↔ (n ≤ m / scale)
below_div n scale m h =
    let between = le-div_iff_mul-le {k = scale} {x = n} {y = m} h in (between.1, between.0)

integer-IsBetween :
    (bits : ℕ) (signed : Bool) (z : ℤ)
    → HasInteger (integer bits signed) z
      ↔ IsBetween (below_zero bits signed) (max_value bits signed) z
integer-IsBetween bits true (pos n) =
    let p = pow_pos (bits - 1) in (λ h. omega arith, λ h. omega arith)
integer-IsBetween bits true (negsuc n) = (λ h. omega arith, λ h. omega arith)
integer-IsBetween bits false (pos n) = let p = pow_pos bits in (λ h. omega arith, λ h. omega arith)
integer-IsBetween bits false (negsuc n) = (λ h. elim h [ ], λ h. omega arith)

fixed_point-IsBetween :
    (bits digits : ℕ) (signed : Bool) (z : ℤ)
    → HasInteger (fixed_point bits digits signed) z
      ↔ IsBetween (integer_below_zero bits digits signed) (max_integer_value bits digits signed) z
fixed_point-IsBetween bits digits true (pos n) =
    let p = pow_pos (bits - 1) in
    let between = below_div n (10 ^ digits) (2 ^ (bits - 1) - 1) (ten_pos digits) in
    (λ h. between.0 (omega arith), λ h. let inside = between.1 h in omega arith)
fixed_point-IsBetween bits digits true (negsuc n) =
    below_div (n + 1) (10 ^ digits) (2 ^ (bits - 1)) (ten_pos digits)
fixed_point-IsBetween bits digits false (pos n) =
    let p = pow_pos bits in
    let same : (2 ^ (bits - 0) ≡ 2 ^ bits) = ap (λ (k : ℕ). 2 ^ k) (omega arith) in
    let between = below_div n (10 ^ digits) (2 ^ (bits - 0) - 1) (ten_pos digits) in
    (λ h. between.0 (omega arith), λ h. let inside = between.1 h in omega arith)
fixed_point-IsBetween bits digits false (negsuc n) = (λ h. elim h [ ], λ h. omega arith)

-- Bounds are nested if and only if all integers between the ones are between the others.
IsBetween-mono :
    (low high low' high' : ℕ)
    → low ≤ low'
    → high ≤ high'
    → (z : ℤ) → IsBetween low high z
    → IsBetween low' high' z
IsBetween-mono low high low' high' l h (pos n) k = omega arith
IsBetween-mono low high low' high' l h (negsuc n) k = omega arith

IsBetween-low :
    (low high low' high' : ℕ)
    → ((z : ℤ) → IsBetween low high z → IsBetween low' high' z)
    → low ≤ low'
IsBetween-low zero high low' high' k = omega arith
IsBetween-low (suc low) high low' high' k = let h = k (negsuc low) (omega arith) in omega arith

IsBetween-nested :
    (low high low' high' : ℕ)
    → ((z : ℤ) → IsBetween low high z → IsBetween low' high' z) ↔ ((low ≤ low') × (high ≤ high'))
IsBetween-nested low high low' high' = (
  λ k. (IsBetween-low low high low' high' k, k (pos high) (omega arith)),
  λ h z. IsBetween-mono low high low' high' h.0 h.1 z,
)

pow_reflects : (m n : ℕ) → 2 ^ m ≤ 2 ^ n → m ≤ n
pow_reflects m n h = elim (Bool-cases (ltb n m)) [
  | inl less ↦
      let few : (suc n ≤ m) = ground arith in
      let more = pow_mono (suc n) m few in
      let double = two-pow-succ n in let p = pow_pos n in omega arith
  | inr not_less ↦ ground arith
]

ranges_integer :
    (bits bits' : ℕ) (signed signed' : Bool)
    → 0 < bits
    → 0 < bits'
    → max_value bits signed ≤ max_value bits' signed'
    → below_zero bits signed ≤ below_zero bits' signed'
    → is_implicitly_convertible_to (integer bits signed) (integer bits' signed') ≡ true
unfolding is_implicitly_convertible_to
ranges_integer bits bits' true true some some' h l =
    let few = pow_reflects (bits - 1) (bits' - 1) l in ground arith
ranges_integer bits bits' true false some some' h l =
    let p = pow_pos (bits - 1) in let no : ⊥ = omega arith in elim no [ ]
ranges_integer bits bits' false true some some' h l =
    let p = pow_pos bits in
    let p' = pow_pos (bits' - 1) in
    let few = pow_reflects bits (bits' - 1) (omega arith) in ground arith
ranges_integer bits bits' false false some some' h l =
    let p = pow_pos bits in
    let p' = pow_pos bits' in let few = pow_reflects bits bits' (omega arith) in ground arith

IsBetween-through :
    {P Q : ℤ → Type 0} (low high low' high' : ℕ)
    → ((z : ℤ) → P z ↔ IsBetween low high z)
    → ((z : ℤ) → Q z ↔ IsBetween low' high' z)
    → ((z : ℤ) → P z → Q z) ↔ ((low ≤ low') × (high ≤ high'))
IsBetween-through low high low' high' p q =
    let nested = IsBetween-nested low high low' high' in
    (λ k. nested.0 (λ z h. (q z).0 (k z ((p z).1 h))), λ h z k. (q z).1 (nested.1 h z ((p z).0 k)))

both_leb : (h h' l l' : ℕ) → (leb h h' && leb l l' ≡ true) ↔ ((l ≤ l') × (h ≤ h'))
both_leb h h' l l' = (λ e. ground arith, λ e. ground arith)

integer-holds_zero : (bits : ℕ) (signed : Bool) → HasInteger (integer bits signed) (pos 0)
integer-holds_zero bits true = let p = pow_pos (bits - 1) in omega arith
integer-holds_zero bits false = let p = pow_pos bits in omega arith

-- For types that hold what their constructors assert, an integer type converts implicitly to exactly
-- the types that can hold all its values.
pub integer-converts :
    (bits : ℕ) (signed : Bool) (t : ElementaryType)
    → IsValid (integer bits signed)
    → IsValid t
    → (is_implicitly_convertible_to (integer bits signed) t ≡ true)
      ↔ ((z : ℤ) → HasInteger (integer bits signed) z → HasInteger t z)
unfolding is_implicitly_convertible_to
integer-converts bits signed (integer bits' signed') v v' =
    let through =
      IsBetween-through (below_zero bits signed) (max_value bits signed) (below_zero bits' signed')
        (max_value bits' signed') (integer-IsBetween bits signed)
        (integer-IsBetween bits' signed') in
    (
      λ h.
          let (above, below) = integer_ranges bits bits' signed signed' v.0 h in
          through.1 (below, above),
      λ k.
          let (below, above) = through.0 k in
          ranges_integer bits bits' signed signed' v.0 v'.0 above below,
    )
integer-converts bits signed (fixed_point bits' digits' signed') v v' =
    let through =
      IsBetween-through (below_zero bits signed) (max_value bits signed)
        (integer_below_zero bits' digits' signed') (max_integer_value bits' digits' signed')
        (integer-IsBetween bits signed) (fixed_point-IsBetween bits' digits' signed') in
    let tests =
      both_leb (max_value bits signed) (max_integer_value bits' digits' signed')
        (below_zero bits signed) (integer_below_zero bits' digits' signed') in
    (λ h. through.1 (tests.0 h), λ k. tests.1 (through.0 k))
integer-converts bits signed (address m) v v' =
    (λ h. false_ne_true h, λ k. elim (k (pos 0) (integer-holds_zero bits signed)) [ ])
integer-converts bits signed bool v v' =
    (λ h. false_ne_true h, λ k. elim (k (pos 0) (integer-holds_zero bits signed)) [ ])
integer-converts bits signed (fixed_bytes bytes) v v' =
    (λ h. false_ne_true h, λ k. elim (k (pos 0) (integer-holds_zero bits signed)) [ ])

-- Where an elementary type that holds what its constructor asserts converts implicitly to another,
-- that one can hold all integers that the first can.
pub converts-HasInteger :
    (a b : ElementaryType)
    → IsValid a
    → IsValid b
    → is_implicitly_convertible_to a b ≡ true
    → (z : ℤ) → HasInteger a z
    → HasInteger b z
unfolding is_implicitly_convertible_to
converts-HasInteger (integer bits signed) b v v' h z k =
    (integer-converts bits signed b v v').0 h z k
converts-HasInteger (fixed_point bits digits signed) (fixed_point bits' digits' signed') v v' h z
      k =
    let (more_digits, more_bits, above, below) =
      widens-parts digits digits' bits bits' (max_integer_value bits digits signed)
        (max_integer_value bits' digits' signed') (integer_below_zero bits digits signed)
        (integer_below_zero bits' digits' signed') h in
    (IsBetween-through (integer_below_zero bits digits signed)
        (max_integer_value bits digits signed) (integer_below_zero bits' digits' signed')
        (max_integer_value bits' digits' signed') (fixed_point-IsBetween bits digits signed)
        (fixed_point-IsBetween bits' digits' signed')).1
      (below, above) z k
converts-HasInteger (fixed_point bits digits signed) (address m) v v' h z k = false_ne_true h
converts-HasInteger (fixed_point bits digits signed) (integer bits' signed') v v' h z k =
    false_ne_true h
converts-HasInteger (fixed_point bits digits signed) bool v v' h z k = false_ne_true h
converts-HasInteger (fixed_point bits digits signed) (fixed_bytes bytes) v v' h z k =
    false_ne_true h
converts-HasInteger (address m) b v v' h z k = elim k [ ]
converts-HasInteger bool b v v' h z k = elim k [ ]
converts-HasInteger (fixed_bytes bytes) b v v' h z k = elim k [ ]
