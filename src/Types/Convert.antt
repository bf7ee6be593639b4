-- ===== src/Types/Convert.antt =====
-- Implicit conversion is an order, and is allowed explicitly.
use native.Mathlib.Nat.{pow-le-pow_right}
use polynomial.Prelude.{
  ℕ, ◌-◌, ◌^◌, ◌≤◌, ◌<◌, ◌≡◌, refl, Bool, true, false, ◌&&◌, ltb, leb, if◌then◌else◌, arith,
}
use polynomial.Types.{
  ElementaryType, address, integer, fixed_point, bool, fixed_bytes, IsValid, max_value, below_zero,
  max_integer_value, integer_below_zero, is_implicitly_convertible_to, is_explicitly_convertible_to,
}

pub pow_pos : (n : ℕ) → 1 ≤ 2 ^ n
pow_pos n = pow-le-pow_right (omega arith) {i = 0} {j = n} (omega arith)

pub pow_mono : (m n : ℕ) → m ≤ n → 2 ^ m ≤ 2 ^ n
pow_mono m n h = pow-le-pow_right (omega arith) {i = m} {j = n} h

-- A conversion between integer types keeps the range.
pub integer_ranges :
    (bits bits' : ℕ) (signed signed' : Bool)
    → 0 < bits
    → is_implicitly_convertible_to (integer bits signed) (integer bits' signed') ≡ true
    → (max_value bits signed ≤ max_value bits' signed')
      × (below_zero bits signed ≤ below_zero bits' signed')
unfolding is_implicitly_convertible_to
integer_ranges bits bits' true true some h =
    let few : (bits ≤ bits') = ground arith in
    let more = pow_mono (bits - 1) (bits' - 1) (omega arith) in (omega arith, more)
integer_ranges bits bits' true false some h = ground arith
integer_ranges bits bits' false true some h =
    let few : (bits < bits') = ground arith in
    let more = pow_mono bits (bits' - 1) (omega arith) in (omega arith, omega arith)
integer_ranges bits bits' false false some h =
    let few : (bits ≤ bits') = ground arith in
    let more = pow_mono bits bits' few in (omega arith, omega arith)

-- Every elementary type converts to itself.
pub implicitly_refl : (a : ElementaryType) → is_implicitly_convertible_to a a ≡ true
unfolding is_implicitly_convertible_to
implicitly_refl (address m) = ground arith
implicitly_refl (integer bits true) = ground arith
implicitly_refl (integer bits false) = ground arith
implicitly_refl (fixed_point bits digits signed) = ground arith
implicitly_refl bool = refl
implicitly_refl (fixed_bytes bytes) = ground arith

-- The conditions for fixed point numbers, over the numbers they compare.
abbrev pub widens : ℕ → ℕ → ℕ → ℕ → ℕ → ℕ → ℕ → ℕ → Bool
widens d d' n n' u u' l l' =
    if ltb d' d then false else if ltb n' n then false else leb u u' && leb l l'

pub widens-parts :
    (d d' n n' u u' l l' : ℕ)
    → widens d d' n n' u u' l l' ≡ true
    → (d ≤ d') × (n ≤ n') × (u ≤ u') × (l ≤ l')
widens-parts d d' n n' u u' l l' h = ground arith

widens_trans :
    (d d' d'' n n' n'' u u' u'' l l' l'' : ℕ)
    → widens d d' n n' u u' l l' ≡ true
    → widens d' d'' n' n'' u' u'' l' l'' ≡ true
    → widens d d'' n n'' u u'' l l'' ≡ true
widens_trans d d' d'' n n' n'' u u' u'' l l' l'' h h' =
    let (digits, bits, above, below) = widens-parts d d' n n' u u' l l' h in
    let (digits', bits', above', below') = widens-parts d' d'' n' n'' u' u'' l' l'' h' in
    ground arith

-- Where types hold what their constructors assert, implicit conversions follow one another.
pub implicitly_trans :
    (a b c : ElementaryType)
    → IsValid a
    → is_implicitly_convertible_to a b ≡ true
    → is_implicitly_convertible_to b c ≡ true
    → is_implicitly_convertible_to a c ≡ true
unfolding is_implicitly_convertible_to
implicitly_trans (address m) (address m') (address m'') v h h' = ground arith
implicitly_trans (integer n true) (integer n' s') (integer n'' s'') v h h' = ground arith
implicitly_trans (integer n false) (integer n' true) (integer n'' s'') v h h' = ground arith
implicitly_trans (integer n false) (integer n' false) (integer n'' s'') v h h' = ground arith
implicitly_trans (integer n s) (integer n' s') (fixed_point n'' d'' s'') v h h' =
    let (above, below) = integer_ranges n n' s s' v.0 h in ground arith
implicitly_trans (integer n s) (fixed_point n' d' s') (fixed_point n'' d'' s'') v h h' =
    ground arith
implicitly_trans (fixed_point n d s) (fixed_point n' d' s') (fixed_point n'' d'' s'') v h h' =
    widens_trans d d' d'' n n' n'' (max_integer_value n d s) (max_integer_value n' d' s')
      (max_integer_value n'' d'' s'') (integer_below_zero n d s) (integer_below_zero n' d' s')
      (integer_below_zero n'' d'' s'') h h'
implicitly_trans bool bool bool v h h' = refl
implicitly_trans (fixed_bytes n) (fixed_bytes n') (fixed_bytes n'') v h h' = ground arith
implicitly_trans _ _ _ v h h' = cc

-- Where an elementary type converts implicitly to another, it converts explicitly too.
pub implicitly_explicitly :
    (a b : ElementaryType)
    → is_implicitly_convertible_to a b ≡ true
    → is_explicitly_convertible_to a b ≡ true
unfolding is_explicitly_convertible_to is_implicitly_convertible_to
implicitly_explicitly (address m) (address m') h = h
implicitly_explicitly (integer n s) (integer n' s') h = refl
implicitly_explicitly (integer n s) (fixed_point n' d' s') h = refl
implicitly_explicitly (fixed_point n d s) (fixed_point n' d' s') h = refl
implicitly_explicitly bool bool h = refl
implicitly_explicitly (fixed_bytes n) (fixed_bytes n') h = refl
implicitly_explicitly _ _ h = cc
