-- ===== src/Assembly/Constants/Split.antt =====
-- The parts into which a value is split at a bit.
use mathlib.Core.Path.{subst}
use native.Mathlib.Nat.{div-add-mod', div-mul-le_self, mod-lt}
use polynomial.Prelude.{
  false_ne_true, ℕ, suc, ◌+◌, ◌-◌, ◌*◌, ◌/◌, ◌%◌, ◌^◌, ◌≤◌, ◌<◌, ◌≡◌, refl, sym, ap, ◌∙◌, Bool,
  true, false, ◌||◌, ◌==◌, Option, none, some, ltb, leb, if◌then◌else◌, Bool-cases, inl, inr,
  some_inj, none_ne_some, arith,
}
use polynomial.Word.{IsWord}
use polynomial.Word.Bits.{one-le-pow_two}
use polynomial.Assembly.Constants.Compute.{Parts, is_gap, nearer, if_useful, decompose}

-- The parts are at most half of the value and give it back.
pub record IsSplit (value power : ℕ) (parts : Parts) : Type 0 where
  pub upper_half : 2 * parts.upper ≤ value
  pub lower_half : 2 * parts.lower ≤ value
  pub below : parts.negative ≡ true → parts.upper * power ≡ value + parts.lower
  pub above : parts.negative ≡ false → parts.upper * power + parts.lower ≡ value

module _ (value power small : ℕ) (large : 65536 ≤ value) (word : IsWord value)
    (size : power ≡ small * 256) (two : 2 ≤ small) (gap : 255 * small ≤ value) where
  quotient_small : (q r : ℕ) → q * power + r ≡ value → 512 * q ≤ value
  quotient_small q r h = grind arith

  above-IsSplit :
      (q r : ℕ)
      → q * power + r ≡ value
      → r < small
      → IsSplit value power (record { upper = q; negative = false; lower = r })
  above-IsSplit q r h lower =
      let few = quotient_small q r h in
      record {
        upper_half = omega arith;
        lower_half = omega arith;
        below = λ t. false_ne_true t;
        above = λ t. h;
      }

  next_multiple :
      (q r : ℕ) → q * power + r ≡ value → r < power → (q + 1) * power ≡ value + (power - r)
  next_multiple q r h below = grind arith

  below-IsSplit :
      (q r : ℕ)
      → q * power + r ≡ value
      → r < power
      → power - r < small
      → IsSplit value power
          (record { upper = (q + 1) % 2 ^ 256; negative = true; lower = power - r })
  below-IsSplit q r h below lower =
      let few = quotient_small q r h in
      let whole : ((q + 1) % 2 ^ 256 ≡ q + 1) = omega arith in
      record {
        upper_half = omega arith;
        lower_half = omega arith;
        below = λ t. ap (λ (u : ℕ). u * power) whole ∙ next_multiple q r h below;
        above = λ t. false_ne_true (sym t);
      }

  nearer-IsSplit :
      (q r : ℕ)
      → q * power + r ≡ value
      → r < power
      → (nearer power q r).lower < small
      → IsSplit value power (nearer power q r)
  nearer-IsSplit q r h below lower = elim (Bool-cases (ltb (power - r) r)) [
    | inl t ↦ rw t (below-IsSplit q r h below (rw t at lower))
    | inr t ↦ rw t (above-IsSplit q r h (rw t at lower))
  ]

-- Inversion of the tests.
useful :
    (power : ℕ) (parts result : Parts)
    → if_useful power parts ≡ some result
    → (parts ≡ result) × (parts.lower < power / 2 ^ 8)
useful power parts result h =
    elim (Bool-cases (parts.upper == 0 || leb (power / 2 ^ 8) parts.lower)) [
      | inl t ↦ none_ne_some (sym (rw t) ∙ h)
      | inr t ↦ (some_inj (sym (rw t) ∙ h), ground arith)
    ]

if_some :
    (t : Bool) (o : Option Parts) (result : Parts)
    → (if t then o else none) ≡ some result
    → (t ≡ true) × (o ≡ some result)
if_some true o result h = (refl, h)
if_some false o result h = none_ne_some h

gap_large : (value small : ℕ) → is_gap (value / small % 2 ^ 9) ≡ true → 255 * small ≤ value
gap_large value small h =
    let q = value / small in
    let many : (255 ≤ q) = ground arith in let whole = div-mul-le_self value small in grind arith

-- What a round of the loop makes of a value.
pub decompose-IsSplit :
    (value n : ℕ) (parts : Parts)
    → IsWord value
    → 65536 ≤ value
    → decompose value (n + 9) ≡ some parts
    → IsSplit value (2 ^ (n + 9)) parts
unfolding decompose
decompose-IsSplit value n parts word large h =
    let small = 2 ^ (n + 9 - 8) in
    let power = 2 ^ (n + 9) in
    let lower_bits : (2 ^ (n + 9 - 8) ≡ 2 ^ suc n) = ap (λ (t : ℕ). 2 ^ t) (omega arith) in
    let nine_more : (n + 9 ≡ suc (suc (suc (suc (suc (suc (suc (suc (suc n))))))))) = omega arith in
    let upper_bits : (2 ^ (n + 9) ≡ 2 ^ suc n * 256) =
      ap (λ (t : ℕ). 2 ^ t) nine_more ∙ omega arith in
    let one = one-le-pow_two n in
    let two : (2 ≤ small) = omega (arith, lower_bits) in
    let size : (power ≡ small * 256) = omega (arith, lower_bits, upper_bits) in
    let (gap, rest) =
      if_some (is_gap (value / small % 2 ^ 9))
        (if_useful power (nearer power (value / power) (value % power))) parts h in
    let (same, lower) = useful power (nearer power (value / power) (value % power)) parts rest in
    subst (λ (parts : Parts). IsSplit value power parts) same
      (nearer-IsSplit value power small large word size two (gap_large value small gap)
        (value / power) (value % power) (div-add-mod' value power) (mod-lt value (omega arith))
        (omega (arith, lower, size)))
