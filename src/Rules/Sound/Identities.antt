-- ===== src/Rules/Sound/Identities.antt =====
-- The rules of part 2: an operation with a neutral or an absorbing constant.
use mathlib.Core.Bool.{xor}
use native.Mathlib.Nat.{zero-div, zero-mod, zero-mul}
use polynomial.Prelude.{
  ℕ, zero, suc, ◌≡◌, ◌<◌, ◌+◌, ◌-◌, ◌*◌, ◌/◌, ◌^◌, refl, arith, Every, done, ◌&◌, Bool, true, false,
  ◌==◌, leb, ap, inl, inr, Bool-cases, ◌∙◌, bit_and,
}
use polynomial.Word
use polynomial.Word.{IsWord, truth, max_word, modulus}
use polynomial.Word.Bits.{test_bit, test_bit-zero, bit_and-ones, bit_and_comm, bit_and-lt}
use polynomial.Word.Places.{
  word_ext, test_bit-and_word, test_bit-or_word, test_bit-xor_word, and-IsWord, or-IsWord,
  xor-IsWord, not-IsWord, test_bit-max_word,
}
use polynomial.Word.Laws.{and_comm, or_comm, xor_comm, add_comm, mul_word_comm, eq_comm, lt-eq-gt}
use polynomial.Word.Signed.{u2s, s2u, quot, signed, magnitude, is_negative, differs, ℤ, pos, negsuc}
use polynomial.Rules.{group_x, group_y}
use polynomial.Rules.Part2.{simplification_rule_list_part2}
use polynomial.Rules.Meaning.{Machine, IsSound, pattern_value}

module _ (x : ℕ) (hx : IsWord x) where
  add_zero : Word.add x 0 ≡ x
  unfolding Word.add
  add_zero = omega arith

  sub_zero : Word.sub x 0 ≡ x
  unfolding Word.sub
  sub_zero = omega arith

  mul_zero : Word.mul x 0 ≡ 0
  unfolding Word.mul
  mul_zero = omega arith

  mul_one : Word.mul x 1 ≡ x
  unfolding Word.mul
  mul_one = omega arith

  mul-max_word : Word.mul x max_word ≡ Word.sub 0 x
  unfolding Word.mul Word.sub
  mul-max_word = omega arith

  div_zero : Word.div x 0 ≡ 0
  unfolding Word.div
  div_zero = refl

  zero_div : Word.div 0 x ≡ 0
  unfolding Word.div
  zero_div = ground (arith, zero-div x)

  div_one : Word.div x 1 ≡ x
  unfolding Word.div
  div_one = omega arith

  sdiv_zero : Word.sdiv x 0 ≡ 0
  unfolding Word.sdiv
  sdiv_zero = refl

  and-ones : Word.and x (Word.not 0) ≡ x
  unfolding Word.not Word.and
  and-ones = bit_and-ones 256 x hx

  and_zero : Word.and x 0 ≡ 0
  and_zero =
      word_ext _ _ (and-IsWord x 0 hx) (omega arith)
        (λ i h. ground (arith, test_bit-and_word i x 0, test_bit-zero i))

  or_zero : Word.or x 0 ≡ x
  or_zero =
      word_ext _ _ (or-IsWord x 0 hx (omega arith)) hx
        (λ i h. ground (arith, test_bit-or_word i x 0, test_bit-zero i))

  or-ones : Word.or x (Word.not 0) ≡ Word.not 0
  unfolding Word.not
  or-ones =
      word_ext _ _ (or-IsWord x (Word.not 0) hx (not-IsWord 0)) (omega arith)
        (λ i h. ground (arith, test_bit-or_word i x (Word.not 0), test_bit-max_word i h))

  pub xor_zero : Word.xor x 0 ≡ x
  unfolding xor
  xor_zero =
      word_ext _ _ (xor-IsWord x 0 hx (omega arith)) hx
        (λ i h. ground (arith, test_bit-xor_word i x 0, test_bit-zero i))

  mod_zero : Word.mod_op x 0 ≡ 0
  unfolding Word.mod_op
  mod_zero = refl

  zero_mod : Word.mod_op 0 x ≡ 0
  unfolding Word.mod_op
  zero_mod = ground (arith, zero-mod x)

  eq_zero : Word.eq x 0 ≡ Word.iszero x
  unfolding Word.eq Word.iszero
  eq_zero = refl

  shl_none : Word.shl 0 x ≡ x
  unfolding Word.shl
  shl_none = omega arith

  shr_none : Word.shr 0 x ≡ x
  unfolding Word.shr
  shr_none = omega arith

  shl_zero : Word.shl x 0 ≡ 0
  unfolding Word.shl
  shl_zero = ground (arith, zero-mul (2 ^ x))

  shr_zero : Word.shr x 0 ≡ 0
  unfolding Word.shr
  shr_zero = ground (arith, zero-div (2 ^ x))

  gt_zero : Word.gt x 0 ≡ Word.iszero (Word.iszero x)
  unfolding Word.gt Word.iszero
  gt_zero = ground arith

  gt-ones : Word.gt x (Word.not 0) ≡ 0
  unfolding Word.gt Word.not
  gt-ones = ground arith

  zero_gt : Word.gt 0 x ≡ 0
  unfolding Word.gt
  zero_gt = ground arith

  byte_last : Word.byte 31 x ≡ Word.and x 0xff
  unfolding Word.byte Word.and
  byte_last = ap (λ (n : ℕ). bit_and n 0xff) (omega arith)

  module _ (y : ℕ) where
    byte-lt : Word.byte y x < 2 ^ 8
    unfolding Word.byte
    byte-lt = elim (Bool-cases (leb 32 y)) [
      | inl out ↦ rw out (omega arith)
      | inr within ↦ rw within (
          rw (bit_and_comm (x / 2 ^ (8 * (31 - y))) 0xff)
            (bit_and-lt 8 0xff (x / 2 ^ (8 * (31 - y))) (omega arith)))
    ]

    byte_mask : Word.and (Word.byte y x) 0xff ≡ Word.byte y x
    unfolding Word.and
    byte_mask = bit_and-ones 8 (Word.byte y x) byte-lt

-- Signed division.
s2u-signed_zero : (b : Bool) → s2u (signed b 0) ≡ 0
unfolding s2u
s2u-signed_zero true = refl
s2u-signed_zero false = refl

zero_quot : (z : ℤ) → s2u (quot (pos 0) z) ≡ 0
unfolding quot
zero_quot z =
    ap (λ (n : ℕ). s2u (signed (differs false (is_negative z)) n)) (zero-div (magnitude z))
    ∙ s2u-signed_zero (differs false (is_negative z))

zero_sdiv : (x : ℕ) → Word.sdiv 0 x ≡ 0
unfolding Word.sdiv test_bit
zero_sdiv x = elim (Bool-cases (x == 0)) [
  | inl none_left ↦ rw none_left refl
  | inr some_left ↦ rw some_left (zero_quot (u2s x))
]

quot_one : (z : ℤ) → quot z (pos 1) ≡ z
unfolding quot
quot_one (pos n) = ap pos (omega arith)
quot_one (negsuc n) = ap (signed true) {x = (n + 1) / 1} {y = suc n} (omega arith)

s2u-negative : (n : ℕ) → 0 < n → s2u (signed true n) ≡ 2 ^ 256 - n
unfolding s2u
s2u-negative zero h = elim h [ ]
s2u-negative (suc n) h = omega arith

s2u-u2s : (x : ℕ) → IsWord x → s2u (u2s x) ≡ x
unfolding u2s s2u
s2u-u2s x h = elim (Bool-cases (test_bit 255 x)) [
  | inl high ↦ rw high (s2u-negative (2 ^ 256 - x) (omega arith) ∙ omega arith)
  | inr low ↦ rw low refl
]

sdiv_one : (x : ℕ) → IsWord x → Word.sdiv x 1 ≡ x
unfolding Word.sdiv test_bit
sdiv_one x h = ap s2u (quot_one (u2s x)) ∙ s2u-u2s x h

module _ (m : Machine) where
  pub part2-IsSound : Every (IsSound m) simplification_rule_list_part2
  unfolding pattern_value
  part2-IsSound =
      (λ s w h. add_zero (s group_x) (w group_x))
      & (λ s w h. add_comm 0 (s group_x) ∙ add_zero (s group_x) (w group_x))
      & (λ s w h. sub_zero (s group_x) (w group_x))
      & (λ s w h. mul_zero (s group_x) (w group_x))
      & (λ s w h. mul_word_comm 0 (s group_x) ∙ mul_zero (s group_x) (w group_x))
      & (λ s w h. mul_one (s group_x) (w group_x))
      & (λ s w h. mul_word_comm 1 (s group_x) ∙ mul_one (s group_x) (w group_x))
      & (λ s w h. mul-max_word (s group_x) (w group_x))
      & (λ s w h. mul_word_comm max_word (s group_x) ∙ mul-max_word (s group_x) (w group_x))
      & (λ s w h. div_zero (s group_x) (w group_x))
      & (λ s w h. zero_div (s group_x) (w group_x))
      & (λ s w h. div_one (s group_x) (w group_x))
      & (λ s w h. sdiv_zero (s group_x) (w group_x))
      & (λ s w h. zero_sdiv (s group_x))
      & (λ s w h. sdiv_one (s group_x) (w group_x))
      & (λ s w h. and-ones (s group_x) (w group_x))
      & (λ s w h. and_comm (Word.not 0) (s group_x) ∙ and-ones (s group_x) (w group_x))
      & (λ s w h. and_zero (s group_x) (w group_x))
      & (λ s w h. and_comm 0 (s group_x) ∙ and_zero (s group_x) (w group_x))
      & (λ s w h. or_zero (s group_x) (w group_x))
      & (λ s w h. or_comm 0 (s group_x) ∙ or_zero (s group_x) (w group_x))
      & (λ s w h. or-ones (s group_x) (w group_x))
      & (λ s w h. or_comm (Word.not 0) (s group_x) ∙ or-ones (s group_x) (w group_x))
      & (λ s w h. xor_zero (s group_x) (w group_x))
      & (λ s w h. xor_comm 0 (s group_x) ∙ xor_zero (s group_x) (w group_x))
      & (λ s w h. mod_zero (s group_x) (w group_x))
      & (λ s w h. zero_mod (s group_x) (w group_x))
      & (λ s w h. eq_zero (s group_x) (w group_x))
      & (λ s w h. eq_comm 0 (s group_x) ∙ eq_zero (s group_x) (w group_x))
      & (λ s w h. shl_none (s group_x) (w group_x))
      & (λ s w h. shr_none (s group_x) (w group_x))
      & (λ s w h. shl_zero (s group_x) (w group_x))
      & (λ s w h. shr_zero (s group_x) (w group_x))
      & (λ s w h. gt_zero (s group_x) (w group_x))
      & (λ s w h. lt-eq-gt 0 (s group_x) ∙ gt_zero (s group_x) (w group_x))
      & (λ s w h. gt-ones (s group_x) (w group_x))
      & (λ s w h. lt-eq-gt (Word.not 0) (s group_x) ∙ gt-ones (s group_x) (w group_x))
      & (λ s w h. zero_gt (s group_x) (w group_x))
      & (λ s w h. lt-eq-gt (s group_x) 0 ∙ zero_gt (s group_x) (w group_x))
      & (λ s w h. byte_mask (s group_y) (w group_y) (s group_x))
      & (λ s w h. byte_last (s group_x) (w group_x))
      & done
