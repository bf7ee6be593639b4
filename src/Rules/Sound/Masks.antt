-- ===== src/Rules/Sound/Masks.antt =====
-- The rules of part 7 on a shift with a mask, a product or a quotient.
use native.Mathlib.Nat.{mul-zero, pow-le-pow_right, mod-eq_of_lt}
use polynomial.Prelude.{
  ℕ, ◌≡◌, ◌<◌, ◌≤◌, ◌+◌, ◌-◌, ◌*◌, ◌/◌, ◌%◌, ◌^◌, refl, arith, ap, ◌∙◌, sym, ◌&&◌, ltb,
  if◌then◌else◌, Bool-cases, inl, inr, bit_and,
}
use polynomial.Word
use polynomial.Word.{IsWord, modulus, max_word}
use polynomial.Word.Bits.{test_bit, test_bit-shr, test_bit-above, one-le-pow_two, test_bit-and}
use polynomial.Word.Places.{
  word_ext, test_bit-and_word, test_bit-max_word, test_bit-shifted, test_bit-shl_word,
  test_bit-shr_word, and-IsWord, shr-IsWord, shl-IsWord,
}

module _ (x : ℕ) (hx : IsWord x) (a b : ℕ) (small : b < 256) where
  pub shl-and : Word.shl b (Word.and x a) ≡ Word.and (Word.shl b x) (a * 2 ^ b % modulus)
  shl-and =
      word_ext _ _ (shl-IsWord b (Word.and x a))
        (and-IsWord (Word.shl b x) (a * 2 ^ b % modulus) (shl-IsWord b x))
        (λ i below. ground (
          arith,
          test_bit-shl_word i b (Word.and x a) below,
          test_bit-and_word (i - b) x a,
          test_bit-and_word i (Word.shl b x) (a * 2 ^ b % modulus),
          test_bit-shl_word i b x below,
          test_bit-shifted i b a below,
        ))

  pub shr-and : Word.shr b (Word.and x a) ≡ Word.and (Word.shr b x) (a / 2 ^ b)
  shr-and =
      word_ext _ _ (shr-IsWord b (Word.and x a) (and-IsWord x a hx))
        (and-IsWord (Word.shr b x) (a / 2 ^ b) (shr-IsWord b x hx))
        (λ i below.
          test_bit-shr_word i b (Word.and x a) (and-IsWord x a hx)
          ∙ ground (
            arith,
            test_bit-and_word (i + b) x a,
            test_bit-and_word i (Word.shr b x) (a / 2 ^ b),
            test_bit-shr_word i b x hx,
            test_bit-shr b i a,
          ))

pow_two-IsWord : (k : ℕ) → k < 256 → IsWord (2 ^ k)
pow_two-IsWord k h =
    let least : (2 ^ k ≤ 2 ^ 255) =
      pow-le-pow_right (omega arith) {i = k} {j = 255} (omega arith) in
    omega arith

one_shifted : (k : ℕ) → Word.shl k 1 ≡ (if ltb 255 k then 0 else 2 ^ k)
unfolding Word.shl
one_shifted k = elim (Bool-cases (ltb 255 k)) [
  | inl far ↦ rw far refl
  | inr near ↦
      rw near
        (ap (λ (n : ℕ). n % modulus) (omega arith) ∙ mod-eq_of_lt (pow_two-IsWord k (ground arith)))
]

mul-if : (x y : ℕ) → Word.mul x (if ltb 255 y then 0 else 2 ^ y) ≡ Word.shl y x
unfolding Word.mul Word.shl
mul-if x y = elim (Bool-cases (ltb 255 y)) [
  | inl far ↦ rw far (ground (arith, mul-zero x))
  | inr near ↦ rw near refl
]

pub mul-shl : (x y : ℕ) → Word.mul x (Word.shl y 1) ≡ Word.shl y x
mul-shl x y = ap (Word.mul x) (one_shifted y) ∙ mul-if x y

div-if : (x y : ℕ) → Word.div x (if ltb 255 y then 0 else 2 ^ y) ≡ Word.shr y x
unfolding Word.div Word.shr
div-if x y = ground (arith, one-le-pow_two y)

pub div-shl : (x y : ℕ) → Word.div x (Word.shl y 1) ≡ Word.shr y x
div-shl x y = ap (Word.div x) (one_shifted y) ∙ div-if x y

-- A mask with ones wherever a shifted word may have them.
pub and-shr :
    (x : ℕ)
    → IsWord x
    → (a b : ℕ) → bit_and a (max_word / 2 ^ b) ≡ max_word / 2 ^ b
    → Word.and (Word.shr b x) a ≡ Word.shr b x
and-shr x hx a b covered =
    word_ext _ _ (and-IsWord (Word.shr b x) a (shr-IsWord b x hx)) (shr-IsWord b x hx) (λ i below.
      let digit : ((test_bit i a && test_bit i (max_word / 2 ^ b))
          ≡ test_bit i (max_word / 2 ^ b)) =
        sym (test_bit-and i a (max_word / 2 ^ b)) ∙ ap (test_bit i) covered in
      test_bit-and_word i (Word.shr b x) a ∙ elim (Bool-cases (ltb (i + b) 256)) [
        | inl within ↦ ground (
          arith,
          test_bit-shr b i max_word,
          test_bit-max_word (i + b),
          test_bit-shr_word i b x hx,
        )
        | inr out ↦ ground (arith, test_bit-shr_word i b x hx, test_bit-above 256 (i + b) x hx)
      ])
