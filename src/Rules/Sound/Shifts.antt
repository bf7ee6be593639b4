-- ===== src/Rules/Sound/Shifts.antt =====
-- The rules of part 7 on shifts, digit by digit.
use polynomial.Prelude.{
  ℕ, ◌≡◌, ◌<◌, ◌≤◌, ◌+◌, ◌-◌, ◌*◌, ◌/◌, ◌%◌, ◌^◌, arith, ap, ◌∙◌, sym, ◌&&◌, false, not, ltb, leb,
  Bool-cases, inl, inr,
}
use polynomial.Instruction
use polynomial.Instruction.{Instruction}
use polynomial.Word
use polynomial.Word.{IsWord, modulus, max_word}
use polynomial.Word.Bits.{test_bit, test_bit-shr, test_bit-above, test_bit-zero}
use polynomial.Word.Places.{
  word_ext, test_bit-and_word, test_bit-max_word, test_bit-shifted, test_bit-shl_word,
  test_bit-shr_word, and-IsWord, shr-IsWord, shl-IsWord,
}
use polynomial.Rules.{group_a, group_b, group_x, computed, op2, a, b, x}
use polynomial.Rules.Part7.{joined_shift}
use polynomial.Rules.Meaning.{Machine, IsSound, pattern_value}

module _ (x : ℕ) (hx : IsWord x) (a b : ℕ) where
  shl_twice : a + b < 256 → Word.shl b (Word.shl a x) ≡ Word.shl (a + b) x
  shl_twice h = word_ext _ _ (shl-IsWord b (Word.shl a x)) (shl-IsWord (a + b) x) (λ i below.
      ground (
        arith,
        test_bit-shl_word i b (Word.shl a x) below,
        test_bit-shl_word (i - b) a x,
        test_bit-shl_word i (a + b) x below,
        ap (λ (n : ℕ). test_bit n x) {x = i - b - a} {y = i - (a + b)} (omega arith),
      ))

  shl_away : 256 ≤ a + b → Word.shl b (Word.shl a x) ≡ Word.and x 0
  shl_away h = word_ext _ _ (shl-IsWord b (Word.shl a x)) (and-IsWord x 0 hx) (λ i below. ground (
    arith,
    test_bit-shl_word i b (Word.shl a x) below,
    test_bit-shl_word (i - b) a x,
    test_bit-and_word i x 0,
    test_bit-zero i,
  ))

  shr_twice : a + b < 256 → Word.shr b (Word.shr a x) ≡ Word.shr (a + b) x
  shr_twice h =
      word_ext _ _ (shr-IsWord b (Word.shr a x) (shr-IsWord a x hx)) (shr-IsWord (a + b) x hx)
        (λ i below.
          test_bit-shr_word i b (Word.shr a x) (shr-IsWord a x hx)
          ∙ test_bit-shr_word (i + b) a x hx
          ∙ ap (λ (n : ℕ). test_bit n x) (omega arith)
          ∙ sym (test_bit-shr_word i (a + b) x hx))

  shr_away : 256 ≤ a + b → Word.shr b (Word.shr a x) ≡ Word.and x 0
  shr_away h =
      word_ext _ _ (shr-IsWord b (Word.shr a x) (shr-IsWord a x hx)) (and-IsWord x 0 hx) (λ i below.
        test_bit-shr_word i b (Word.shr a x) (shr-IsWord a x hx)
        ∙ test_bit-shr_word (i + b) a x hx
        ∙ test_bit-above 256 (i + b + a) x hx (omega arith)
        ∙ ground (arith, test_bit-and_word i x 0, test_bit-zero i))

-- The masks.
pub mask_right :
    (i a b : ℕ)
    → i < 256
    → test_bit i (max_word * 2 ^ a % modulus / 2 ^ b) ≡ (ltb (i + b) 256 && not (ltb (i + b) a))
mask_right i a b below =
    test_bit-shr b i (max_word * 2 ^ a % modulus) ∙ elim (Bool-cases (ltb (i + b) 256)) [
      | inl within ↦
          ground (arith, test_bit-shifted (i + b) a max_word, test_bit-max_word (i + b - a))
      | inr out ↦ ground (arith, test_bit-above 256 (i + b) (max_word * 2 ^ a % modulus))
    ]

pub mask_left :
    (i a b : ℕ)
    → i < 256
    → test_bit i (max_word / 2 ^ a * 2 ^ b % modulus) ≡ (ltb (i - b + a) 256 && not (ltb i b))
mask_left i a b below =
    test_bit-shifted i b (max_word / 2 ^ a) below ∙ elim (Bool-cases (ltb i b)) [
      | inl low ↦ ground arith
      | inr high ↦ ground (
        arith,
        test_bit-shr a (i - b) max_word,
        test_bit-max_word (i - b + a),
        test_bit-above 256 (i - b + a) max_word,
      )
    ]

module _ (m : Machine) where
  pub shl_twice-IsSound : IsSound m (
      computed
        (op2 Instruction.shl b (op2 Instruction.shl a x))
        (joined_shift Instruction.shl)
        false)
  unfolding pattern_value
  shl_twice-IsSound s w h = elim (Bool-cases (leb 256 (s group_a + s group_b))) [
    | inl away ↦
        rw (away, pattern_value)
          (shl_away (s group_x) (w group_x) (s group_a) (s group_b) (ground arith))
    | inr near ↦
        rw (near, pattern_value)
          (shl_twice (s group_x) (w group_x) (s group_a) (s group_b) (ground arith))
  ]

  pub shr_twice-IsSound : IsSound m (
      computed
        (op2 Instruction.shr b (op2 Instruction.shr a x))
        (joined_shift Instruction.shr)
        false)
  unfolding pattern_value
  shr_twice-IsSound s w h = elim (Bool-cases (leb 256 (s group_a + s group_b))) [
    | inl away ↦
        rw (away, pattern_value)
          (shr_away (s group_x) (w group_x) (s group_a) (s group_b) (ground arith))
    | inr near ↦
        rw (near, pattern_value)
          (shr_twice (s group_x) (w group_x) (s group_a) (s group_b) (ground arith))
  ]
