-- ===== src/Rules/Sound/Opposite.antt =====
-- The rules of part 7 on two shifts in opposite directions, digit by digit.
use polynomial.Prelude.{
  ℕ, ◌≡◌, ◌<◌, ◌≤◌, ◌+◌, ◌-◌, ◌*◌, ◌/◌, ◌%◌, ◌^◌, arith, ap, ◌∙◌, ◌&&◌, false, not, ltb,
  if◌then◌else◌, Bool-cases, inl, inr, both,
}
use polynomial.Instruction
use polynomial.Instruction.{Instruction}
use polynomial.Word
use polynomial.Word.{IsWord, modulus, max_word}
use polynomial.Word.Bits.{test_bit, test_bit-above}
use polynomial.Word.Places.{
  word_ext, test_bit-and_word, test_bit-shl_word, test_bit-shr_word, and-IsWord, shr-IsWord,
  shl-IsWord,
}
use polynomial.Rules.{group_a, group_b, group_x, guarded_rule, op2, a, b, x}
use polynomial.Rules.Part1.{shl_workaround}
use polynomial.Rules.Part7.{opposite_shift, both_below}
use polynomial.Rules.Sound.Shifts.{mask_right, mask_left}
use polynomial.Rules.Meaning.{Machine, IsSound, pattern_value}

word_sub : (a b : ℕ) → b ≤ a → IsWord a → Word.sub a b ≡ a - b
unfolding Word.sub
word_sub a b h k = omega arith

module _ (x : ℕ) (hx : IsWord x) (a b : ℕ) where
  bit_right :
      (i : ℕ)
      → i < 256
      → test_bit i (Word.shr b (Word.shl a x))
        ≡ (if ltb (i + b) 256 && not (ltb (i + b) a) then test_bit (i + b - a) x else false)
  bit_right i below =
      test_bit-shr_word i b (Word.shl a x) (shl-IsWord a x) ∙ elim (Bool-cases (ltb (i + b) 256)) [
        | inl within ↦ ground (arith, test_bit-shl_word (i + b) a x)
        | inr out ↦ ground (arith, test_bit-above 256 (i + b) (Word.shl a x), shl-IsWord a x)
      ]

  bit_left :
      (i : ℕ)
      → i < 256
      → test_bit i (Word.shl b (Word.shr a x))
        ≡ (if ltb (i - b + a) 256 && not (ltb i b) then test_bit (i - b + a) x else false)
  bit_left i below = test_bit-shl_word i b (Word.shr a x) below ∙ elim (Bool-cases (ltb i b)) [
    | inl low ↦ ground arith
    | inr high ↦
        ground (arith, test_bit-shr_word (i - b) a x hx, test_bit-above 256 (i - b + a) x hx)
  ]

  -- A shift to the left, then to the right.
  right_more :
      a < b
      → b < 256
      → Word.shr b (Word.shl a x)
        ≡ Word.and (Word.shr (b - a) x) (max_word * 2 ^ a % modulus / 2 ^ b)
  right_more h k =
      word_ext _ _ (shr-IsWord b (Word.shl a x) (shl-IsWord a x))
        (and-IsWord (Word.shr (b - a) x) (max_word * 2 ^ a % modulus / 2 ^ b)
          (shr-IsWord (b - a) x hx))
        (λ i below.
          bit_right i below
          ∙ ground (
            arith,
            test_bit-and_word i (Word.shr (b - a) x) (max_word * 2 ^ a % modulus / 2 ^ b),
            mask_right i a b below,
            test_bit-shr_word i (b - a) x hx,
            ap (λ (n : ℕ). test_bit n x) {x = i + b - a} {y = i + (b - a)} (omega arith),
          ))

  right_less :
      b < a
      → a < 256
      → Word.shr b (Word.shl a x)
        ≡ Word.and (Word.shl (a - b) x) (max_word * 2 ^ a % modulus / 2 ^ b)
  right_less h k =
      word_ext _ _ (shr-IsWord b (Word.shl a x) (shl-IsWord a x))
        (and-IsWord (Word.shl (a - b) x) (max_word * 2 ^ a % modulus / 2 ^ b)
          (shl-IsWord (a - b) x))
        (λ i below.
          bit_right i below
          ∙ ground (
            arith,
            test_bit-and_word i (Word.shl (a - b) x) (max_word * 2 ^ a % modulus / 2 ^ b),
            mask_right i a b below,
            test_bit-shl_word i (a - b) x below,
            ap (λ (n : ℕ). test_bit n x) {x = i + b - a} {y = i - (a - b)} (omega arith),
          ))

  right_same : a ≡ b → Word.shr b (Word.shl a x) ≡ Word.and x (max_word * 2 ^ a % modulus / 2 ^ b)
  right_same h =
      word_ext _ _ (shr-IsWord b (Word.shl a x) (shl-IsWord a x))
        (and-IsWord x (max_word * 2 ^ a % modulus / 2 ^ b) hx)
        (λ i below.
          bit_right i below
          ∙ ground (
            arith,
            test_bit-and_word i x (max_word * 2 ^ a % modulus / 2 ^ b),
            mask_right i a b below,
            ap (λ (n : ℕ). test_bit n x) {x = i + b - a} {y = i} (omega arith),
          ))

  -- A shift to the right, then to the left.
  left_more :
      a < b
      → b < 256
      → Word.shl b (Word.shr a x)
        ≡ Word.and (Word.shl (b - a) x) (max_word / 2 ^ a * 2 ^ b % modulus)
  left_more h k =
      word_ext _ _ (shl-IsWord b (Word.shr a x))
        (and-IsWord (Word.shl (b - a) x) (max_word / 2 ^ a * 2 ^ b % modulus)
          (shl-IsWord (b - a) x))
        (λ i below.
          bit_left i below
          ∙ ground (
            arith,
            test_bit-and_word i (Word.shl (b - a) x) (max_word / 2 ^ a * 2 ^ b % modulus),
            mask_left i a b below,
            test_bit-shl_word i (b - a) x below,
            λ (q : b ≤ i).
                ap (λ (n : ℕ). test_bit n x) {x = i - b + a} {y = i - (b - a)} (omega arith),
          ))

  left_less :
      b < a
      → a < 256
      → Word.shl b (Word.shr a x)
        ≡ Word.and (Word.shr (a - b) x) (max_word / 2 ^ a * 2 ^ b % modulus)
  left_less h k =
      word_ext _ _ (shl-IsWord b (Word.shr a x))
        (and-IsWord (Word.shr (a - b) x) (max_word / 2 ^ a * 2 ^ b % modulus)
          (shr-IsWord (a - b) x hx))
        (λ i below.
          bit_left i below
          ∙ ground (
            arith,
            test_bit-and_word i (Word.shr (a - b) x) (max_word / 2 ^ a * 2 ^ b % modulus),
            mask_left i a b below,
            test_bit-shr_word i (a - b) x hx,
            λ (q : b ≤ i).
                ap (λ (n : ℕ). test_bit n x) {x = i - b + a} {y = i + (a - b)} (omega arith),
          ))

  left_same : a ≡ b → Word.shl b (Word.shr a x) ≡ Word.and x (max_word / 2 ^ a * 2 ^ b % modulus)
  left_same h =
      word_ext _ _ (shl-IsWord b (Word.shr a x))
        (and-IsWord x (max_word / 2 ^ a * 2 ^ b % modulus) hx)
        (λ i below.
          bit_left i below
          ∙ ground (
            arith,
            test_bit-and_word i x (max_word / 2 ^ a * 2 ^ b % modulus),
            mask_left i a b below,
            λ (q : b ≤ i). ap (λ (n : ℕ). test_bit n x) {x = i - b + a} {y = i} (omega arith),
          ))

module _ (m : Machine) where
  pub right-IsSound : IsSound m (
      guarded_rule
        (op2 Instruction.shr b (op2 Instruction.shl a x))
        (λ d.
          opposite_shift Instruction.shl Instruction.shr
            (shl_workaround max_word (d group_a) / 2 ^ d group_b)
            d)
        false
        both_below)
  unfolding pattern_value
  right-IsSound s w h =
      let (small_a, small_b) = both {a = ltb (s group_a) 256} {b = ltb (s group_b) 256} h in
      elim (Bool-cases (ltb (s group_b) (s group_a))) [
        | inl less ↦
            rw (less, pattern_value, word_sub (s group_a) (s group_b) (ground arith) (w group_a))
              (right_less (s group_x) (w group_x) (s group_a) (s group_b) (ground arith)
                (ground arith))
        | inr not_less ↦ elim (Bool-cases (ltb (s group_a) (s group_b))) [
          | inl more ↦
              rw
                (
                  not_less,
                  more,
                  pattern_value,
                  word_sub (s group_b) (s group_a) (ground arith) (w group_b),
                )
                (right_more (s group_x) (w group_x) (s group_a) (s group_b) (ground arith)
                  (ground arith))
          | inr not_more ↦
              rw (not_less, not_more, pattern_value)
                (right_same (s group_x) (w group_x) (s group_a) (s group_b) (ground arith))
        ]
      ]

  pub left-IsSound : IsSound m (
      guarded_rule
        (op2 Instruction.shl b (op2 Instruction.shr a x))
        (λ d.
          opposite_shift Instruction.shr Instruction.shl
            (shl_workaround (max_word / 2 ^ d group_a) (d group_b))
            d)
        false
        both_below)
  unfolding pattern_value
  left-IsSound s w h =
      let (small_a, small_b) = both {a = ltb (s group_a) 256} {b = ltb (s group_b) 256} h in
      elim (Bool-cases (ltb (s group_b) (s group_a))) [
        | inl less ↦
            rw (less, pattern_value, word_sub (s group_a) (s group_b) (ground arith) (w group_a))
              (left_less (s group_x) (w group_x) (s group_a) (s group_b) (ground arith)
                (ground arith))
        | inr not_less ↦ elim (Bool-cases (ltb (s group_a) (s group_b))) [
          | inl more ↦
              rw
                (
                  not_less,
                  more,
                  pattern_value,
                  word_sub (s group_b) (s group_a) (ground arith) (w group_b),
                )
                (left_more (s group_x) (w group_x) (s group_a) (s group_b) (ground arith)
                  (ground arith))
          | inr not_more ↦
              rw (not_less, not_more, pattern_value)
                (left_same (s group_x) (w group_x) (s group_a) (s group_b) (ground arith))
        ]
      ]
