-- ===== src/Word/Places.antt =====
-- The operations on words, digit by digit: two words with the same 256 digits are equal.
use mathlib.Core.Bool.{xor}
use native.Mathlib.Nat.{div-le_self}
use polynomial.Prelude.{
  All, replicate, suc, zero, ℕ, ◌+◌, ◌-◌, ◌*◌, ◌/◌, ◌%◌, ◌^◌, ◌<◌, ◌≤◌, ◌≡◌, sym, ◌∙◌, true, false,
  not, ◌&&◌, ◌||◌, arith, ltb, if◌then◌else◌, Bool-cases, inl, inr,
}
use polynomial.Word
use polynomial.Word.{IsWord, modulus, max_word}
use polynomial.Word.Bits.{
  test_bit, bits_ext, test_bit-and, test_bit-or, test_bit-xor, test_bit-shl, test_bit-shr,
  test_bit-mod, test_bit-above, test_bit-complement, test_bit-ones, test_bit-zero, bit_and-lt,
  bit_or-lt, bit_xor-lt,
}

pub word_ext :
    (a b : ℕ) → IsWord a → IsWord b → ((i : ℕ) → i < 256 → test_bit i a ≡ test_bit i b) → a ≡ b
word_ext a b ha hb h = bits_ext a b (λ i. elim (Bool-cases (ltb i 256)) [
  | inl below ↦ h i (ground arith)
  | inr above ↦
      test_bit-above 256 i a ha (ground arith) ∙ sym (test_bit-above 256 i b hb (ground arith))
])

pub test_bit-and_word : (i a b : ℕ) → test_bit i (Word.and a b) ≡ (test_bit i a && test_bit i b)
unfolding Word.and
test_bit-and_word i a b = test_bit-and i a b

pub test_bit-or_word : (i a b : ℕ) → test_bit i (Word.or a b) ≡ (test_bit i a || test_bit i b)
unfolding Word.or
test_bit-or_word i a b = test_bit-or i a b

pub test_bit-xor_word : (i a b : ℕ) → test_bit i (Word.xor a b) ≡ xor (test_bit i a) (test_bit i b)
unfolding Word.xor
test_bit-xor_word i a b = test_bit-xor i a b

pub test_bit-not_word :
    (i a : ℕ) → IsWord a → i < 256 → test_bit i (Word.not a) ≡ not (test_bit i a)
unfolding Word.not
test_bit-not_word i a ha h = test_bit-complement 256 i a ha h

pub test_bit-max_word : (i : ℕ) → i < 256 → test_bit i max_word ≡ true
test_bit-max_word i h = test_bit-ones 256 i h

-- A word shifted to the left, cut off at 256 bits.
pub test_bit-shifted :
    (i k a : ℕ)
    → i < 256
    → test_bit i (a * 2 ^ k % modulus) ≡ (if ltb i k then false else test_bit (i - k) a)
test_bit-shifted i k a h = test_bit-mod 256 i (a * 2 ^ k) ∙ ground (arith, test_bit-shl k i a)

pub test_bit-shl_word :
    (i k a : ℕ)
    → i < 256
    → test_bit i (Word.shl k a) ≡ (if ltb i k then false else test_bit (i - k) a)
unfolding Word.shl
test_bit-shl_word i k a h = elim (Bool-cases (ltb 255 k)) [
  | inl far ↦ rw far (test_bit-zero i ∙ ground arith)
  | inr near ↦ rw near (test_bit-shifted i k a h)
]

pub test_bit-shr_word : (i k a : ℕ) → IsWord a → test_bit i (Word.shr k a) ≡ test_bit (i + k) a
unfolding Word.shr
test_bit-shr_word i k a ha = elim (Bool-cases (ltb 255 k)) [
  | inl far ↦ rw far (test_bit-zero i ∙ sym (test_bit-above 256 (i + k) a ha (ground arith)))
  | inr near ↦ rw near (test_bit-shr k i a)
]

pub and-IsWord : (a b : ℕ) → IsWord a → IsWord (Word.and a b)
unfolding Word.and
and-IsWord a b ha = bit_and-lt 256 a b ha

pub or-IsWord : (a b : ℕ) → IsWord a → IsWord b → IsWord (Word.or a b)
unfolding Word.or
or-IsWord a b ha hb = bit_or-lt 256 a b ha hb

pub xor-IsWord : (a b : ℕ) → IsWord a → IsWord b → IsWord (Word.xor a b)
unfolding Word.xor
xor-IsWord a b ha hb = bit_xor-lt 256 a b ha hb

pub not-IsWord : (a : ℕ) → IsWord (Word.not a)
unfolding Word.not
not-IsWord a = omega arith

div-le : (a b : ℕ) → a / b ≤ a
div-le a b = div-le_self a b

pub shr-IsWord : (k a : ℕ) → IsWord a → IsWord (Word.shr k a)
unfolding Word.shr
shr-IsWord k a ha = ground (arith, div-le a (2 ^ k))

pub shl-IsWord : (k a : ℕ) → IsWord (Word.shl k a)
unfolding Word.shl
shl-IsWord k a = ground arith

-- A row of zeros.
pub replicate-IsWord : (n : ℕ) → All IsWord (replicate n 0)
replicate-IsWord zero = tt
replicate-IsWord (suc n) = (omega arith, replicate-IsWord n)
