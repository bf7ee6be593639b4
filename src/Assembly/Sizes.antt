-- ===== src/Assembly/Sizes.antt =====
-- The bytes that a number takes, `bytesRequired` of libdevcore/CommonData.h.
use polynomial.Prelude.{
  ℕ, zero, suc, ◌+◌, ◌*◌, ◌/◌, ◌^◌, ◌<◌, ◌≤◌, ◌≡◌, false, ◌==◌, ==_iff, Bool-cases, inl, inr, arith,
}
use polynomial.Word.{IsWord}
use polynomial.Word.Bits.{one-le-pow_two}
use polynomial.Word.Join.{eight_more}
use polynomial.Assembly.Item.{byte_loop, bytes_required}

le-byte_loop : (f count n : ℕ) → count ≤ byte_loop f count n
unfolding byte_loop
le-byte_loop zero count n = omega arith
le-byte_loop (suc f) count n = elim (Bool-cases (n == 0)) [
  | inl none_left ↦ rw none_left (omega arith)
  | inr more ↦ rw more (omega (arith, le-byte_loop f (count + 1) (n / 2 ^ 8)))
]

-- In both directions: `j` rounds are enough, and `j` bytes are enough.
abbrev Agree : ℕ → ℕ → ℕ → ℕ → Type 0
Agree size count n j = (size ≤ count + j → n < 2 ^ (8 * j)) × (n < 2 ^ (8 * j) → size ≤ count + j)

none_needed : (count n j : ℕ) → n ≡ 0 → Agree count count n j
none_needed count n j h =
    let positive = one-le-pow_two (8 * j) in (λ s. omega arith, λ s. omega arith)

one_more :
    (size count n j : ℕ)
    → (n == 0) ≡ false
    → count + 1 ≤ size
    → ((i : ℕ) → Agree size (count + 1) (n / 2 ^ 8) i)
    → Agree size count n j
one_more size count n zero some_left above rest = (λ s. ground arith, λ s. ground arith)
one_more size count n (suc j) some_left above rest =
    let (fore, back) = rest j in
    let more = eight_more j in
    (λ s. omega (arith, fore (omega arith), more), λ s. omega (arith, back (omega (arith, more))))

byte_loop-Agree : (f count n j : ℕ) → n < 2 ^ (8 * f) → Agree (byte_loop f count n) count n j
unfolding byte_loop
byte_loop-Agree zero count n j h = none_needed count n j (omega arith)
byte_loop-Agree (suc f) count n j h = elim (Bool-cases (n == 0)) [
  | inl none_left ↦ rw none_left (none_needed count n j ((==_iff n 0).0 none_left))
  | inr more ↦ rw more (
      one_more (byte_loop f (count + 1) (n / 2 ^ 8)) count n j more
        (le-byte_loop f (count + 1) (n / 2 ^ 8))
        (λ i. byte_loop-Agree f (count + 1) (n / 2 ^ 8) i (omega (arith, eight_more f))))
]

-- For a word and any number of bytes, the size that `bytesRequired` gives is at most that number if
-- and only if the word is below the power of two with eight times as many bits: the size is enough
-- for the word, and it is the least that is.
pub bytes_required-least :
    (n j : ℕ)
    → IsWord n
    → (bytes_required n ≤ j → n < 2 ^ (8 * j)) × (n < 2 ^ (8 * j) → bytes_required n ≤ j)
unfolding bytes_required
bytes_required-least n j h =
    let (fore, back) = byte_loop-Agree 32 0 n j (omega arith) in
    (λ s. fore (omega arith), λ s. omega (arith, back s))
