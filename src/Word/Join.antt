-- ===== src/Word/Join.antt =====
-- Disjoint numbers joined by OR are added, and numbers by their bytes.
use polynomial.Prelude.{ℕ, zero, suc, ◌+◌, ◌*◌, ◌/◌, ◌^◌, ◌<◌, bit_or, ◌≡◌, ap, ◌∙◌, arith}
use polynomial.Word.Bits.{bits_ext, test_bit-or, test_bit-zero, bit_or_step}

pub bit_or-zero : (a : ℕ) → bit_or a 0 ≡ a
bit_or-zero a = bits_ext _ _ (λ i. ground (arith, test_bit-or i a 0, test_bit-zero i))

double : (q p : ℕ) → q * (2 * p) ≡ 2 * (q * p)
double q p = grind arith

pub bit_or-add : (n q r : ℕ) → r < 2 ^ n → bit_or (q * 2 ^ n) r ≡ q * 2 ^ n + r
bit_or-add zero q r h =
    let none_left : (r ≡ 0) = omega arith in rw none_left (bit_or-zero (q * 1) ∙ omega arith)
bit_or-add (suc n) q r h =
    let twice : (q * 2 ^ suc n ≡ 2 * (q * 2 ^ n)) =
      ap (λ (t : ℕ). q * t) (omega arith) ∙ double q (2 ^ n) in
    let half : (q * 2 ^ suc n / 2 ≡ q * 2 ^ n) = omega (arith, twice) in
    let step : (bit_or (q * 2 ^ suc n / 2) (r / 2) ≡ q * 2 ^ n + r / 2) =
      ap (λ t. bit_or t (r / 2)) half ∙ bit_or-add n q (r / 2) (omega arith) in
    omega (arith, bit_or_step (q * 2 ^ suc n) r, step, twice)

-- A byte more.
pub eight_more : (k : ℕ) → 2 ^ (8 * suc k) ≡ 2 ^ (8 * k) * 2 ^ 8
eight_more k =
    let steps : (8 * suc k ≡ suc (suc (suc (suc (suc (suc (suc (suc (8 * k))))))))) = omega arith in
    ap (λ (t : ℕ). 2 ^ t) steps ∙ omega arith
