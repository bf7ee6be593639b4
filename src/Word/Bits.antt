-- ===== src/Word/Bits.antt =====
-- The binary digits of a number, and the bit operations digit by digit. Two numbers with the same
-- digits are equal, so that a law of `&`, `|`, `^`, `<<` and `>>` is a law of the Booleans.
use Prim.Native.Nat.{digits, bit_and-bitwise, bit_or-bitwise, bit_xor-bitwise, differ, max}
use native.Mathlib.Nat.{
  pow-succ', div-div-eq-div-mul, add-zero, sub-zero, div-add-mod, add-mul-mod_self_left,
  mod-eq_of_lt, mod-lt,
}
use mathlib.Core.Bool.{xor}
use polynomial.Prelude.{
  ℕ, zero, suc, ◌+◌, ◌-◌, ◌*◌, ◌/◌, ◌%◌, ◌^◌, ◌≤◌, ◌<◌, min, bit_and, bit_or, bit_xor, ◌≡◌, refl,
  sym, ap, ◌∙◌, Bool, false, not, ◌&&◌, ◌||◌, arith, ltb, ◌==◌, if◌then◌else◌, Bool-cases, inl, inr,
  true,
}

-- The definition that the native operations stand for takes fuel. As much as the first number is
-- enough, whatever is done with the digits.
enough_digits :
    (end : ℕ → ℕ) (g : ℕ → ℕ → ℕ) (x y fuel more : ℕ)
    → x ≤ fuel
    → x ≤ more
    → digits end g fuel x y ≡ digits end g more x y
enough_digits end g zero y zero zero _ _ = refl
enough_digits end g zero y zero (suc more) _ _ = refl
enough_digits end g zero y (suc fuel) zero _ _ = refl
enough_digits end g zero y (suc fuel) (suc more) _ _ = refl
enough_digits end g (suc x) y zero more few _ = absurd (omega arith)
enough_digits end g (suc x) y (suc fuel) zero _ few = absurd (omega arith)
enough_digits end g (suc x) y (suc fuel) (suc more) small less =
    let half = suc x / 2 in
    omega (arith, enough_digits end g half (y / 2) fuel more (omega arith) (omega arith))

halved :
    (end : ℕ → ℕ) (g : ℕ → ℕ → ℕ) (x y : ℕ)
    → digits end g x (suc x / 2) (y / 2) ≡ digits end g (suc x / 2) (suc x / 2) (y / 2)
halved end g x y = enough_digits end g (suc x / 2) (y / 2) x (suc x / 2) (omega arith) (omega arith)

-- The last digit of a result comes from the last digits, and the others from the others.
pub bit_and_step : (x y : ℕ) → bit_and x y ≡ min (x % 2) (y % 2) + 2 * bit_and (x / 2) (y / 2)
bit_and_step zero y = omega (arith, bit_and-bitwise zero y, bit_and-bitwise zero (y / 2))
bit_and_step (suc x) y =
    let tops = bit_and-bitwise (suc x / 2) (y / 2) in
    omega (arith, halved (λ d. zero) min x y, tops, bit_and-bitwise (suc x) y)

pub bit_or_step : (x y : ℕ) → bit_or x y ≡ max (x % 2) (y % 2) + 2 * bit_or (x / 2) (y / 2)
bit_or_step zero y = omega (arith, bit_or-bitwise zero y, bit_or-bitwise zero (y / 2))
bit_or_step (suc x) y =
    let tops = bit_or-bitwise (suc x / 2) (y / 2) in
    omega (arith, halved (λ d. d) max x y, tops, bit_or-bitwise (suc x) y)

differ-zero : (b : ℕ) → differ 0 b ≡ b
differ-zero b = refl

pub bit_xor_step : (x y : ℕ) → bit_xor x y ≡ differ (x % 2) (y % 2) + 2 * bit_xor (x / 2) (y / 2)
bit_xor_step zero y =
    omega (arith, bit_xor-bitwise zero y, bit_xor-bitwise zero (y / 2), differ-zero (y % 2))
bit_xor_step (suc x) y =
    let tops = bit_xor-bitwise (suc x / 2) (y / 2) in
    omega (arith, halved (λ d. d) differ x y, tops, bit_xor-bitwise (suc x) y)

-- The digit at a place, the lowest at place 0.
unfoldable pub test_bit : ℕ → ℕ → Bool
test_bit zero n = n % 2 == 1
test_bit (suc i) n = test_bit i (n / 2)

bits_ext_fuel : (f a b : ℕ) → a ≤ f → b ≤ f → ((i : ℕ) → test_bit i a ≡ test_bit i b) → a ≡ b
unfolding test_bit
bits_ext_fuel zero a b p q h = omega arith
bits_ext_fuel (suc f) a b p q h =
    let low : (a % 2 == 1) ≡ (b % 2 == 1) = h 0 in
    let high : ((a / 2) ≡ (b / 2)) =
      bits_ext_fuel f (a / 2) (b / 2) (omega arith) (omega arith) (λ i. h (suc i)) in
    ground arith

-- Numbers with the same digits are equal.
pub bits_ext : (a b : ℕ) → ((i : ℕ) → test_bit i a ≡ test_bit i b) → a ≡ b
bits_ext a b h = bits_ext_fuel (a + b) a b (omega arith) (omega arith) h

pub test_bit-and : (i a b : ℕ) → test_bit i (bit_and a b) ≡ (test_bit i a && test_bit i b)
unfolding test_bit
test_bit-and zero a b = ground (arith, bit_and_step a b)
test_bit-and (suc i) a b =
    let half : (bit_and a b / 2 ≡ bit_and (a / 2) (b / 2)) = omega (arith, bit_and_step a b) in
    rw half (test_bit-and i (a / 2) (b / 2))

pub test_bit-or : (i a b : ℕ) → test_bit i (bit_or a b) ≡ (test_bit i a || test_bit i b)
unfolding test_bit
test_bit-or zero a b = ground (arith, bit_or_step a b)
test_bit-or (suc i) a b =
    let half : (bit_or a b / 2 ≡ bit_or (a / 2) (b / 2)) = omega (arith, bit_or_step a b) in
    rw half (test_bit-or i (a / 2) (b / 2))

differ-bits : (x y : ℕ) → x < 2 → y < 2 → differ x y ≡ (if x == y then 0 else 1)
differ-bits zero zero p q = refl
differ-bits zero (suc zero) p q = refl
differ-bits zero (suc (suc y)) p q = absurd (omega arith)
differ-bits (suc zero) zero p q = refl
differ-bits (suc zero) (suc zero) p q = refl
differ-bits (suc zero) (suc (suc y)) p q = absurd (omega arith)
differ-bits (suc (suc x)) y p q = absurd (omega arith)

xor_low : (a b : ℕ) → bit_xor a b ≡ (if a % 2 == b % 2 then 0 else 1) + 2 * bit_xor (a / 2) (b / 2)
xor_low a b =
    bit_xor_step a b
    ∙ ap (λ (d : ℕ). d + 2 * bit_xor (a / 2) (b / 2))
        (differ-bits (a % 2) (b % 2) (omega arith) (omega arith))

pub test_bit-xor : (i a b : ℕ) → test_bit i (bit_xor a b) ≡ xor (test_bit i a) (test_bit i b)
unfolding test_bit xor
test_bit-xor zero a b = ground (arith, xor_low a b)
test_bit-xor (suc i) a b =
    let half : (bit_xor a b / 2 ≡ bit_xor (a / 2) (b / 2)) = ground (arith, xor_low a b) in
    rw half (test_bit-xor i (a / 2) (b / 2))

pub test_bit-zero : (i : ℕ) → test_bit i 0 ≡ false
unfolding test_bit
test_bit-zero zero = refl
test_bit-zero (suc i) = test_bit-zero i

half-shr : (a k : ℕ) → a / 2 ^ suc k ≡ (a / 2) / 2 ^ k
half-shr a k = rw (pow-succ' 2 k) (sym (div-div-eq-div-mul a 2 (2 ^ k)))

-- Dividing by a power of two moves the digits down.
pub test_bit-shr : (k i a : ℕ) → test_bit i (a / 2 ^ k) ≡ test_bit (i + k) a
unfolding test_bit
test_bit-shr zero i a = let whole : (a / 2 ^ 0 ≡ a) = omega arith in rw (whole, add-zero)
test_bit-shr (suc k) i a =
    let place : (i + suc k ≡ suc (i + k)) = omega arith in
    rw (half-shr a k, place) (test_bit-shr k i (a / 2))

double-pow : (n : ℕ) → 2 ^ suc n ≡ 2 * 2 ^ n
double-pow n = pow-succ' 2 n

-- The digits above a number's size are 0.
pub test_bit-above : (n i a : ℕ) → a < 2 ^ n → n ≤ i → test_bit i a ≡ false
unfolding test_bit
test_bit-above zero i a p q =
    let none_left : (a ≡ 0) = omega arith in rw none_left (test_bit-zero i)
test_bit-above (suc n) zero a p q = absurd (omega arith)
test_bit-above (suc n) (suc i) a p q =
    test_bit-above n i (a / 2) (omega (arith, double-pow n)) (omega arith)

-- The complement in n digits inverts each of them.
pub test_bit-complement :
    (n i a : ℕ) → a < 2 ^ n → i < n → test_bit i (2 ^ n - 1 - a) ≡ not (test_bit i a)
unfolding test_bit
test_bit-complement zero i a p q = absurd (omega arith)
test_bit-complement (suc n) zero a p q = ground (arith, double-pow n)
test_bit-complement (suc n) (suc i) a p q =
    let halved : ((2 ^ suc n - 1 - a) / 2 ≡ 2 ^ n - 1 - a / 2) = omega (arith, double-pow n) in
    rw halved (test_bit-complement n i (a / 2) (omega (arith, double-pow n)) (omega arith))

mod_twice : (a m : ℕ) → 0 < m → a % (2 * m) ≡ (a / 2) % m * 2 + a % 2
mod_twice a m h =
    let split : (a ≡ ((a / 2) % m * 2 + a % 2) + (2 * m) * (a / 2 / m)) =
      omega (arith, div-add-mod (a / 2) m) in
    ap (λ (n : ℕ). n % (2 * m)) split
    ∙ add-mul-mod_self_left ((a / 2) % m * 2 + a % 2) (2 * m) (a / 2 / m)
    ∙ mod-eq_of_lt (omega (arith, mod-lt (a / 2) h))

pub one-le-pow_two : (n : ℕ) → 1 ≤ 2 ^ n
one-le-pow_two zero = omega arith
one-le-pow_two (suc n) = omega (arith, double-pow n, one-le-pow_two n)

mod_double : (a n : ℕ) → a % 2 ^ suc n ≡ (a / 2) % 2 ^ n * 2 + a % 2
mod_double a n = rw (double-pow n) (mod_twice a (2 ^ n) (omega (arith, one-le-pow_two n)))

-- Taking the remainder by a power of two keeps the lower digits.
pub test_bit-mod : (n i a : ℕ) → test_bit i (a % 2 ^ n) ≡ (if ltb i n then test_bit i a else false)
unfolding test_bit
test_bit-mod zero i a =
    let nothing : (a % 2 ^ 0 ≡ 0) = omega arith in rw nothing (ground (arith, test_bit-zero i))
test_bit-mod (suc n) zero a = ground (arith, mod_double a n)
test_bit-mod (suc n) (suc i) a =
    let halved : ((a % 2 ^ suc n) / 2 ≡ (a / 2) % 2 ^ n) = omega (arith, mod_double a n) in
    rw halved (ground (arith, test_bit-mod n i (a / 2)))

-- Multiplying by a power of two moves the digits up.
pub test_bit-shl :
    (k i a : ℕ) → test_bit i (a * 2 ^ k) ≡ (if ltb i k then false else test_bit (i - k) a)
unfolding test_bit
test_bit-shl zero i a =
    let whole : (a * 2 ^ 0 ≡ a) = omega arith in rw whole (ground (arith, sub-zero i))
test_bit-shl (suc k) zero a = ground (arith, double-pow k, ap (λ (p : ℕ). a * p) (double-pow k))
test_bit-shl (suc k) (suc i) a =
    let halved : ((a * 2 ^ suc k) / 2 ≡ a * 2 ^ k) =
      omega (arith, ap (λ (p : ℕ). a * p) (double-pow k)) in
    rw halved (ground (arith, test_bit-shl k i a))

-- A number with no digit from place n on is below 2^n.
pub lt_of_bits : (n a : ℕ) → ((i : ℕ) → n ≤ i → test_bit i a ≡ false) → a < 2 ^ n
lt_of_bits n a high =
    let cut : (a % 2 ^ n ≡ a) = bits_ext (a % 2 ^ n) a (λ i.
      test_bit-mod n i a ∙ elim (Bool-cases (ltb i n)) [
        | inl below ↦ rw below
        | inr above ↦ rw above (sym (high i (ground arith)))
      ]) in
    omega (arith, mod-lt a (one-le-pow_two n), cut)

pub bit_and-lt : (n a b : ℕ) → a < 2 ^ n → bit_and a b < 2 ^ n
bit_and-lt n a b h =
    lt_of_bits n (bit_and a b) (λ i p. rw (test_bit-and i a b, test_bit-above n i a h p))

pub bit_or-lt : (n a b : ℕ) → a < 2 ^ n → b < 2 ^ n → bit_or a b < 2 ^ n
bit_or-lt n a b h k =
    lt_of_bits n (bit_or a b)
      (λ i p. rw (test_bit-or i a b, test_bit-above n i a h p, test_bit-above n i b k p))

pub bit_xor-lt : (n a b : ℕ) → a < 2 ^ n → b < 2 ^ n → bit_xor a b < 2 ^ n
unfolding xor
bit_xor-lt n a b h k =
    lt_of_bits n (bit_xor a b)
      (λ i p. rw (test_bit-xor i a b, test_bit-above n i a h p, test_bit-above n i b k p))

pub bit_and_comm : (a b : ℕ) → bit_and a b ≡ bit_and b a
bit_and_comm a b = bits_ext _ _ (λ i. ground (arith, test_bit-and i a b, test_bit-and i b a))

pub bit_or_comm : (a b : ℕ) → bit_or a b ≡ bit_or b a
bit_or_comm a b = bits_ext _ _ (λ i. ground (arith, test_bit-or i a b, test_bit-or i b a))

pub bit_xor_comm : (a b : ℕ) → bit_xor a b ≡ bit_xor b a
unfolding xor
bit_xor_comm a b = bits_ext _ _ (λ i. ground (arith, test_bit-xor i a b, test_bit-xor i b a))

-- The n lowest digits of the number of n ones are 1.
pub test_bit-ones : (n i : ℕ) → i < n → test_bit i (2 ^ n - 1) ≡ true
unfolding test_bit
test_bit-ones zero i h = elim h [ ]
test_bit-ones (suc n) zero h = ground (arith, double-pow n, one-le-pow_two n)
test_bit-ones (suc n) (suc i) h =
    let halved : ((2 ^ suc n - 1) / 2 ≡ 2 ^ n - 1) =
      omega (arith, double-pow n, one-le-pow_two n) in
    rw halved (test_bit-ones n i (omega arith))

pub bit_and-ones : (n a : ℕ) → a < 2 ^ n → bit_and a (2 ^ n - 1) ≡ a
bit_and-ones n a h = bits_ext _ _ (λ i.
    rw (test_bit-and i a (2 ^ n - 1)) (elim (Bool-cases (ltb i n)) [
      | inl below ↦ rw (test_bit-ones n i (ground arith)) (ground arith)
      | inr above ↦ rw (test_bit-above n i a h (ground arith)) refl
    ]))
