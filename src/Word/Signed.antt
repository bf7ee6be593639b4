-- ===== src/Word/Signed.antt =====
-- `u2s` and `s2u` of libdevcore/Common.h, and the division of signed numbers, which truncates.
use polynomial.Prelude.{
  ℕ, zero, suc, ◌+◌, ◌-◌, ◌/◌, ◌%◌, ◌^◌, Bool, true, false, ltb, if◌then◌else◌,
}
use polynomial.Word.Bits.{test_bit}

-- `negsuc n` is -(n + 1).
pub data ℤ : Type 0 where
  pos : ℕ → ℤ
  negsuc : ℕ → ℤ

abbrev pub magnitude : ℤ → ℕ
magnitude (pos n) = n
magnitude (negsuc n) = n + 1

abbrev pub is_negative : ℤ → Bool
is_negative (pos n) = false
is_negative (negsuc n) = true

-- The number with this sign and magnitude; there is one zero.
abbrev pub signed : Bool → ℕ → ℤ
signed false n = pos n
signed true zero = pos zero
signed true (suc n) = negsuc n

abbrev pub differs : Bool → Bool → Bool
differs true true = false
differs false false = false
differs _ _ = true

unfoldable pub quot : ℤ → ℤ → ℤ
quot a b = signed (differs (is_negative a) (is_negative b)) (magnitude a / magnitude b)

unfoldable pub rem : ℤ → ℤ → ℤ
rem a b = signed (is_negative a) (magnitude a % magnitude b)

unfoldable pub ltb_ℤ : ℤ → ℤ → Bool
ltb_ℤ (pos a) (pos b) = ltb a b
ltb_ℤ (pos a) (negsuc b) = false
ltb_ℤ (negsuc a) (pos b) = true
ltb_ℤ (negsuc a) (negsuc b) = ltb b a

-- -(2^256 - u) where the highest of the 256 bits is set.
unfoldable pub u2s : ℕ → ℤ
u2s u = if test_bit 255 u then signed true (2 ^ 256 - u) else pos u

unfoldable pub s2u : ℤ → ℕ
s2u (pos n) = n
s2u (negsuc n) = 2 ^ 256 - (n + 1)
