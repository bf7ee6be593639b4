-- ===== src/Types/Tests.antt =====
-- Conversions between some elementary types, and a conversion of fixed point numbers that loses values.
use polynomial.Prelude.{
  ℕ, ◌≡◌, refl, true, false, Option, some, List, [], ◌∷◌, map, inl, ◌⊎◌, ◌↔◌, arith,
}
use polynomial.Storage.{offsets, compute_offsets}
use polynomial.Storage.Layout.{InOrder}
use polynomial.Types.{
  ElementaryType, address, integer, fixed_point, bool, fixed_bytes, payable, stored_type,
  is_implicitly_convertible_to, is_explicitly_convertible_to, common_type,
}
use polynomial.Types.Token.{shl, add, is_shift_op}
use polynomial.Types.Operators.{result, binary_operator_result}
use polynomial.Types.Ranges.{ℤ, pos, HasInteger, integer-converts, converts-HasInteger}
use polynomial.Types.Convert.{implicitly_trans, implicitly_explicitly}
use polynomial.Types.Common.{common_type-least, binary_operator_result-converts}
use polynomial.Types.Stored.{elementary-InOrder}

abbrev uint8 : ElementaryType
uint8 = integer 8 false

abbrev int16 : ElementaryType
int16 = integer 16 true

abbrev int32 : ElementaryType
int32 = integer 32 true

narrow-wide : is_implicitly_convertible_to uint8 int16 ≡ true
unfolding is_implicitly_convertible_to
narrow-wide = refl

wide-wider : is_implicitly_convertible_to int16 int32 ≡ true
unfolding is_implicitly_convertible_to
wide-wider = refl

-- All but 0.065 of the values up to 0.255 are lost.
loses_digits : is_implicitly_convertible_to (fixed_point 8 3 false) (fixed_point 16 6 false) ≡ true
unfolding is_implicitly_convertible_to
loses_digits = refl

loses_sign : is_implicitly_convertible_to (fixed_point 8 3 true) (fixed_point 8 3 false) ≡ true
unfolding is_implicitly_convertible_to
loses_sign = refl

implicitly_trans_example : is_implicitly_convertible_to uint8 int32 ≡ true
implicitly_trans_example =
    implicitly_trans uint8 int16 int32 (omega arith, omega arith, refl) narrow-wide wide-wider

implicitly_explicitly_example : is_explicitly_convertible_to uint8 int16 ≡ true
implicitly_explicitly_example = implicitly_explicitly uint8 int16 narrow-wide

common-wide : common_type uint8 int16 ≡ some int16
unfolding common_type
common-wide = refl

common_type-least_example : (is_implicitly_convertible_to int16 int32 ≡ true) ↔ (
    (is_implicitly_convertible_to uint8 int32 ≡ true)
    × (is_implicitly_convertible_to int16 int32 ≡ true))
common_type-least_example =
    common_type-least uint8 int16 int16 int32 (omega arith, omega arith, refl)
      (omega arith, omega arith, refl) common-wide

sum-wide : binary_operator_result add uint8 int16 ≡ result int16
unfolding binary_operator_result
sum-wide = refl

shifted-narrow : binary_operator_result shl uint8 int16 ≡ result uint8
unfolding binary_operator_result
shifted-narrow = refl

binary_operator_result-converts_example :
    ((is_implicitly_convertible_to uint8 int16 ≡ true)
      × (is_implicitly_convertible_to int16 int16 ≡ true))
    ⊎ ((is_shift_op add ≡ true) × (uint8 ≡ int16))
binary_operator_result-converts_example =
    binary_operator_result-converts add uint8 int16 int16 sum-wide

integer-converts_example :
    (is_implicitly_convertible_to uint8 (fixed_point 128 18 true) ≡ true)
    ↔ ((z : ℤ) → HasInteger uint8 z → HasInteger (fixed_point 128 18 true) z)
integer-converts_example =
    integer-converts 8 false (fixed_point 128 18 true) (omega arith, omega arith, refl)
      (omega arith, omega arith, refl, omega arith)

converts-HasInteger_example : HasInteger int16 (pos 200)
converts-HasInteger_example =
    converts-HasInteger uint8 int16 (omega arith, omega arith, refl)
      (omega arith, omega arith, refl) narrow-wide (pos 200) (omega arith)

abbrev variables : List ElementaryType
variables = address payable ∷ integer 96 false ∷ bool ∷ fixed_bytes 32 ∷ []

elementary-InOrder_example :
    (places : List (Option (ℕ × ℕ))) × (size : ℕ) × (compute_offsets (map stored_type variables)
      ≡ offsets places size)
    × InOrder size 0 (map stored_type variables) places
elementary-InOrder_example =
    elementary-InOrder variables
      (inl refl, ((omega arith, omega arith, refl), (tt, ((omega arith, omega arith), tt))))
      (omega arith)
