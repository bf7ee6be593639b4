-- ===== src/Types/Operators.antt =====
-- The types of unary and binary operators on elementary types, libpolynomial/ast/Types.cpp.
use polynomial.Prelude.{Bool, true, false, ◌&&◌, ◌||◌, Option, none, some, if◌then◌else◌}
use polynomial.Types.Token.{Token, is, is_compare_op, is_bit_op, is_boolean_op, is_shift_op}
use polynomial.Types.{
  ElementaryType, address, integer, fixed_point, bool, fixed_bytes, common_type, is_number, is_bool,
}

-- No type, the type of the empty tuple, or an elementary type.
pub data TypeResult : Type 0 where
  refused : TypeResult
  empty_tuple : TypeResult
  result : ElementaryType → TypeResult

abbrev pub of_common : Option ElementaryType → TypeResult
of_common none = refused
of_common (some t) = result t

abbrev pub allowed : Bool → ElementaryType → TypeResult
allowed b t = if b then result t else refused

-- Every type can be deleted.
abbrev pub deleted_or : Token → TypeResult → TypeResult
deleted_or op r = if is op Token.delete then empty_tuple else r

abbrev pub integer_unary : Token → ElementaryType → TypeResult
integer_unary op t =
    deleted_or op
      (allowed (is op Token.sub || is op Token.inc || is op Token.dec || is op Token.bit_not) t)

abbrev pub fixed_point_unary : Token → ElementaryType → TypeResult
fixed_point_unary op t =
    deleted_or op
      (allowed (is op Token.add || is op Token.sub || is op Token.inc || is op Token.dec) t)

unfoldable pub unary_operator_result : ElementaryType → Token → TypeResult
unary_operator_result (address m) op = deleted_or op refused
unary_operator_result (integer bits signed) op = integer_unary op (integer bits signed)
unary_operator_result (fixed_point bits digits signed) op =
    fixed_point_unary op (fixed_point bits digits signed)
unary_operator_result bool op = deleted_or op (allowed (is op Token.not) bool)
unary_operator_result (fixed_bytes bytes) op =
    deleted_or op (allowed (is op Token.bit_not) (fixed_bytes bytes))

abbrev pub is_valid_shift_and_amount_type : Token → ElementaryType → Bool
is_valid_shift_and_amount_type op (integer bits signed) = if is op Token.shr then false else true
is_valid_shift_and_amount_type op _ = false

-- What `IntegerType::binaryOperatorResult` makes of the common type for an operator that is no shift.
abbrev pub integer_operation : Token → Option ElementaryType → TypeResult
integer_operation op none = refused
integer_operation op (some (integer bits signed)) =
    if is_compare_op op
    then result (integer bits signed)
    else if is_boolean_op op
    then refused
    else if is op Token.exp && signed
    then refused
    else result (integer bits signed)
integer_operation op (some (fixed_point bits digits signed)) =
    if is_compare_op op
    then result (fixed_point bits digits signed)
    else if is_boolean_op op
    then refused
    else if is op Token.exp
    then refused
    else result (fixed_point bits digits signed)
integer_operation op (some t) =
    if is_compare_op op then result t else if is_boolean_op op then refused else result t

abbrev pub fixed_point_operation : Token → Option ElementaryType → TypeResult
fixed_point_operation op none = refused
fixed_point_operation op (some t) =
    if is_compare_op op
    then result t
    else if is_bit_op op || is_boolean_op op || is op Token.exp
    then refused
    else result t

-- The common type has to be one of fixed bytes.
abbrev pub fixed_bytes_operation : Token → Option ElementaryType → TypeResult
fixed_bytes_operation op (some (fixed_bytes bytes)) =
    allowed (is_compare_op op || is_bit_op op) (fixed_bytes bytes)
fixed_bytes_operation op _ = refused

abbrev pub address_binary : Token → ElementaryType → ElementaryType → TypeResult
address_binary op t other = if is_compare_op op then of_common (common_type t other) else refused

abbrev pub integer_binary : Token → ElementaryType → ElementaryType → TypeResult
integer_binary op t other =
    if is_number other
    then (if is_shift_op op
        then allowed (is_valid_shift_and_amount_type op other) t
        else integer_operation op (common_type t other))
    else refused

abbrev pub bool_binary : Token → ElementaryType → TypeResult
bool_binary op other =
    if is_bool other
    then allowed (is op Token.equal || is op Token.not_equal || is op Token.and || is op Token.or)
        other
    else refused

abbrev pub fixed_bytes_binary : Token → ElementaryType → ElementaryType → TypeResult
fixed_bytes_binary op t other =
    if is_shift_op op
    then allowed (is_valid_shift_and_amount_type op other) t
    else fixed_bytes_operation op (common_type t other)

unfoldable pub binary_operator_result : Token → ElementaryType → ElementaryType → TypeResult
unfolding common_type is_compare_op is_bit_op is_boolean_op is_shift_op
binary_operator_result op (address m) other = address_binary op (address m) other
binary_operator_result op (integer bits signed) other =
    integer_binary op (integer bits signed) other
binary_operator_result op (fixed_point bits digits signed) other =
    fixed_point_operation op (common_type (fixed_point bits digits signed) other)
binary_operator_result op bool other = bool_binary op other
binary_operator_result op (fixed_bytes bytes) other =
    fixed_bytes_binary op (fixed_bytes bytes) other
