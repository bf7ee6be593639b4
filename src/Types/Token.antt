-- ===== src/Types/Token.antt =====
-- The operators among the tokens of liblangutil/Token.h, and the classes of them in `TokenTraits`.
use polynomial.Prelude.{ℕ, Bool, ◌&&◌, ◌||◌, ◌==◌, leb}

pub data Token : Type 0 where
  comma or and bit_or bit_xor bit_and shl sar shr add sub mul div mod_op exp : Token
  equal not_equal less_than greater_than less_than_or_equal greater_than_or_equal : Token
  not bit_not inc dec delete : Token

-- The place of an operator in the enumeration, counted from `comma`.
abbrev pub place : Token → ℕ
place comma = 0
place or = 1
place and = 2
place bit_or = 3
place bit_xor = 4
place bit_and = 5
place shl = 6
place sar = 7
place shr = 8
place add = 9
place sub = 10
place mul = 11
place div = 12
place mod_op = 13
place exp = 14
place equal = 15
place not_equal = 16
place less_than = 17
place greater_than = 18
place less_than_or_equal = 19
place greater_than_or_equal = 20
place not = 21
place bit_not = 22
place inc = 23
place dec = 24
place delete = 25

abbrev pub is : Token → Token → Bool
is op other = place op == place other

abbrev pub between : Token → Token → Token → Bool
between first op last = leb (place first) (place op) && leb (place op) (place last)

unfoldable pub is_compare_op : Token → Bool
is_compare_op op = between equal op greater_than_or_equal

unfoldable pub is_bit_op : Token → Bool
is_bit_op op = between bit_or op bit_and || is op bit_not

unfoldable pub is_boolean_op : Token → Bool
is_boolean_op op = between or op and || is op not

unfoldable pub is_shift_op : Token → Bool
is_shift_op op = between shl op shr
