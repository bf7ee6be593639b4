-- ===== src/Types.antt =====
-- The elementary types of libpolynomial/ast/Types.h and libpolynomial/ast/Types.cpp: their ranges, their
-- conversions to each other and the types of operators on them. The types of constants, contracts,
-- enumerations and all reference types are left out.
pub mod Token
pub mod Operators
pub mod Ranges
pub mod Convert
pub mod Common
pub mod Stored
mod Tests
use polynomial.Prelude.{
  ℕ, ◌+◌, ◌-◌, ◌*◌, ◌/◌, ◌%◌, ◌^◌, ◌≤◌, ◌<◌, ◌≡◌, ◌⊎◌, Bool, true, false, not, ◌&&◌, ◌||◌, Option,
  none, some, ◌==◌, ltb, leb, if◌then◌else◌,
}
use polynomial.Storage.{StoredType}

pub data StateMutability : Type 0 where
  pure view non_payable payable : StateMutability

abbrev pub mutability : StateMutability → ℕ
mutability pure = 0
mutability view = 1
mutability non_payable = 2
mutability payable = 3

-- Integers and fixed point numbers have their bits, the latter their decimal digits, and whether they
-- are signed.
pub data ElementaryType : Type 0 where
  address : StateMutability → ElementaryType
  integer : ℕ → Bool → ElementaryType
  fixed_point : ℕ → ℕ → Bool → ElementaryType
  bool : ElementaryType
  fixed_bytes : ℕ → ElementaryType

-- What the constructors assert.
abbrev pub IsValid : ElementaryType → Type 0
IsValid (address m) = (m ≡ payable) ⊎ (m ≡ non_payable)
IsValid (integer bits signed) = (0 < bits) × (bits ≤ 256) × (bits % 8 ≡ 0)
IsValid (fixed_point bits digits signed) =
    (8 ≤ bits) × (bits ≤ 256) × (bits % 8 ≡ 0) × (digits ≤ 80)
IsValid bool = Unit
IsValid (fixed_bytes bytes) = (0 < bytes) × (bytes ≤ 32)

-- The largest value, and how far the smallest is below zero.
abbrev pub max_value : ℕ → Bool → ℕ
max_value bits signed = if signed then 2 ^ (bits - 1) - 1 else 2 ^ bits - 1

abbrev pub below_zero : ℕ → Bool → ℕ
below_zero bits signed = if signed then 2 ^ (bits - 1) else 0

abbrev pub max_integer_value : ℕ → ℕ → Bool → ℕ
max_integer_value bits digits signed = (2 ^ (bits - (if signed then 1 else 0)) - 1) / 10 ^ digits

abbrev pub integer_below_zero : ℕ → ℕ → Bool → ℕ
integer_below_zero bits digits signed =
    if signed then 2 ^ (bits - (if signed then 1 else 0)) / 10 ^ digits else 0

abbrev pub address_converts : StateMutability → ElementaryType → Bool
address_converts m (address m') = leb (mutability m') (mutability m)
address_converts m _ = false

abbrev pub integer_converts : ℕ → Bool → ElementaryType → Bool
integer_converts bits signed (integer bits' signed') =
    if ltb bits' bits then false else if signed then signed' else not signed' || ltb bits bits'
integer_converts bits signed (fixed_point bits' digits' signed') =
    leb (max_value bits signed) (max_integer_value bits' digits' signed')
    && leb (below_zero bits signed) (integer_below_zero bits' digits' signed')
integer_converts bits signed _ = false

abbrev pub fixed_point_converts : ℕ → ℕ → Bool → ElementaryType → Bool
fixed_point_converts bits digits signed (fixed_point bits' digits' signed') =
    if ltb digits' digits
    then false
    else if ltb bits' bits
    then false
    else leb (max_integer_value bits digits signed) (max_integer_value bits' digits' signed')
      && leb (integer_below_zero bits digits signed) (integer_below_zero bits' digits' signed')
fixed_point_converts bits digits signed _ = false

abbrev pub is_bool : ElementaryType → Bool
is_bool bool = true
is_bool _ = false

abbrev pub fixed_bytes_converts : ℕ → ElementaryType → Bool
fixed_bytes_converts bytes (fixed_bytes bytes') = leb bytes bytes'
fixed_bytes_converts bytes _ = false

-- Of the type that is converted, for each class.
unfoldable pub is_implicitly_convertible_to : ElementaryType → ElementaryType → Bool
is_implicitly_convertible_to (address m) other = address_converts m other
is_implicitly_convertible_to (integer bits signed) other = integer_converts bits signed other
is_implicitly_convertible_to (fixed_point bits digits signed) other =
    fixed_point_converts bits digits signed other
is_implicitly_convertible_to bool other = is_bool other
is_implicitly_convertible_to (fixed_bytes bytes) other = fixed_bytes_converts bytes other

abbrev pub address_converts_explicitly : StateMutability → ElementaryType → Bool
address_converts_explicitly m (integer bits signed) = true
address_converts_explicitly m (fixed_bytes bytes) = 160 == bytes * 8
address_converts_explicitly m other = address_converts m other

abbrev pub integer_converts_explicitly : ℕ → ElementaryType → Bool
integer_converts_explicitly bits (integer bits' signed') = true
integer_converts_explicitly bits (address m) = true
integer_converts_explicitly bits (fixed_bytes bytes) = bits == bytes * 8
integer_converts_explicitly bits (fixed_point bits' digits' signed') = true
integer_converts_explicitly bits bool = false

abbrev pub is_number : ElementaryType → Bool
is_number (integer bits signed) = true
is_number (fixed_point bits digits signed) = true
is_number _ = false

abbrev pub fixed_bytes_converts_explicitly : ℕ → ElementaryType → Bool
fixed_bytes_converts_explicitly bytes (integer bits signed) = bytes * 8 == bits
fixed_bytes_converts_explicitly bytes (address m) = bytes == 20
fixed_bytes_converts_explicitly bytes (fixed_point bits digits signed) = true
fixed_bytes_converts_explicitly bytes (fixed_bytes bytes') = true
fixed_bytes_converts_explicitly bytes bool = false

-- Of the type that is converted, for each class.
unfoldable pub is_explicitly_convertible_to : ElementaryType → ElementaryType → Bool
is_explicitly_convertible_to (address m) other = address_converts_explicitly m other
is_explicitly_convertible_to (integer bits signed) other = integer_converts_explicitly bits other
is_explicitly_convertible_to (fixed_point bits digits signed) other = is_number other
is_explicitly_convertible_to bool other = is_bool other
is_explicitly_convertible_to (fixed_bytes bytes) other = fixed_bytes_converts_explicitly bytes other

-- `Type::commonType`, for types that are their own mobile types.
unfoldable pub common_type : ElementaryType → ElementaryType → Option ElementaryType
unfolding is_implicitly_convertible_to
common_type a b =
    if is_implicitly_convertible_to b a
    then some a
    else if is_implicitly_convertible_to a b
    then some b
    else none

abbrev pub storage_bytes : ElementaryType → ℕ
storage_bytes (address m) = 160 / 8
storage_bytes (integer bits signed) = bits / 8
storage_bytes (fixed_point bits digits signed) = bits / 8
storage_bytes bool = 1
storage_bytes (fixed_bytes bytes) = bytes

-- What the layout of storage sees of an elementary type.
abbrev pub stored_type : ElementaryType → StoredType
stored_type t = record { can_be_stored = true; storage_bytes = storage_bytes t; storage_size = 1 }
