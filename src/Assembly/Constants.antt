-- ===== src/Assembly/Constants.antt =====
-- The costs of the ways to put a constant on the stack, libsvmasm/ConstantOptimiser.h and
-- libsvmasm/ConstantOptimiser.cpp. `none` is an exception.
pub mod Compute
pub mod Correct
pub mod Total
pub mod Copy
pub mod Replace
pub mod Value
pub mod Memory
pub mod Optimise
pub mod Sound
pub mod Find
pub mod Rounds
pub mod Tiny
pub mod Split
mod Tests
use polynomial.Prelude.{
  ℕ, zero, suc, ◌+◌, ◌*◌, ◌/◌, ◌%◌, ◌^◌, Bool, Option, none, some, List, [], ◌∷◌, ◌==◌, ltb,
  if◌then◌else◌, length,
}
use polynomial.Instruction
use polynomial.Instruction.{Instruction}
use polynomial.Version.{SvmVersion}
use polynomial.Gas.{
  run_gas, data_gas, exp_gas, exp_byte_gas, copy_gas, tx_data_non_zero_gas, create_data_gas,
}
use polynomial.Assembly.Item.{
  AssemblyItem, AssemblyItems, op, push, push_data, located, no_location, is_instruction,
  bytes_required, items_bytes, add_sizes,
}

infixl 5 ◌>>=◌
abbrev pub ◌>>=◌ : {A B : Type 0} → Option A → (A → Option B) → Option B
none >>= f = none
some a >>= f = f a

pub record Params : Type 0 where
  pub is_creation : Bool
  pub runs : ℕ
  pub multiplicity : ℕ
  pub svm_version : SvmVersion

-- An item that an instruction or a number is converted to.
abbrev pub of_instruction : Instruction → AssemblyItem
of_instruction i = op i (located no_location)

abbrev pub of_number : ℕ → AssemblyItem
of_number n = push n (located no_location)

-- The round of the loop in `simpleRunGas`.
unfoldable pub item_gas : AssemblyItem → Option ℕ
unfolding run_gas
item_gas (push _ _) = run_gas Instruction.push1
item_gas (op i _) = if i == Instruction.exp then some exp_gas else run_gas i
item_gas _ = some 0

unfoldable pub simple_run_gas : AssemblyItems → Option ℕ
unfolding item_gas
simple_run_gas [] = some 0
simple_run_gas (item ∷ items) = add_sizes (item_gas item) (simple_run_gas items)

-- `toBigEndian` into an array of the given length, from the last byte to the first.
unfoldable pub to_big_endian : ℕ → ℕ → List ℕ
to_big_endian zero value = []
to_big_endian (suc size) value = value / 2 ^ (8 * size) % 256 ∷ to_big_endian size value

unfoldable pub to_compact_big_endian : ℕ → ℕ → List ℕ
unfolding to_big_endian bytes_required
to_compact_big_endian value min =
    to_big_endian (if ltb (bytes_required value) min then min else bytes_required value) value

-- The number of items that are a certain instruction, `std::count`.
unfoldable pub count : AssemblyItems → Instruction → ℕ
unfolding is_instruction
count [] i = 0
count (item ∷ items) i = (if is_instruction item i then 1 else 0) + count items i

-- `CodeCopyMethod::copyRoutine`, with the item that stands at index 4.
abbrev pub copy_routine : AssemblyItem → AssemblyItems
copy_routine item =
    of_number 0
    ∷ of_instruction Instruction.dup1
    ∷ of_instruction Instruction.mload
    ∷ of_number 32
    ∷ item
    ∷ of_instruction Instruction.dup4
    ∷ of_instruction Instruction.codecopy
    ∷ of_instruction Instruction.dup2
    ∷ of_instruction Instruction.mload
    ∷ of_instruction Instruction.swap2
    ∷ of_instruction Instruction.mstore
    ∷ []

module _ (p : Params) where
  abbrev pub combine_gas : ℕ → ℕ → ℕ → ℕ
  combine_gas run_gas repeated_data_gas unique_data_gas =
      p.runs * run_gas + p.multiplicity * repeated_data_gas + unique_data_gas

  -- `ConstantOptimisationMethod::dataGas`.
  abbrev pub method_data_gas : List ℕ → Option ℕ
  method_data_gas bytes = if length bytes == 0 then none else data_gas bytes p.is_creation

  abbrev pub byte_gas : ℕ
  byte_gas = if p.is_creation then tx_data_non_zero_gas else create_data_gas

  -- `LiteralMethod::gasNeeded`.
  unfoldable pub literal_gas : ℕ → Option ℕ
  literal_gas value = do
    run ← simple_run_gas (of_instruction Instruction.push1 ∷ [])
    bytes ← method_data_gas (to_compact_big_endian value 1)
    some (combine_gas run (byte_gas + bytes) 0)

  -- `ComputeMethod::gasNeeded`.
  unfoldable pub compute_gas : AssemblyItems → Option ℕ
  unfolding simple_run_gas items_bytes count exp_byte_gas
  compute_gas routine = do
    run ← simple_run_gas routine
    size ← items_bytes routine 3
    some (
        combine_gas (run + count routine Instruction.exp * (exp_gas + exp_byte_gas p.svm_version))
          (size * byte_gas) 0)

  -- `CodeCopyMethod::gasNeeded`.
  unfoldable pub code_copy_gas : ℕ → Option ℕ
  code_copy_gas value = do
    let routine = copy_routine (push_data (2 ^ 16) (located no_location))
    run ← simple_run_gas routine
    size ← items_bytes routine 3
    bytes ← method_data_gas (to_big_endian 32 value)
    some (combine_gas (run + copy_gas) (size * byte_gas) bytes)
