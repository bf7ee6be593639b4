-- ===== src/Instruction/Tests.antt =====
-- The theorems on instructions at some of them.
use Prim.Native.String.{String}
use polynomial.Prelude.{All, [], ◌∷◌, ◌≡◌, ◌⊎◌, some, true, false, arith}
use polynomial.Instruction
use polynomial.Instruction.Numbers.{
  is_push_instruction, is_dup_instruction, is_swap_instruction, is_log_instruction, get_push_number,
  get_dup_number, get_swap_number, get_log_number, push_instruction, dup_instruction,
  swap_instruction, log_instruction,
}
use polynomial.Instruction.Info.{mnemonic, invalid_name, instruction_info, is_valid_instruction}
use polynomial.Instruction.Stream.{additional_bytes, each_instruction}
use polynomial.Instruction.Decode.{Fits, encode, each_instruction-encode}
use polynomial.Instruction.Names.{c_instructions, instruction_of}
use polynomial.Instruction.Laws.{instruction_numbers, instruction_of-name}

instruction_numbers_example :
    (is_push_instruction Instruction.dup3 ≡ true
      → push_instruction (get_push_number Instruction.dup3) ≡ some Instruction.dup3)
    × (is_dup_instruction Instruction.dup3 ≡ true
        → dup_instruction (get_dup_number Instruction.dup3) ≡ some Instruction.dup3)
    × (is_swap_instruction Instruction.dup3 ≡ true
        → swap_instruction (get_swap_number Instruction.dup3) ≡ some Instruction.dup3)
    × (is_log_instruction Instruction.dup3 ≡ true
        → log_instruction (get_log_number Instruction.dup3) ≡ some Instruction.dup3)
instruction_numbers_example = instruction_numbers Instruction.dup3

instruction_of-name_example :
    ((n : String) × ((instruction_info Instruction.mulmod).name ≡ mnemonic n)
      × (instruction_of c_instructions n ≡ some Instruction.mulmod))
    ⊎ (((instruction_info Instruction.mulmod).name ≡ invalid_name Instruction.mulmod)
        × (is_valid_instruction Instruction.mulmod ≡ false))
instruction_of-name_example = instruction_of-name Instruction.mulmod (omega arith)

-- PUSH2 with its data, then STOP.
push_stop-Fits : All Fits ((Instruction.push2, 0x0102) ∷ (Instruction.stop, 0) ∷ [])
unfolding additional_bytes is_valid_instruction instruction_info
push_stop-Fits = ((omega arith, omega arith), ((omega arith, omega arith), tt))

each_instruction-encode_example :
    each_instruction (encode ((Instruction.push2, 0x0102) ∷ (Instruction.stop, 0) ∷ []))
    ≡ (Instruction.push2, 0x0102) ∷ (Instruction.stop, 0) ∷ []
each_instruction-encode_example =
    each_instruction-encode ((Instruction.push2, 0x0102) ∷ (Instruction.stop, 0) ∷ [])
      push_stop-Fits
