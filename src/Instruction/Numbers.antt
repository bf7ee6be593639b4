-- ===== src/Instruction/Numbers.antt =====
-- The families PUSH1 to PUSH32, DUP1 to DUP16, SWAP1 to SWAP16 and LOG0 to LOG4 of
-- libsvmasm/Instruction.h: membership, the number of an instruction and the way back. Subtraction
-- is that of a 32-bit `unsigned`; `none` is the exception InvalidOpcode.
use polynomial.Prelude.{ℕ, ◌+◌, ◌-◌, ◌%◌, ◌^◌, Bool, ◌&&◌, Option, none, some, leb, if◌then◌else◌}
use polynomial.Instruction
use polynomial.Instruction.{Instruction}

unfoldable pub is_push_instruction : Instruction → Bool
is_push_instruction inst = leb Instruction.push1 inst && leb inst Instruction.push32

unfoldable pub is_dup_instruction : Instruction → Bool
is_dup_instruction inst = leb Instruction.dup1 inst && leb inst Instruction.dup16

unfoldable pub is_swap_instruction : Instruction → Bool
is_swap_instruction inst = leb Instruction.swap1 inst && leb inst Instruction.swap16

unfoldable pub is_log_instruction : Instruction → Bool
is_log_instruction inst = leb Instruction.log0 inst && leb inst Instruction.log4

unfoldable pub get_push_number : Instruction → ℕ
get_push_number inst = (inst + 2 ^ 32 - Instruction.push1 + 1) % 2 ^ 32

unfoldable pub get_dup_number : Instruction → ℕ
get_dup_number inst = (inst + 2 ^ 32 - Instruction.dup1 + 1) % 2 ^ 32

unfoldable pub get_swap_number : Instruction → ℕ
get_swap_number inst = (inst + 2 ^ 32 - Instruction.swap1 + 1) % 2 ^ 32

unfoldable pub get_log_number : Instruction → ℕ
get_log_number inst = (inst + 2 ^ 32 - Instruction.log0) % 2 ^ 32

-- The conversion of a number to the enumeration keeps its lowest byte.
abbrev pub to_instruction : ℕ → Instruction
to_instruction n = n % 256

unfoldable pub push_instruction : ℕ → Option Instruction
push_instruction number =
    if leb 1 number && leb number 32
    then some (to_instruction (Instruction.push1 + number - 1))
    else none

unfoldable pub dup_instruction : ℕ → Option Instruction
dup_instruction number =
    if leb 1 number && leb number 16
    then some (to_instruction (Instruction.dup1 + number - 1))
    else none

unfoldable pub swap_instruction : ℕ → Option Instruction
swap_instruction number =
    if leb 1 number && leb number 16
    then some (to_instruction (Instruction.swap1 + number - 1))
    else none

unfoldable pub log_instruction : ℕ → Option Instruction
log_instruction number =
    if leb number 4 then some (to_instruction (Instruction.log0 + number)) else none
