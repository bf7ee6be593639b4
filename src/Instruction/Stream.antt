-- ===== src/Instruction/Stream.antt =====
-- The instructions of a piece of code, `eachInstruction` of libsvmasm/Instruction.cpp: the calls that
-- it makes, in order. A byte is a number below 256.
use polynomial.Prelude.{ℕ, zero, suc, ◌*◌, ◌%◌, ◌^◌, bit_or, List, [], ◌∷◌, if◌then◌else◌, length}
use polynomial.Instruction.{Instruction}
use polynomial.Instruction.Info.{instruction_info, is_valid_instruction}

-- A byte that is no instruction has no data.
unfoldable pub additional_bytes : Instruction → ℕ
unfolding is_valid_instruction instruction_info
additional_bytes instr =
    if is_valid_instruction instr then (instruction_info instr).additional else 0

-- The data of an instruction and the bytes behind it: the loop `while (additional > 0 && ...)`, and
-- the zeros that stand for the bytes that are missing at the end.
unfoldable pub read_data : ℕ → ℕ → List ℕ → ℕ × List ℕ
read_data zero word mem = (word, mem)
read_data (suc additional) word [] = (word * 2 ^ (8 * suc additional) % 2 ^ 256, [])
read_data (suc additional) word (byte ∷ mem) =
    read_data additional (bit_or (word * 2 ^ 8 % 2 ^ 256) byte) mem

-- The rounds of the loop over the code; each takes a byte at least.
unfoldable pub instruction_loop : ℕ → List ℕ → List (Instruction × ℕ)
unfolding read_data additional_bytes
instruction_loop zero mem = []
instruction_loop (suc fuel) [] = []
instruction_loop (suc fuel) (instr ∷ mem) =
    (instr, (read_data (additional_bytes instr) 0 mem).0)
    ∷ instruction_loop fuel (read_data (additional_bytes instr) 0 mem).1

unfoldable pub each_instruction : List ℕ → List (Instruction × ℕ)
unfolding instruction_loop
each_instruction mem = instruction_loop (length mem) mem
