-- ===== src/Instruction/Laws.antt =====
-- The number of an instruction and the instruction of a number are inverse to one another, and the
-- tables of mnemonics and of instruction information agree.
use Prim.Native.String.{String}
use polynomial.Prelude.{
  false_ne_true, both, ==_iff, ap, sym, ◌∙◌, inl, inr, ◌⊎◌, ◌<◌, ◌≡◌, refl, Bool, true, false, ◌&&◌,
  not, Option, none, some, arith, ◌==◌, all_below, all_below_sound,
}
use polynomial.Instruction.{Instruction}
use polynomial.Instruction.Numbers.{
  is_push_instruction, is_dup_instruction, is_swap_instruction, is_log_instruction, get_push_number,
  get_dup_number, get_swap_number, get_log_number, push_instruction, dup_instruction,
  swap_instruction, log_instruction,
}
use polynomial.Instruction.Info.{
  Name, mnemonic, invalid_name, instruction_info, is_valid_instruction,
}
use polynomial.Instruction.Names.{c_instructions, instruction_of}

-- For every instruction of the four families, asking for its number and then for the instruction with
-- that number gives it back.
pub instruction_numbers :
    (inst : Instruction)
    → (is_push_instruction inst ≡ true → push_instruction (get_push_number inst) ≡ some inst)
      × (is_dup_instruction inst ≡ true → dup_instruction (get_dup_number inst) ≡ some inst)
      × (is_swap_instruction inst ≡ true → swap_instruction (get_swap_number inst) ≡ some inst)
      × (is_log_instruction inst ≡ true → log_instruction (get_log_number inst) ≡ some inst)
unfolding is_push_instruction is_dup_instruction is_swap_instruction is_log_instruction
    get_push_number get_dup_number get_swap_number get_log_number push_instruction dup_instruction
    swap_instruction log_instruction
instruction_numbers inst = (ground arith, ground arith, ground arith, ground arith)

abbrev is_some_of : Instruction → Option Instruction → Bool
is_some_of i none = false
is_some_of i (some j) = i == j

abbrev named : Instruction → Name → Bool
named i (mnemonic n) = is_some_of i (instruction_of c_instructions n)
named i (invalid_name b) = i == b && not (is_valid_instruction i)

named_everywhere : all_below 256 (λ i. named i (instruction_info i).name) ≡ true
unfolding instruction_of instruction_info is_valid_instruction
named_everywhere = refl

is_some_of-some : (i : Instruction) (o : Option Instruction) → is_some_of i o ≡ true → o ≡ some i
is_some_of-some i none h = false_ne_true h
is_some_of-some i (some j) h = ap some (sym ((==_iff i j).0 h))

name-found :
    (i : Instruction) (x : Name)
    → (instruction_info i).name ≡ x
    → named i x ≡ true
    → ((n : String) × ((instruction_info i).name ≡ mnemonic n)
        × (instruction_of c_instructions n ≡ some i))
      ⊎ (((instruction_info i).name ≡ invalid_name i) × (is_valid_instruction i ≡ false))
name-found i (mnemonic n) e h = inl (n, e, is_some_of-some i (instruction_of c_instructions n) h)
name-found i (invalid_name b) e h =
    let (same, invalid) = both h in
    inr (e ∙ ap invalid_name (sym ((==_iff i b).0 same)), ground arith)

-- What `instructionInfo` gives as the name of a byte is a mnemonic that the table of mnemonics maps
-- back to the byte, or, only if the byte is no valid instruction, the text that names the byte as
-- invalid.
pub instruction_of-name :
    (i : Instruction)
    → i < 256
    → ((n : String) × ((instruction_info i).name ≡ mnemonic n)
        × (instruction_of c_instructions n ≡ some i))
      ⊎ (((instruction_info i).name ≡ invalid_name i) × (is_valid_instruction i ≡ false))
instruction_of-name i byte =
    name-found i (instruction_info i).name refl
      (all_below_sound 256 (λ j. named j (instruction_info j).name) i named_everywhere byte)
