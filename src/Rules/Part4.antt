-- ===== src/Rules/Part4.antt =====
-- Part 4 of the rule list.
use polynomial.Prelude.{true, false, [], ◌∷◌}
use polynomial.Instruction
use polynomial.Word
use polynomial.Word.{max_word}
use polynomial.Rules.{Rules, rule, value, x, y, op1, op2}

abbrev pub simplification_rule_list_part4 : Rules
simplification_rule_list_part4 =
    (rule (op1 Instruction.not (op1 Instruction.not x)) x false)
    ∷ (rule (op2 Instruction.xor x (op2 Instruction.xor x y)) y true)
    ∷ (rule (op2 Instruction.xor x (op2 Instruction.xor y x)) y true)
    ∷ (rule (op2 Instruction.xor (op2 Instruction.xor x y) x) y true)
    ∷ (rule (op2 Instruction.xor (op2 Instruction.xor y x) x) y true)
    ∷ (rule (op2 Instruction.or x (op2 Instruction.and x y)) x true)
    ∷ (rule (op2 Instruction.or x (op2 Instruction.and y x)) x true)
    ∷ (rule (op2 Instruction.or (op2 Instruction.and x y) x) x true)
    ∷ (rule (op2 Instruction.or (op2 Instruction.and y x) x) x true)
    ∷ (rule (op2 Instruction.and x (op2 Instruction.or x y)) x true)
    ∷ (rule (op2 Instruction.and x (op2 Instruction.or y x)) x true)
    ∷ (rule (op2 Instruction.and (op2 Instruction.or x y) x) x true)
    ∷ (rule (op2 Instruction.and (op2 Instruction.or y x) x) x true)
    ∷ (rule (op2 Instruction.and x (op1 Instruction.not x)) (value 0) true)
    ∷ (rule (op2 Instruction.and (op1 Instruction.not x) x) (value 0) true)
    ∷ (rule (op2 Instruction.or x (op1 Instruction.not x)) (value (Word.not 0)) true)
    ∷ (rule (op2 Instruction.or (op1 Instruction.not x) x) (value (Word.not 0)) true)
    ∷ []
