-- ===== src/Rules/Part3.antt =====
-- Part 3 of the rule list.
use polynomial.Prelude.{true, [], ◌∷◌}
use polynomial.Instruction
use polynomial.Rules.{Rules, rule, value, x, op2}

abbrev pub simplification_rule_list_part3 : Rules
simplification_rule_list_part3 =
    (rule (op2 Instruction.and x x) x true)
    ∷ (rule (op2 Instruction.or x x) x true)
    ∷ (rule (op2 Instruction.xor x x) (value 0) true)
    ∷ (rule (op2 Instruction.sub x x) (value 0) true)
    ∷ (rule (op2 Instruction.eq x x) (value 1) true)
    ∷ (rule (op2 Instruction.lt x x) (value 0) true)
    ∷ (rule (op2 Instruction.slt x x) (value 0) true)
    ∷ (rule (op2 Instruction.gt x x) (value 0) true)
    ∷ (rule (op2 Instruction.sgt x x) (value 0) true)
    ∷ (rule (op2 Instruction.mod_op x x) (value 0) true)
    ∷ []
