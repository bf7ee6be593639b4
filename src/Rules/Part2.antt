-- ===== src/Rules/Part2.antt =====
-- Part 2 of the rule list.
use polynomial.Prelude.{true, false, [], ◌∷◌}
use polynomial.Instruction
use polynomial.Word
use polynomial.Word.{max_word}
use polynomial.Rules.{Rules, rule, value, x, y, op1, op2}

abbrev pub simplification_rule_list_part2 : Rules
simplification_rule_list_part2 =
    (rule (op2 Instruction.add x (value 0)) x false)
    ∷ (rule (op2 Instruction.add (value 0) x) x false)
    ∷ (rule (op2 Instruction.sub x (value 0)) x false)
    ∷ (rule (op2 Instruction.mul x (value 0)) (value 0) true)
    ∷ (rule (op2 Instruction.mul (value 0) x) (value 0) true)
    ∷ (rule (op2 Instruction.mul x (value 1)) x false)
    ∷ (rule (op2 Instruction.mul (value 1) x) x false)
    ∷ (rule (op2 Instruction.mul x (value max_word)) (op2 Instruction.sub (value 0) x) false)
    ∷ (rule (op2 Instruction.mul (value max_word) x) (op2 Instruction.sub (value 0) x) false)
    ∷ (rule (op2 Instruction.div x (value 0)) (value 0) true)
    ∷ (rule (op2 Instruction.div (value 0) x) (value 0) true)
    ∷ (rule (op2 Instruction.div x (value 1)) x false)
    ∷ (rule (op2 Instruction.sdiv x (value 0)) (value 0) true)
    ∷ (rule (op2 Instruction.sdiv (value 0) x) (value 0) true)
    ∷ (rule (op2 Instruction.sdiv x (value 1)) x false)
    ∷ (rule (op2 Instruction.and x (value (Word.not 0))) x false)
    ∷ (rule (op2 Instruction.and (value (Word.not 0)) x) x false)
    ∷ (rule (op2 Instruction.and x (value 0)) (value 0) true)
    ∷ (rule (op2 Instruction.and (value 0) x) (value 0) true)
    ∷ (rule (op2 Instruction.or x (value 0)) x false)
    ∷ (rule (op2 Instruction.or (value 0) x) x false)
    ∷ (rule (op2 Instruction.or x (value (Word.not 0))) (value (Word.not 0)) true)
    ∷ (rule (op2 Instruction.or (value (Word.not 0)) x) (value (Word.not 0)) true)
    ∷ (rule (op2 Instruction.xor x (value 0)) x false)
    ∷ (rule (op2 Instruction.xor (value 0) x) x false)
    ∷ (rule (op2 Instruction.mod_op x (value 0)) (value 0) true)
    ∷ (rule (op2 Instruction.mod_op (value 0) x) (value 0) true)
    ∷ (rule (op2 Instruction.eq x (value 0)) (op1 Instruction.iszero x) false)
    ∷ (rule (op2 Instruction.eq (value 0) x) (op1 Instruction.iszero x) false)
    ∷ (rule (op2 Instruction.shl (value 0) x) x false)
    ∷ (rule (op2 Instruction.shr (value 0) x) x false)
    ∷ (rule (op2 Instruction.shl x (value 0)) (value 0) true)
    ∷ (rule (op2 Instruction.shr x (value 0)) (value 0) true)
    ∷ (rule (op2 Instruction.gt x (value 0)) (op1 Instruction.iszero (op1 Instruction.iszero x))
        false)
    ∷ (rule (op2 Instruction.lt (value 0) x) (op1 Instruction.iszero (op1 Instruction.iszero x))
        false)
    ∷ (rule (op2 Instruction.gt x (value (Word.not 0))) (value 0) true)
    ∷ (rule (op2 Instruction.lt (value (Word.not 0)) x) (value 0) true)
    ∷ (rule (op2 Instruction.gt (value 0) x) (value 0) true)
    ∷ (rule (op2 Instruction.lt x (value 0)) (value 0) true)
    ∷ (rule (op2 Instruction.and (op2 Instruction.byte x y) (value 0xff)) (op2 Instruction.byte x y)
        false)
    ∷ (rule (op2 Instruction.byte (value 31) x) (op2 Instruction.and x (value 0xff)) false)
    ∷ []
