-- ===== src/Rules/Part5.antt =====
-- Parts 5 and 6 of the rule list: remainders by powers of two, shifts by too much, masks on
-- addresses, and truth values.
use polynomial.Prelude.{ℕ, zero, suc, ◌-◌, ◌^◌, leb, true, false, List, [], ◌∷◌, ◌++◌}
use polynomial.Instruction
use polynomial.Instruction.{Instruction}
use polynomial.Rules.{
  Rules, SimplificationRule, rule, guarded_rule, value, a, x, y, op0, op1, op2, group_a,
}

abbrev pub mod_rule : ℕ → SimplificationRule
mod_rule i =
    rule (op2 Instruction.mod_op x (value (2 ^ i))) (op2 Instruction.and x (value (2 ^ i - 1)))
      false

-- The rules for `i` and the `n` numbers from it on.
unfoldable pub mod_rules : ℕ → ℕ → Rules
mod_rules i zero = []
mod_rules i (suc n) = mod_rule i ∷ mod_rules (suc i) n

abbrev pub shift_rule : Instruction → SimplificationRule
shift_rule op = guarded_rule (op2 op a x) (λ d. value 0) true (λ d. leb 256 (d group_a))

abbrev pub address_mask : ℕ
address_mask = 2 ^ 160 - 1

abbrev pub address_rules : Instruction → Rules
address_rules op =
    rule (op2 Instruction.and (op0 op) (value address_mask)) (op0 op) false
    ∷ rule (op2 Instruction.and (value address_mask) (op0 op)) (op0 op) false
    ∷ []

abbrev pub address_operations : List Instruction
address_operations =
    Instruction.address ∷ Instruction.caller ∷ Instruction.origin ∷ Instruction.coinbase
    ∷ Instruction.create ∷ Instruction.create2 ∷ []

abbrev pub for_each : {A : Type 0} → (A → Rules) → List A → Rules
for_each rules [] = []
for_each rules (i ∷ list) = rules i ++ for_each rules list

abbrev pub simplification_rule_list_part5 : Rules
simplification_rule_list_part5 =
    mod_rules 0 256
    ++ shift_rule Instruction.shl
      ∷ shift_rule Instruction.shr
      ∷ for_each address_rules address_operations

abbrev pub truth_operations : List Instruction
truth_operations =
    Instruction.eq ∷ Instruction.lt ∷ Instruction.slt ∷ Instruction.gt ∷ Instruction.sgt ∷ []

abbrev pub truth_rules : Instruction → Rules
truth_rules op =
    rule (op1 Instruction.iszero (op1 Instruction.iszero (op2 op x y))) (op2 op x y) false ∷ []

abbrev pub simplification_rule_list_part6 : Rules
simplification_rule_list_part6 =
    for_each truth_rules truth_operations
    ++ rule (op1 Instruction.iszero (op1 Instruction.iszero (op1 Instruction.iszero x)))
        (op1 Instruction.iszero x) false
      ∷ rule (op1 Instruction.iszero (op2 Instruction.xor x y)) (op2 Instruction.eq x y) false
      ∷ []
