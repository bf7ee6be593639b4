-- ===== src/Rules.antt =====
-- The simplification rules of the optimiser: the patterns of libsvmasm/SimplificationRules.h, the
-- rule of libsvmasm/SimplificationRule.h, and the list of libsvmasm/RuleList.h in eight parts.
pub mod Part1
pub mod Part2
pub mod Part3
pub mod Part4
pub mod Part5
pub mod Part7
pub mod Meaning
pub mod Sound
pub mod Complete
pub mod Match
mod Tests
use polynomial.Prelude.{ℕ, Bool, true, false, List, [], ◌∷◌, ◌++◌}
use polynomial.Instruction.{Instruction}

-- The match groups: `a`, `b` and `c` stand for constants, `x` and `y` for anything.
pub data Group : Type 0 where
  group_a group_b group_c group_x group_y : Group

-- A pattern of the rule list is one of the five with a match group, a value, or an instruction on
-- patterns. `anything` has the type UndefinedItem, and `constant` the type Push.
mutual
  pub data Pattern : Type 0 where
    anything : Group → Pattern
    constant : Group → Pattern
    value : ℕ → Pattern
    operation : ℕ → Patterns → Pattern

  pub data Patterns : Type 0 where
    nil : Patterns
    cons : Pattern → Patterns → Patterns

abbrev pub a : Pattern
a = constant group_a

abbrev pub b : Pattern
b = constant group_b

abbrev pub c : Pattern
c = constant group_c

abbrev pub x : Pattern
x = anything group_x

abbrev pub y : Pattern
y = anything group_y

abbrev pub op0 : Instruction → Pattern
op0 i = operation i nil

abbrev pub op1 : Instruction → Pattern → Pattern
op1 i p = operation i (cons p nil)

abbrev pub op2 : Instruction → Pattern → Pattern → Pattern
op2 i p q = operation i (cons p (cons q nil))

abbrev pub op3 : Instruction → Pattern → Pattern → Pattern → Pattern
op3 i p q r = operation i (cons p (cons q (cons r nil)))

-- The action and the test of a rule read the data of the constants that were matched.
pub record SimplificationRule : Type 0 where
  pub pattern : Pattern
  pub action : (Group → ℕ) → Pattern
  pub removes_non_constants : Bool
  pub feasible : (Group → ℕ) → Bool

abbrev pub Rules : Type 0
Rules = List SimplificationRule

-- A rule without a test, whose action reads no constant.
abbrev pub rule : Pattern → Pattern → Bool → SimplificationRule
rule p q removes = record {
  pattern = p;
  action = λ d. q;
  removes_non_constants = removes;
  feasible = λ d. true;
}

-- A rule without a test.
abbrev pub computed : Pattern → ((Group → ℕ) → Pattern) → Bool → SimplificationRule
computed p action removes = record {
  pattern = p;
  action = action;
  removes_non_constants = removes;
  feasible = λ d. true;
}

abbrev pub guarded_rule :
    Pattern → ((Group → ℕ) → Pattern) → Bool → ((Group → ℕ) → Bool) → SimplificationRule
guarded_rule p action removes feasible = record {
  pattern = p;
  action = action;
  removes_non_constants = removes;
  feasible = feasible;
}
