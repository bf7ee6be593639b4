-- ===== src/Rules/Tests.antt =====
-- The theorems on the rules at a concrete machine, and a run of the matcher.
use polynomial.Prelude.{
  ℕ, true, false, ◌≡◌, refl, some, [], ◌∷◌, arith, zero, suc, none_ne_some, some_inj,
}
use polynomial.Instruction
use polynomial.Word.{IsWord, evaluate, operator_at}
use polynomial.Word
use polynomial.Assembly.Semantic.{is_deterministic}
use polynomial.Instruction.Info.{instruction_info}
use mathlib.Core.Path.{subst}
use polynomial.Assembly.Item.{op, push, located, no_location}
use polynomial.Rules.{x, op2, rule, value, group_x}
use polynomial.Rules.Meaning.{Machine, IsChecked, pattern_value, meaning_at}
use polynomial.Rules.Complete.{simplification_rule_list, simplification_rule_list-IsChecked}
use polynomial.Rules.Match.{Expression, Representatives, first_match, find_first_match}
use polynomial.Rules.Match.Values.{is_proper, Describes, Reads, group_values}
use polynomial.Rules.Match.Known.{known_constant, known_zero, known_classes}
use polynomial.Rules.Match.First.{find_first_match-Keeps}

-- A machine where what the words do not say is 7.
abbrev seven : Machine
seven = record {
  other = λ i args n. 7;
  other_word = λ i args n. omega arith;
  other_address = λ i args n h. omega arith;
  other_timeless = λ i args n h. refl;
}

simplification_rule_list-IsChecked_example : IsChecked seven simplification_rule_list
simplification_rule_list-IsChecked_example = simplification_rule_list-IsChecked seven

-- The sum of zero and the caller.
abbrev zero_class : Expression
zero_class = record {
  id = 0;
  item = some (push 0 (located no_location));
  arguments = [];
  sequence_number = 0;
}

abbrev caller_class : Expression
caller_class = record {
  id = 1;
  item = some (op Instruction.caller (located no_location));
  arguments = [];
  sequence_number = 0;
}

abbrev sum : Expression
sum = record {
  id = 2;
  item = some (op Instruction.add (located no_location));
  arguments = 1 ∷ 0 ∷ [];
  sequence_number = 0;
}

abbrev classes : Representatives
classes = zero_class ∷ caller_class ∷ []

abbrev class_values : ℕ → ℕ
class_values zero = 0
class_values (suc n) = 7

class_values-IsWord : (i : ℕ) → IsWord (class_values i)
class_values-IsWord zero = omega arith
class_values-IsWord (suc n) = omega arith

sum-first :
    find_first_match classes simplification_rule_list sum
    ≡ first_match (rule (op2 Instruction.add x (value 0)) x false) ((group_x, caller_class) ∷ [])
unfolding find_first_match
sum-first = refl

classes-Reads : Reads seven class_values classes
unfolding meaning_at evaluate is_deterministic instruction_info
classes-Reads zero e h =
    subst (λ (e : Expression). (e.id ≡ 0) × Describes seven class_values e) (some_inj h)
      (refl, refl)
classes-Reads (suc zero) e h =
    subst (λ (e : Expression). (e.id ≡ 1) × Describes seven class_values e) (some_inj h)
      (refl, (refl, λ d. refl))
classes-Reads (suc (suc n)) e h = none_ne_some h

sum-Describes : Describes seven class_values sum
unfolding meaning_at evaluate is_deterministic instruction_info Word.add
sum-Describes = (refl, λ d. refl)

find_first_match-Keeps_example :
    pattern_value seven (group_values seven class_values ((group_x, caller_class) ∷ [])) x
    ≡ class_values 2
unfolding is_proper operator_at
find_first_match-Keeps_example =
    find_first_match-Keeps seven class_values class_values-IsWord classes classes-Reads sum
      sum-Describes (rule (op2 Instruction.add x (value 0)) x false) ((group_x, caller_class) ∷ [])
      refl sum-first

known_classes_example :
    ((v : ℕ) → known_constant classes 0 ≡ some (some v) → class_values 0 ≡ v)
    × (known_zero classes 0 ≡ some true → class_values 0 ≡ 0)
known_classes_example = known_classes seven class_values classes classes-Reads 0

zero_class-known : known_constant classes 0 ≡ some (some 0)
unfolding known_constant
zero_class-known = refl
