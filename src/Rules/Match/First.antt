-- ===== src/Rules/Match/First.antt =====
-- The first rule that matches an expression makes a pattern of the same value of it.
use polynomial.Prelude.{
  ℕ, ◌≡◌, sym, ap, Bool, true, false, Option, none, some, ◌∷◌, if◌then◌else◌, false_ne_true,
}
use polynomial.Instruction.{Instruction}
use polynomial.Word.{IsWord}
use polynomial.Assembly.Item.{AssemblyItem, op}
use polynomial.Rules.{Group, SimplificationRule, Rules}
use polynomial.Rules.Meaning.{
  Machine, pattern_value, IsSound, IsChecked, checked_end, ◌▸◌, shadowed,
}
use polynomial.Rules.Complete.{simplification_rule_list, simplification_rule_list-IsChecked}
use polynomial.Rules.Match.{
  Expression, Representatives, MatchGroups, matched_data, rules_for, is_for, pattern_instruction,
  first_match, find_for, find_first_match,
}
use polynomial.Rules.Match.Values.{is_proper, Describes, Reads, group_values}
use polynomial.Rules.Match.Try.{match_throws_ne, Keeps, first_of-Keeps}

-- The rules for one instruction are checked as the list is.
keep_one :
    {m : Machine} (t : Bool) (r : SimplificationRule) {rest : Rules}
    → IsSound m r
    → IsChecked m rest
    → IsChecked m (if t then r ∷ rest else rest)
keep_one true r sound more = sound ▸ more
keep_one false r sound more = more

keep_two :
    {m : Machine} (t t' : Bool) (r dead : SimplificationRule) {rest : Rules}
    → t' ≡ t
    → IsSound m r
    → dead.pattern ≡ r.pattern
    → ((d : Group → ℕ) → r.feasible d ≡ true)
    → IsChecked m rest
    → IsChecked m
        (if t then r ∷ (if t' then dead ∷ rest else rest) else (if t' then dead ∷ rest else rest))
keep_two true true r dead e sound same always more = shadowed sound same always more
keep_two true false r dead e sound same always more = false_ne_true e
keep_two false true r dead e sound same always more = false_ne_true (sym e)
keep_two false false r dead e sound same always more = more

IsChecked-rules_for :
    {m : Machine} {rules : Rules} (i : Instruction)
    → IsChecked m rules
    → IsChecked m (rules_for i rules)
unfolding rules_for
IsChecked-rules_for i checked_end = checked_end
IsChecked-rules_for i (◌▸◌ {r = r} sound more) =
    keep_one (is_for (pattern_instruction r.pattern) i) r sound (IsChecked-rules_for i more)
IsChecked-rules_for i (shadowed {r = r} {dead = dead} sound same always more) =
    keep_two (is_for (pattern_instruction r.pattern) i)
      (is_for (pattern_instruction dead.pattern) i) r dead
      (ap (λ p. is_for (pattern_instruction p) i) same) sound same always
      (IsChecked-rules_for i more)

find_for-Keeps :
    (m : Machine) (values : ℕ → ℕ) (words : (i : ℕ) → IsWord (values i))
    (representatives : Representatives) (reads : Reads m values representatives) (rules : Rules)
    (e : Expression) (o : Option AssemblyItem) (described : Describes m values e)
    (r : SimplificationRule) (groups : MatchGroups)
    → IsChecked m rules
    → is_proper r.pattern ≡ true
    → find_for representatives rules e o ≡ first_match r groups
    → Keeps m values words representatives reads e described r groups
find_for-Keeps m values words representatives reads rules e none described r groups checked proper
      h =
    match_throws_ne h
find_for-Keeps m values words representatives reads rules e (some (op i a)) described r groups
      checked proper h =
    first_of-Keeps m values words representatives reads e described r groups
      (IsChecked-rules_for i checked) proper h
find_for-Keeps m values words representatives reads rules e (some x) described r groups checked
      proper h =
    match_throws_ne h

-- Where the values of the classes are words and each class has the value of its representative, and
-- `find_first_match` finds a rule of the whole list for an expression whose item describes its
-- value, then the pattern that the action of the rule makes of the matched constants, read with the
-- values of the classes that its groups were bound to, has the value of the expression. The
-- condition on the pattern of the rule is that its instructions have all their arguments and that
-- their values are fixed by them.
pub find_first_match-Keeps :
    (m : Machine) (values : ℕ → ℕ) (words : (i : ℕ) → IsWord (values i))
    (representatives : Representatives) (reads : Reads m values representatives) (e : Expression)
    (described : Describes m values e) (r : SimplificationRule) (groups : MatchGroups)
    (proper : is_proper r.pattern ≡ true)
    → find_first_match representatives simplification_rule_list e ≡ first_match r groups
    → pattern_value m (group_values m values groups) (r.action (matched_data groups)) ≡ values e.id
unfolding find_first_match
find_first_match-Keeps m values words representatives reads e described r groups proper h =
    find_for-Keeps m values words representatives reads simplification_rule_list e e.item described
      r groups (simplification_rule_list-IsChecked m) proper h
