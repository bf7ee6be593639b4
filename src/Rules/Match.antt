-- ===== src/Rules/Match.antt =====
-- Matching an expression against the rules, libsvmasm/SimplificationRules.cpp, over the expressions
-- of libsvmasm/ExpressionClasses.h. `throws` is an OptimizerException or an identifier out of range.
pub mod Groups
pub mod Values
pub mod Known
pub mod Try
pub mod First
use polynomial.Prelude.{
  ℕ, zero, suc, Bool, true, false, ◌||◌, Option, none, some, List, [], ◌∷◌, ◌==◌, if◌then◌else◌,
  length, get_elem?,
}
use polynomial.Instruction.{Instruction}
use polynomial.Assembly.Item.{AssemblyItem, op, push}
use polynomial.Rules.Meaning.{constants}
use polynomial.Rules.{
  Group, group_a, group_b, group_c, group_x, group_y, Pattern, Patterns, anything, constant, value,
  operation, nil, cons, SimplificationRule, Rules,
}

-- An expression names its arguments by the identifiers of their classes.
pub record Expression : Type 0 where
  pub id : ℕ
  pub item : Option AssemblyItem
  pub arguments : List ℕ
  pub sequence_number : ℕ

abbrev pub Representatives : Type 0
Representatives = List Expression

-- The numbers that the constructor of `Rules` gives to the groups.
abbrev pub group_number : Group → ℕ
group_number group_a = 1
group_number group_b = 2
group_number group_c = 3
group_number group_x = 4
group_number group_y = 5

abbrev pub MatchGroups : Type 0
MatchGroups = List (Group × Expression)

unfoldable pub lookup_group : MatchGroups → Group → Option Expression
lookup_group [] g = none
lookup_group ((h, e) ∷ groups) g =
    if group_number h == group_number g then some e else lookup_group groups g

pub data Match : Type 0 where
  fails : Match
  throws : Match
  found : MatchGroups → Match

abbrev pub after : Match → (MatchGroups → Match) → Match
after fails k = fails
after throws k = throws
after (found groups) k = k groups

abbrev pub checked_group : Option Expression → Group → Expression → MatchGroups → Match
checked_group none g e groups = found ((g, e) ∷ groups)
checked_group (some old) g e groups = if old.id == e.id then found groups else fails

-- The first occurrence of a match group binds it, and later ones compare identifiers.
abbrev pub bind_group : Group → Expression → MatchGroups → Match
bind_group g e groups = checked_group (lookup_group groups g) g e groups

-- `matchesBaseItem` for the three kinds of pattern that ask for an item.
abbrev pub is_push : Option AssemblyItem → Bool
is_push (some (push d _)) = true
is_push _ = false

abbrev pub is_value : ℕ → Option AssemblyItem → Bool
is_value n (some (push d _)) = n == d
is_value n _ = false

abbrev pub is_operation : Instruction → Option AssemblyItem → Bool
is_operation i (some (op j _)) = i == j
is_operation i _ = false

unfoldable pub count : Patterns → ℕ
count nil = 0
count (cons p ps) = suc (count ps)

abbrev pub at_argument : Option Expression → (Expression → Match) → Match
at_argument none k = throws
at_argument (some e) k = k e

module _ (representatives : Representatives) where
  unfoldable mutual
    unfolding lookup_group count

    pub matches : Pattern → Expression → MatchGroups → Match
    matches (anything g) e groups = bind_group g e groups
    matches (constant g) e groups = if is_push e.item then bind_group g e groups else fails
    matches (value n) e groups = if is_value n e.item then found groups else fails
    matches (operation i ps) e groups =
        if is_operation i e.item
        then (if count ps == 0 || length e.arguments == count ps
            then match_arguments ps e.arguments groups
            else throws)
        else fails

    pub match_arguments : Patterns → List ℕ → MatchGroups → Match
    match_arguments nil ids groups = found groups
    match_arguments (cons p ps) [] groups = throws
    match_arguments (cons p ps) (i ∷ ids) groups =
        at_argument (get_elem? representatives i)
          (λ e. after (matches p e groups) (λ bound. match_arguments ps ids bound))

-- `d` of the pattern of a group, which the rules ask of the constants only.
abbrev pub push_data : Option AssemblyItem → ℕ
push_data (some (push d _)) = d
push_data _ = 0

abbrev pub expression_data : Option Expression → ℕ
expression_data none = 0
expression_data (some e) = push_data e.item

abbrev pub matched_data : MatchGroups → Group → ℕ
matched_data groups = constants (λ g. expression_data (lookup_group groups g))

abbrev pub pattern_instruction : Pattern → Option Instruction
pattern_instruction (operation i ps) = some i
pattern_instruction _ = none

-- `m_rules[i]`: the rules whose pattern is for this instruction, in the order of the list.
abbrev pub is_for : Option Instruction → Instruction → Bool
is_for none i = false
is_for (some j) i = i == j

unfoldable pub rules_for : Instruction → Rules → Rules
rules_for i [] = []
rules_for i (r ∷ rules) =
    if is_for (pattern_instruction r.pattern) i then r ∷ rules_for i rules else rules_for i rules

pub data FirstMatch : Type 0 where
  no_match : FirstMatch
  match_throws : FirstMatch
  first_match : SimplificationRule → MatchGroups → FirstMatch

-- One rule, and what happens where it does not apply.
abbrev pub tried : Match → SimplificationRule → FirstMatch → FirstMatch
tried fails r rest = rest
tried throws r rest = match_throws
tried (found groups) r rest =
    if r.feasible (matched_data groups) then first_match r groups else rest

unfoldable pub first_of : Representatives → Rules → Expression → FirstMatch
unfolding matches
first_of representatives [] e = no_match
first_of representatives (r ∷ rules) e =
    tried (matches representatives r.pattern e []) r (first_of representatives rules e)

abbrev pub find_for : Representatives → Rules → Expression → Option AssemblyItem → FirstMatch
find_for representatives rules e (some (op i _)) = first_of representatives (rules_for i rules) e
find_for representatives rules e _ = match_throws

-- `Rules::findFirstMatch` on a list of rules.
unfoldable pub find_first_match : Representatives → Rules → Expression → FirstMatch
unfolding first_of rules_for
find_first_match representatives rules e = find_for representatives rules e e.item
