-- ===== src/Rules/Match/Try.antt =====
-- One rule after the other: a match with a sound rule keeps the value of the expression.
use mathlib.Core.Path.{subst, fun_ext}
use polynomial.Prelude.{
  ℕ, ◌≡◌, refl, sym, ap, ◌∙◌, true, Option, none, some, [], All, arith, Bool-cases, Option-cases,
  inl, inr, ◌⊎◌,
}
use polynomial.Word.{IsWord}
use polynomial.Rules.{Group, group_a, group_b, group_c, group_x, group_y, SimplificationRule, Rules}
use polynomial.Rules.Meaning.{
  Machine, pattern_value, constants, IsSound, IsChecked, checked_end, ◌▸◌, shadowed,
}
use polynomial.Rules.Match.{
  Expression, Representatives, MatchGroups, lookup_group, Match, fails, throws, found, matches,
  expression_data, matched_data, FirstMatch, no_match, match_throws, first_match, tried, first_of,
}
use polynomial.Rules.Match.Groups.{Extends-refl, All-lookup_group}
use polynomial.Rules.Match.Values.{
  is_proper, is_constant_group, Describes, Reads, Bound, group_value, group_values, push_item,
  matches-value,
}

no_match_ne :
    {A : Type 0} {r : SimplificationRule} {g : MatchGroups} → no_match ≡ first_match r g → A
no_match_ne h = cc

pub match_throws_ne :
    {A : Type 0} {r : SimplificationRule} {g : MatchGroups} → match_throws ≡ first_match r g → A
match_throws_ne h = cc

first_rule :
    {r s : SimplificationRule} {g h : MatchGroups} → first_match r g ≡ first_match s h → r ≡ s
first_rule h = cc

first_groups :
    {r s : SimplificationRule} {g h : MatchGroups} → first_match r g ≡ first_match s h → g ≡ h
first_groups h = cc

Match-cases : (x : Match) → (x ≡ fails) ⊎ ((x ≡ throws) ⊎ ((g : MatchGroups) × (x ≡ found g)))
Match-cases fails = inl refl
Match-cases throws = inr (inl refl)
Match-cases (found g) = inr (inr (g, refl))

module _ (m : Machine) (values : ℕ → ℕ) (words : (i : ℕ) → IsWord (values i)) where
  -- The data of the constants are their values.
  constant_data :
      (groups : MatchGroups) (g : Group)
      → is_constant_group g ≡ true
      → All (Bound m values) groups
      → expression_data (lookup_group groups g) ≡ group_values m values groups g
  constant_data groups g fixed all = elim (Option-cases (lookup_group groups g)) [
    | inl free ↦ rw free refl
    | inr (e, known) ↦
        let (described, pushed) = All-lookup_group (Bound m values) groups g e all known in
        rw known (push_item m values e e.item (pushed fixed) described)
  ]

  matched_data-eq :
      (groups : MatchGroups) (g : Group)
      → All (Bound m values) groups
      → matched_data groups g ≡ constants (group_values m values groups) g
  matched_data-eq groups group_a all = constant_data groups group_a refl all
  matched_data-eq groups group_b all = constant_data groups group_b refl all
  matched_data-eq groups group_c all = constant_data groups group_c refl all
  matched_data-eq groups group_x all = refl
  matched_data-eq groups group_y all = refl

  group_value-IsWord : (o : Option Expression) → IsWord (group_value m values o)
  group_value-IsWord none = omega arith
  group_value-IsWord (some e) = words e.id

  module _ (representatives : Representatives) (reads : Reads m values representatives)
      (e : Expression) (described : Describes m values e) where
    -- What a match with a sound rule gives.
    abbrev pub Keeps : SimplificationRule → MatchGroups → Type 0
    Keeps r groups =
        pattern_value m (group_values m values groups) (r.action (matched_data groups))
        ≡ values e.id

    Keeps-same :
        (r r' : SimplificationRule) (g g' : MatchGroups)
        → first_match r g ≡ first_match r' g'
        → Keeps r g
        → Keeps r' g'
    Keeps-same r r' g g' h kept =
        subst (λ (x : SimplificationRule). Keeps x g') (first_rule h)
          (subst (λ (x : MatchGroups). Keeps r x) (first_groups h) kept)

    sound_match :
        (r : SimplificationRule) (groups : MatchGroups)
        → IsSound m r
        → is_proper r.pattern ≡ true
        → matches representatives r.pattern e [] ≡ found groups
        → r.feasible (matched_data groups) ≡ true
        → Keeps r groups
    sound_match r groups sound proper h test =
        let (all, _, gives) =
          matches-value m values representatives reads r.pattern e [] groups proper described tt
            h in
        let same : (matched_data groups ≡ constants (group_values m values groups)) =
          fun_ext (λ g. matched_data-eq groups g all) in
        rw same (
          sym (
            sound (group_values m values groups) (λ g. group_value-IsWord (lookup_group groups g))
              (ap r.feasible (sym same) ∙ test))
          ∙ gives groups (Extends-refl groups))

    sound_try :
        (r r' : SimplificationRule) (groups : MatchGroups) (rest : FirstMatch)
        → IsSound m r
        → is_proper r'.pattern ≡ true
        → tried (matches representatives r.pattern e []) r rest ≡ first_match r' groups
        → (rest ≡ first_match r' groups → Keeps r' groups)
        → Keeps r' groups
    sound_try r r' groups rest sound proper h later =
        elim (Match-cases (matches representatives r.pattern e [])) [
          | inl e₁ ↦ later (ap (λ x. tried x r rest) (sym e₁) ∙ h)
          | inr (inl e₂) ↦ match_throws_ne (ap (λ x. tried x r rest) (sym e₂) ∙ h)
          | inr (inr (g, e₃)) ↦
              let h₁ = ap (λ x. tried x r rest) (sym e₃) ∙ h in
              elim (Bool-cases (r.feasible (matched_data g))) [
                | inl yes_test ↦
                    let h₂ = sym (rw yes_test) ∙ h₁ in
                    Keeps-same r r' g groups h₂ (
                      sound_match r g sound
                        (ap (λ (x : SimplificationRule). is_proper x.pattern) (first_rule h₂)
                          ∙ proper)
                        e₃ yes_test)
                | inr no_test ↦ later (sym (rw no_test) ∙ h₁)
              ]
        ]

    dead_rest :
        (r dead : SimplificationRule) (rest result : FirstMatch)
        → dead.pattern ≡ r.pattern
        → ((d : Group → ℕ) → r.feasible d ≡ true)
        → tried
            (matches representatives r.pattern e [])
            r
            (tried (matches representatives dead.pattern e []) dead rest)
          ≡ tried (matches representatives r.pattern e []) r rest
    dead_rest r dead rest result same always =
        elim (Match-cases (matches representatives r.pattern e [])) [
          | inl e₁ ↦ rw same (rw e₁ refl)
          | inr (inl e₂) ↦ rw e₂ refl
          | inr (inr (g, e₃)) ↦ rw e₃ (rw (always (matched_data g)) refl)
        ]

    pub first_of-Keeps :
        {rules : Rules} (r : SimplificationRule) (groups : MatchGroups)
        → IsChecked m rules
        → is_proper r.pattern ≡ true
        → first_of representatives rules e ≡ first_match r groups
        → Keeps r groups
    unfolding first_of
    first_of-Keeps r groups checked_end proper h = no_match_ne h
    first_of-Keeps r groups (◌▸◌ {r = s} {rest = rest} sound more) proper h =
        sound_try s r groups (first_of representatives rest e) sound proper h
          (λ h'. first_of-Keeps r groups more proper h')
    first_of-Keeps r groups (shadowed {r = s} {dead = dead} {rest = rest} sound same always more)
          proper h =
        sound_try s r groups (first_of representatives rest e) sound proper
          (sym (
              dead_rest s dead (first_of representatives rest e) (first_match r groups) same always)
            ∙ h)
          (λ h'. first_of-Keeps r groups more proper h')
