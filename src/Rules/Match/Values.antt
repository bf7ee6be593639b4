-- ===== src/Rules/Match/Values.antt =====
-- What matches has the value of what it is matched with.
use mathlib.Core.Path.{subst}
use polynomial.Prelude.{
  ℕ, ◌≡◌, refl, sym, ap, ap₂, ◌∙◌, Bool, true, false, not, ◌&&◌, ◌||◌, Option, none, some, List, [],
  ◌∷◌, ◌==◌, ==_iff, if◌then◌else◌, All, arith, Option-cases, inl, inr, false_ne_true, both, map,
  length, get_elem?,
}
use polynomial.Instruction.{Instruction}
use polynomial.Instruction.Info.{instruction_info}
use polynomial.Assembly.Item.{Annotation, AssemblyItem, op, push, located, no_location}
use polynomial.Assembly.Semantic.{is_deterministic}
use polynomial.Rules.{
  Group, group_x, group_y, Pattern, Patterns, anything, constant, value, operation, nil, cons,
}
use polynomial.Rules.Meaning.{
  Machine, meaning, meaning_at, pattern_value, pattern_values, timeless, or_other,
}
use polynomial.Word.{evaluate}
use polynomial.Rules.Match.{
  Expression, Representatives, MatchGroups, lookup_group, Match, fails, throws, found, bind_group,
  after, at_argument, matches, match_arguments, is_push, is_value, is_operation, push_data, count,
}
use polynomial.Rules.Match.Groups.{
  Extends, Extends-refl, Extends-trans, bind_group-found, All-bind_group, found_inj, fails_ne_found,
  throws_ne_found,
}

abbrev pub is_constant_group : Group → Bool
is_constant_group group_x = false
is_constant_group group_y = false
is_constant_group _ = true

abbrev pub is_fixed : Instruction → Bool
is_fixed i = timeless i && is_deterministic (op i (located no_location))

-- A pattern that says all about its expressions: instructions have all their arguments, and their
-- values depend on nothing else.
unfoldable mutual
  unfolding count instruction_info is_deterministic

  pub is_proper : Pattern → Bool
  is_proper (anything g) = not (is_constant_group g)
  is_proper (constant g) = is_constant_group g
  is_proper (value n) = true
  is_proper (operation i ps) =
      is_fixed i && (count ps == (instruction_info i).args && are_proper ps)

  pub are_proper : Patterns → Bool
  are_proper nil = true
  are_proper (cons p ps) = is_proper p && are_proper ps

not_constant : {A : Type 0} (b : Bool) → not b ≡ true → b ≡ true → A
not_constant true h c = false_ne_true h
not_constant false h c = false_ne_true c

-- Inversion of the tests and the sequences of a match.
if_fails :
    (t : Bool) (x : Match) (more : MatchGroups)
    → (if t then x else fails) ≡ found more
    → (t ≡ true) × (x ≡ found more)
if_fails true x more h = (refl, h)
if_fails false x more h = fails_ne_found h

if_throws :
    (t : Bool) (x : Match) (more : MatchGroups)
    → (if t then x else throws) ≡ found more
    → (t ≡ true) × (x ≡ found more)
if_throws true x more h = (refl, h)
if_throws false x more h = throws_ne_found h

argument_found :
    (o : Option Expression) (k : Expression → Match) (more : MatchGroups)
    → at_argument o k ≡ found more
    → (e : Expression) × (o ≡ some e) × (k e ≡ found more)
argument_found none k more h = throws_ne_found h
argument_found (some e) k more h = (e, refl, h)

after_found :
    (x : Match) (k : MatchGroups → Match) (more : MatchGroups)
    → after x k ≡ found more
    → (bound : MatchGroups) × (x ≡ found bound) × (k bound ≡ found more)
after_found fails k more h = fails_ne_found h
after_found throws k more h = throws_ne_found h
after_found (found bound) k more h = (bound, refl, h)

module _ (m : Machine) (values : ℕ → ℕ) where
  -- The time does not matter to an instruction of a pattern.
  timeless-meaning :
      (i : Instruction) (args : List ℕ) (n : ℕ)
      → timeless i ≡ true
      → meaning m i args ≡ meaning_at m i args n
  unfolding meaning meaning_at
  timeless-meaning i args n h = elim (Option-cases (evaluate i args)) [
    | inl e ↦
        ap (λ o. or_other m o i args 0) e
        ∙ sym (m.other_timeless i args n h)
        ∙ sym (ap (λ o. or_other m o i args n) e)
    | inr (v, e) ↦ ap (λ o. or_other m o i args 0) e ∙ sym (ap (λ o. or_other m o i args n) e)
  ]

  abbrev pub DescribesItem : Option AssemblyItem → Expression → Type 0
  DescribesItem (some (push d a)) e = values e.id ≡ d
  DescribesItem (some (op i a)) e =
      (length e.arguments ≡ (instruction_info i).args)
      × (is_deterministic (op i a) ≡ true
          → values e.id ≡ meaning_at m i (map values e.arguments) e.sequence_number)
  DescribesItem _ e = Unit

  -- The class of an expression has the value that its item gives it.
  abbrev pub Describes : Expression → Type 0
  Describes e = DescribesItem e.item e

  -- Every class has the value of its representative.
  abbrev pub Reads : Representatives → Type 0
  Reads representatives =
      (i : ℕ) (e : Expression) → get_elem? representatives i ≡ some e → (e.id ≡ i) × Describes e

  abbrev pub Bound : Group × Expression → Type 0
  Bound (g, e) = Describes e × (is_constant_group g ≡ true → is_push e.item ≡ true)

  abbrev pub group_value : Option Expression → ℕ
  group_value none = 0
  group_value (some e) = values e.id

  abbrev pub group_values : MatchGroups → Group → ℕ
  group_values groups g = group_value (lookup_group groups g)

  pub operation_item :
      (i : Instruction) (o : Option AssemblyItem)
      → is_operation i o ≡ true
      → (a : Annotation) × (o ≡ some (op i a))
  operation_item i none h = false_ne_true h
  operation_item i (some (op j a)) h = (a, ap (λ (k : ℕ). some (op k a)) (sym ((==_iff i j).0 h)))
  operation_item i (some x) h = false_ne_true h

  pub value_item :
      (n : ℕ) (e : Expression) (o : Option AssemblyItem)
      → is_value n o ≡ true
      → DescribesItem o e
      → n ≡ values e.id
  value_item n e none h d = false_ne_true h
  value_item n e (some (push v a)) h d = (==_iff n v).0 h ∙ sym d
  value_item n e (some x) h d = false_ne_true h

  pub push_item :
      (e : Expression) (o : Option AssemblyItem)
      → is_push o ≡ true
      → DescribesItem o e
      → push_data o ≡ values e.id
  push_item e none h d = false_ne_true h
  push_item e (some (push v a)) h d = sym d
  push_item e (some x) h d = false_ne_true h

  -- What a match gives: groups that are bound well, and the value of the pattern.
  abbrev pub Result : MatchGroups → MatchGroups → ((Group → ℕ) → Type 0) → Type 0
  Result groups more Q =
      All Bound more
      × Extends groups more
      × ((final : MatchGroups) → Extends more final → Q (group_values final))

  Bound-value :
      (g : Group) (e : Expression) (groups more : MatchGroups)
      → bind_group g e groups ≡ found more
      → Bound (g, e)
      → All Bound groups
      → Result groups more (λ s. s g ≡ values e.id)
  Bound-value g e groups more h b all =
      let (extends, bound) = bind_group-found g e groups more h in
      (
        All-bind_group Bound g e groups more h b all,
        extends,
        λ final grows.
            let (o, known, ids) = bound in ap group_value (grows g o known) ∙ ap values ids,
      )

  module _ (representatives : Representatives) (reads : Reads representatives) where
    mutual
      unfolding matches pattern_value is_proper is_deterministic

      pub matches-value :
          (p : Pattern) (e : Expression) (groups more : MatchGroups)
          → is_proper p ≡ true
          → Describes e
          → All Bound groups
          → matches representatives p e groups ≡ found more
          → Result groups more (λ s. pattern_value m s p ≡ values e.id)
      matches-value (anything g) e groups more proper d all h =
          Bound-value g e groups more h (d, λ c. not_constant (is_constant_group g) proper c) all
      matches-value (constant g) e groups more proper d all h =
          let (pushed, bind) = if_fails (is_push e.item) (bind_group g e groups) more h in
          Bound-value g e groups more bind (d, λ c. pushed) all
      matches-value (value n) e groups more proper d all h =
          let (equal, same) = if_fails (is_value n e.item) (found groups) more h in
          let grown = found_inj same in
          (
            subst (All Bound) grown all,
            subst (Extends groups) grown (Extends-refl groups),
            λ final grows. value_item n e e.item equal d,
          )
      matches-value (operation i ps) e groups more proper d all h =
          let (fixed, rest) = both proper in
          let (counted, args) = both rest in
          let (timely, steady) = both fixed in
          let arity = (==_iff (count ps) (instruction_info i).args).0 counted in
          let (same, h₁) =
            if_fails (is_operation i e.item)
              (if count ps == 0 || length e.arguments == count ps
                then match_arguments representatives ps e.arguments groups
                else throws)
              more h in
          let (a, item) = operation_item i e.item same in
          let (long, described) = subst (λ (o : Option AssemblyItem). DescribesItem o e) item d in
          let (_, h₂) =
            if_throws (count ps == 0 || length e.arguments == count ps)
              (match_arguments representatives ps e.arguments groups) more h₁ in
          let (all', extends, gives) =
            match_arguments-value ps e.arguments groups more args (arity ∙ sym long) all h₂ in
          (
            all',
            extends,
            λ final grows.
                ap (meaning m i) (gives final grows)
                ∙ timeless-meaning i (map values e.arguments) e.sequence_number timely
                ∙ sym (described steady),
          )

      match_arguments-value :
          (ps : Patterns) (ids : List ℕ) (groups more : MatchGroups)
          → are_proper ps ≡ true
          → count ps ≡ length ids
          → All Bound groups
          → match_arguments representatives ps ids groups ≡ found more
          → Result groups more (λ s. pattern_values m s ps ≡ map values ids)
      match_arguments-value nil [] groups more proper n all h =
          let grown = found_inj h in
          (
            subst (All Bound) grown all,
            subst (Extends groups) grown (Extends-refl groups),
            λ final grows. refl,
          )
      match_arguments-value nil (i ∷ ids) groups more proper n all h = absurd (omega arith)
      match_arguments-value (cons p ps) [] groups more proper n all h = absurd (omega arith)
      match_arguments-value (cons p ps) (i ∷ ids) groups more proper n all h =
          let (one, others) = both proper in
          let (e, here, h₁) =
            argument_found (get_elem? representatives i)
              (λ x.
                after (matches representatives p x groups)
                  (λ bound. match_arguments representatives ps ids bound))
              more h in
          let (bound, first, h₂) =
            after_found (matches representatives p e groups)
              (λ bound. match_arguments representatives ps ids bound) more h₁ in
          let (id, described) = reads i e here in
          let (all', extends, gives) = matches-value p e groups bound one described all first in
          let (all'', extends', gives') =
            match_arguments-value ps ids bound more others (omega arith) all' h₂ in
          (
            all'',
            Extends-trans groups bound more extends extends',
            λ final grows.
                ap₂ (λ (v : ℕ) (vs : List ℕ). v ∷ vs)
                  (gives final (Extends-trans bound more final extends' grows) ∙ ap values id)
                  (gives' final grows),
          )
