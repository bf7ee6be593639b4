-- ===== src/Rules/Match/Known.antt =====
-- What the expression classes know of a class without building an expression, `knownConstant` and
-- `knownZero` of libsvmasm/ExpressionClasses.cpp. The outer `none` is an identifier that is out of
-- range.
use polynomial.Prelude.{
  ℕ, ◌≡◌, sym, ap, ◌∙◌, Bool, true, false, Option, none, some, [], Bool-cases, Option-cases, inl,
  inr, none_ne_some, some_inj, false_ne_true, get_elem?,
}
use polynomial.Rules.{group_a, constant, value}
use polynomial.Rules.Meaning.{Machine}
use polynomial.Rules.Match.{
  Expression, Representatives, Match, fails, throws, found, matches, matched_data, lookup_group,
  is_push, is_value, push_data,
}
use polynomial.Rules.Match.Values.{Reads, push_item, value_item}

abbrev known_data : Match → Option (Option ℕ)
known_data fails = some none
known_data throws = none
known_data (found groups) = some (some (matched_data groups group_a))

abbrev constant_of : Representatives → Option Expression → Option (Option ℕ)
constant_of representatives none = none
constant_of representatives (some e) = known_data (matches representatives (constant group_a) e [])

-- `knownConstant`: the pattern of any constant is matched with the representative.
unfoldable pub known_constant : Representatives → ℕ → Option (Option ℕ)
unfolding matches lookup_group
known_constant representatives c = constant_of representatives (get_elem? representatives c)

abbrev is_match : Match → Option Bool
is_match fails = some false
is_match throws = none
is_match (found groups) = some true

abbrev zero_of : Representatives → Option Expression → Option Bool
zero_of representatives none = none
zero_of representatives (some e) = is_match (matches representatives (value 0) e [])

-- `knownZero`.
unfoldable pub known_zero : Representatives → ℕ → Option Bool
unfolding matches
known_zero representatives c = zero_of representatives (get_elem? representatives c)

constant-pushed :
    (representatives : Representatives) (e : Expression) (v : ℕ)
    → constant_of representatives (some e) ≡ some (some v)
    → (is_push e.item ≡ true) × (push_data e.item ≡ v)
unfolding matches lookup_group
constant-pushed representatives e v h = elim (Bool-cases (is_push e.item)) [
  | inl pushed ↦ (pushed, some_inj (some_inj (sym (rw pushed) ∙ h)))
  | inr other ↦ none_ne_some (some_inj (sym (rw other) ∙ h))
]

zero-pushed :
    (representatives : Representatives) (e : Expression)
    → zero_of representatives (some e) ≡ some true
    → is_value 0 e.item ≡ true
unfolding matches
zero-pushed representatives e h = elim (Bool-cases (is_value 0 e.item)) [
  | inl pushed ↦ pushed
  | inr other ↦ false_ne_true (some_inj (sym (rw other) ∙ h))
]

module _ (m : Machine) (values : ℕ → ℕ) (representatives : Representatives)
    (reads : Reads m values representatives) where
  known_constant-value : (c v : ℕ) → known_constant representatives c ≡ some (some v) → values c ≡ v
  unfolding known_constant
  known_constant-value c v h = elim (Option-cases (get_elem? representatives c)) [
    | inl missing ↦ none_ne_some (sym (rw missing) ∙ h)
    | inr (e, here) ↦
        let (id, described) = reads c e here in
        let (pushed, same) = constant-pushed representatives e v (sym (rw here) ∙ h) in
        ap values (sym id) ∙ sym (push_item m values e e.item pushed described) ∙ same
  ]

  known_zero-value : (c : ℕ) → known_zero representatives c ≡ some true → values c ≡ 0
  unfolding known_zero
  known_zero-value c h = elim (Option-cases (get_elem? representatives c)) [
    | inl missing ↦ none_ne_some (sym (rw missing) ∙ h)
    | inr (e, here) ↦
        let (id, described) = reads c e here in
        let pushed = zero-pushed representatives e (sym (rw here) ∙ h) in
        ap values (sym id) ∙ sym (value_item m values 0 e e.item pushed described)
  ]

-- Where each class has the value of its representative, a constant that `knownConstant` gives for a
-- class is the value of the class, and the value of a class of which `knownZero` holds is zero.
pub known_classes :
    (m : Machine) (values : ℕ → ℕ) (representatives : Representatives)
    → Reads m values representatives
    → (c : ℕ)
    → ((v : ℕ) → known_constant representatives c ≡ some (some v) → values c ≡ v)
      × (known_zero representatives c ≡ some true → values c ≡ 0)
known_classes m values representatives reads c = (
  λ v h. known_constant-value m values representatives reads c v h,
  λ h. known_zero-value m values representatives reads c h,
)
