-- ===== src/Rules/Match/Groups.antt =====
-- Match groups that grow, and their values.
use mathlib.Core.Path.{subst}
use polynomial.Prelude.{
  ==_refl, ℕ, ◌≡◌, refl, sym, ap, ◌∙◌, true, none, some, [], ◌∷◌, ◌==◌, ==_iff, if◌then◌else◌, All,
  Bool-cases, Option-cases, inl, inr, none_ne_some, some_inj,
}
use polynomial.Rules.{Group, group_a, group_b, group_c, group_x, group_y}
use polynomial.Rules.Match.{
  Expression, MatchGroups, lookup_group, group_number, fails, throws, found, bind_group,
  checked_group,
}

-- Whatever is bound stays bound.
abbrev pub Extends : MatchGroups → MatchGroups → Type 0
Extends groups more =
    (g : Group) (e : Expression) → lookup_group groups g ≡ some e → lookup_group more g ≡ some e

pub Extends-refl : (groups : MatchGroups) → Extends groups groups
Extends-refl groups g e h = h

pub Extends-trans : (p q r : MatchGroups) → Extends p q → Extends q r → Extends p r
Extends-trans p q r pq qr g e h = qr g e (pq g e h)

numbered : ℕ → Group
numbered n =
    if n == 1
    then group_a
    else if n == 2
    then group_b
    else if n == 3
    then group_c
    else if n == 4
    then group_x
    else group_y

numbered-group_number : (g : Group) → numbered (group_number g) ≡ g
unfolding numbered
numbered-group_number group_a = refl
numbered-group_number group_b = refl
numbered-group_number group_c = refl
numbered-group_number group_x = refl
numbered-group_number group_y = refl

same_group : (g h : Group) → (group_number g == group_number h) ≡ true → g ≡ h
same_group g h e =
    sym (numbered-group_number g)
    ∙ ap numbered ((==_iff (group_number g) (group_number h)).0 e)
    ∙ numbered-group_number h

pub found_inj : {p q : MatchGroups} → found p ≡ found q → p ≡ q
found_inj h = cc

pub fails_ne_found : {A : Type 0} {p : MatchGroups} → fails ≡ found p → A
fails_ne_found h = cc

pub throws_ne_found : {A : Type 0} {p : MatchGroups} → throws ≡ found p → A
throws_ne_found h = cc

-- A new group does not hide the others.
Extends-bound :
    (groups : MatchGroups) (g : Group) (e : Expression)
    → lookup_group groups g ≡ none
    → Extends groups ((g, e) ∷ groups)
unfolding lookup_group
Extends-bound groups g e free h x known = elim (Bool-cases (group_number g == group_number h)) [
  | inl same ↦ none_ne_some (sym free ∙ ap (lookup_group groups) (same_group g h same) ∙ known)
  | inr other ↦ rw other known
]

lookup_bound :
    (groups : MatchGroups) (g : Group) (e : Expression) → lookup_group ((g, e) ∷ groups) g ≡ some e
unfolding lookup_group
lookup_bound groups g e = rw (==_refl (group_number g)) refl

checked_group-known :
    (old e : Expression) (groups more : MatchGroups)
    → (if old.id == e.id then found groups else fails) ≡ found more
    → (old.id ≡ e.id) × (groups ≡ more)
checked_group-known old e groups more h = elim (Bool-cases (old.id == e.id)) [
  | inl same ↦ ((==_iff old.id e.id).0 same, found_inj (sym (rw same) ∙ h))
  | inr other ↦ fails_ne_found (sym (rw other) ∙ h)
]

-- Binding a group: it has an expression of the same class afterwards.
pub bind_group-found :
    (g : Group) (e : Expression) (groups more : MatchGroups)
    → bind_group g e groups ≡ found more
    → Extends groups more × ((o : Expression) × (lookup_group more g ≡ some o) × (o.id ≡ e.id))
bind_group-found g e groups more h = elim (Option-cases (lookup_group groups g)) [
  | inl free ↦
      let same : ((g, e) ∷ groups ≡ more) =
        found_inj (ap (λ o. checked_group o g e groups) (sym free) ∙ h) in
      (
        subst (Extends groups) same (Extends-bound groups g e free),
        (
          e,
          subst (λ (p : MatchGroups). lookup_group p g ≡ some e) same (lookup_bound groups g e),
          refl,
        ),
      )
  | inr (old, known) ↦
      let (ids, same) =
        checked_group-known old e groups more
          (ap (λ o. checked_group o g e groups) (sym known) ∙ h) in
      (
        subst (Extends groups) same (Extends-refl groups),
        (old, subst (λ (p : MatchGroups). lookup_group p g ≡ some old) same known, ids),
      )
]

-- A property of what is bound.
module _ (P : Group × Expression → Type 0) where
  pub All-bind_group :
      (g : Group) (e : Expression) (groups more : MatchGroups)
      → bind_group g e groups ≡ found more
      → P (g, e)
      → All P groups
      → All P more
  All-bind_group g e groups more h p all = elim (Option-cases (lookup_group groups g)) [
    | inl free ↦
        subst (All P) (found_inj (ap (λ o. checked_group o g e groups) (sym free) ∙ h)) (p, all)
    | inr (old, known) ↦
        let (ids, same) =
          checked_group-known old e groups more
            (ap (λ o. checked_group o g e groups) (sym known) ∙ h) in
        subst (All P) same all
  ]

  pub All-lookup_group :
      (groups : MatchGroups) (g : Group) (e : Expression)
      → All P groups
      → lookup_group groups g ≡ some e
      → P (g, e)
  unfolding lookup_group
  All-lookup_group [] g e all h = none_ne_some h
  All-lookup_group ((k, x) ∷ groups) g e all h =
      elim (Bool-cases (group_number k == group_number g)) [
        | inl same ↦
            let here : (x ≡ e) = some_inj (sym (rw same) ∙ h) in
            subst (λ (q : Expression). P (g, q)) here
              (subst (λ (j : Group). P (j, x)) (same_group k g same) all.0)
        | inr other ↦ All-lookup_group groups g e all.1 (sym (rw other) ∙ h)
      ]
