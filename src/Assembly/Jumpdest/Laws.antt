-- ===== src/Assembly/Jumpdest/Laws.antt =====
-- Removing jump destinations leaves, in order, every other item and every destination that is
-- referred to.
use polynomial.Prelude.{
  false_ne_true, ℕ, ◌≡◌, refl, sym, ap, ◌∙◌, Bool, true, false, not, none, some, List, [], ◌∷◌,
  ◌++◌, ◌==◌, ==_iff, if◌then◌else◌, Bool-cases, inl, inr, ◌⊎◌, ◌↔◌, All, length,
}
use polynomial.Assembly.Item.{
  Annotation, AssemblyItem, AssemblyItems, push_tag, tag, split_data, no_sub_assembly,
}
use polynomial.Assembly.Jumpdest.{
  contains, referenced_tags, stays, remove_unreferenced, remove_jumpdests,
}

-- One of the items pushes a tag of a sub-assembly.
abbrev pub IsPushed : ℕ → ℕ → AssemblyItems → Type 0
IsPushed sub_id t [] = ⊥
IsPushed sub_id t (push_tag d a ∷ items) =
    (((split_data d).0 ≡ sub_id) × ((split_data d).1 ≡ t)) ⊎ IsPushed sub_id t items
IsPushed sub_id t (item ∷ items) = IsPushed sub_id t items

-- A number that stands in a list.
abbrev pub IsListed : ℕ → List ℕ → Type 0
IsListed t [] = ⊥
IsListed t (x ∷ xs) = (x ≡ t) ⊎ IsListed t xs

-- A label that is no label of a sub-assembly, or any other item.
abbrev pub IsOwn : AssemblyItem → Type 0
IsOwn (tag d a) = (split_data d).0 ≡ no_sub_assembly
IsOwn item = Unit

-- A label of one of the identifiers, or any other item.
abbrev pub HasReference : (ℕ → Type 0) → AssemblyItem → Type 0
HasReference Q (tag d a) = Q (split_data d).1
HasReference Q item = Unit

-- The items of a list that have a property, and only these, in order.
abbrev pub IsFiltered : (AssemblyItem → Type 0) → AssemblyItems → AssemblyItems → Type 0
IsFiltered P [] new = new ≡ []
IsFiltered P (item ∷ items) new =
    (P item × (more : AssemblyItems) × (new ≡ item ∷ more) × IsFiltered P items more)
    ⊎ ((¬ P item) × IsFiltered P items new)

-- The identifiers that the items or the tags from outside refer to.
abbrev pub IsReferenced : AssemblyItems → List ℕ → ℕ → Type 0
IsReferenced items outside t = IsPushed no_sub_assembly t items ⊎ IsListed t outside

contains-IsListed : (xs : List ℕ) (t : ℕ) → (contains xs t ≡ true) ↔ IsListed t xs
unfolding contains
contains-IsListed [] t = (λ h. false_ne_true h, λ h. elim h [ ])
contains-IsListed (x ∷ xs) t = elim (Bool-cases (x == t)) [
  | inl here ↦ (λ h. inl ((==_iff x t).0 here), λ h. rw here refl)
  | inr differs ↦ (
    λ h. inr ((contains-IsListed xs t).0 (rw differs at h)),
    λ h. elim h [
      | inl e ↦ false_ne_true (sym differs ∙ (==_iff x t).1 e)
      | inr later ↦ rw differs ((contains-IsListed xs t).1 later)
    ],
  )
]

IsListed-append : (t : ℕ) (xs ys : List ℕ) → IsListed t (xs ++ ys) ↔ (IsListed t xs ⊎ IsListed t ys)
IsListed-append t [] ys = (λ h. inr h, λ h. elim h [ inl never ↦ elim never [ ] | inr k ↦ k ])
IsListed-append t (x ∷ xs) ys =
    let rest = IsListed-append t xs ys in
    (
      λ h. elim h [
        | inl e ↦ inl (inl e)
        | inr k ↦ elim (rest.0 k) [ inl a ↦ inl (inr a) | inr b ↦ inr b ]
      ],
      λ h. elim h [
        | inl (inl e) ↦ inl e
        | inl (inr a) ↦ inr (rest.1 (inl a))
        | inr b ↦ inr (rest.1 (inr b))
      ],
    )

referenced_tags-IsListed :
    (items : AssemblyItems) (sub_id t : ℕ)
    → IsListed t (referenced_tags items sub_id) ↔ IsPushed sub_id t items
unfolding referenced_tags
referenced_tags-IsListed [] sub_id t = (λ h. h, λ h. h)
referenced_tags-IsListed (push_tag d a ∷ items) sub_id t =
    let rest = referenced_tags-IsListed items sub_id t in
    elim (Bool-cases ((split_data d).0 == sub_id)) [
      | inl here ↦ (
        λ h. elim (rw here at h) [
          | inl e ↦ inl ((==_iff (split_data d).0 sub_id).0 here, e)
          | inr k ↦ inr (rest.0 k)
        ],
        λ h. rw here (elim h [ inl e ↦ inl e.1 | inr k ↦ inr (rest.1 k) ]),
      )
      | inr differs ↦ (
        λ h. inr (rest.0 (rw differs at h)),
        λ h. rw differs (elim h [
          | inl e ↦ false_ne_true (sym differs ∙ (==_iff (split_data d).0 sub_id).1 e.0)
          | inr k ↦ rest.1 k
        ]),
      )
    ]
referenced_tags-IsListed (x ∷ items) sub_id t = referenced_tags-IsListed items sub_id t

-- A tag is among the tags referred to if and only if one of the items pushes it for the
-- sub-assembly that is asked for.
pub contains-referenced_tags :
    (items : AssemblyItems) (sub_id t : ℕ)
    → (contains (referenced_tags items sub_id) t ≡ true) ↔ IsPushed sub_id t items
contains-referenced_tags items sub_id t =
    let listed = contains-IsListed (referenced_tags items sub_id) t in
    let pushed = referenced_tags-IsListed items sub_id t in
    (λ h. pushed.0 (listed.0 h), λ h. listed.1 (pushed.1 h))

remove_step :
    (references : List ℕ) (item : AssemblyItem) (items more : AssemblyItems) (b : Bool)
    → stays references item ≡ some b
    → remove_unreferenced references items ≡ some more
    → remove_unreferenced references (item ∷ items) ≡ some (if b then item ∷ more else more)
unfolding remove_unreferenced
remove_step references item items more b h e = rw (h, e) refl

stays-own :
    (references : List ℕ) (d : ℕ) (a : Annotation) (b : Bool)
    → (split_data d).0 ≡ no_sub_assembly
    → contains references (split_data d).1 ≡ b
    → stays references (tag d a) ≡ some b
unfolding stays
stays-own references d a b own h =
    ap (λ (x : Bool). if x then some (contains references (split_data d).1) else none)
      ((==_iff (split_data d).0 no_sub_assembly).1 own)
    ∙ ap (λ (x : Bool). some x) h

remove_unreferenced-IsFiltered :
    (Q : ℕ → Type 0) (references : List ℕ)
    → ((t : ℕ) → (contains references t ≡ true) ↔ Q t)
    → (items : AssemblyItems) → All IsOwn items
    → (new : AssemblyItems) × (remove_unreferenced references items ≡ some new)
      × IsFiltered (HasReference Q) items new
unfolding remove_unreferenced stays
remove_unreferenced-IsFiltered Q references same [] own = ([], refl, refl)
remove_unreferenced-IsFiltered Q references same (tag d a ∷ items) (own, all) =
    let (more, e, rest) = remove_unreferenced-IsFiltered Q references same items all in
    elim (Bool-cases (contains references (split_data d).1)) [
      | inl t ↦ (
        tag d a ∷ more,
        remove_step references (tag d a) items more true (stays-own references d a true own t) e,
        inl ((same (split_data d).1).0 t, more, refl, rest),
      )
      | inr f ↦ (
        more,
        remove_step references (tag d a) items more false (stays-own references d a false own f) e,
        inr (λ q. false_ne_true (sym f ∙ (same (split_data d).1).1 q), rest),
      )
    ]
remove_unreferenced-IsFiltered Q references same (x ∷ items) (own, all) =
    let (more, e, rest) = remove_unreferenced-IsFiltered Q references same items all in
    (x ∷ more, remove_step references x items more true refl e, inl (tt, more, refl, rest))

-- Where no label is one of a sub-assembly, removing jump destinations has a result: in order, all
-- items that are no labels, the labels that an item of this assembly pushes or that are referred to
-- from outside, and no other label.
pub remove_jumpdests-IsFiltered :
    (items : AssemblyItems) (outside : List ℕ)
    → All IsOwn items
    → (new : AssemblyItems) × (changed : Bool) × (remove_jumpdests items outside
        ≡ some (new, changed))
      × IsFiltered (HasReference (IsReferenced items outside)) items new
unfolding remove_jumpdests
remove_jumpdests-IsFiltered items outside own =
    let references = referenced_tags items no_sub_assembly ++ outside in
    let pushed = referenced_tags-IsListed items no_sub_assembly in
    let append = λ (t : ℕ). IsListed-append t (referenced_tags items no_sub_assembly) outside in
    let (new, e, filtered) =
      remove_unreferenced-IsFiltered (IsReferenced items outside) references
        (λ t. (
          λ h. elim ((append t).0 ((contains-IsListed references t).0 h)) [
            | inl k ↦ inl ((pushed t).0 k)
            | inr k ↦ inr k
          ],
          λ h.
              (contains-IsListed references t).1
                ((append t).1 (elim h [ inl k ↦ inl ((pushed t).1 k) | inr k ↦ inr k ])),
        ))
        items own in
    (new, not (length new == length items), rw e refl, filtered)
