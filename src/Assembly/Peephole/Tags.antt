-- ===== src/Assembly/Peephole/Tags.antt =====
-- Every tag stays, and what follows it in the output is what the optimiser makes of what followed
-- it before.
use mathlib.Core.Path.{subst}
use polynomial.Prelude.{
  ℕ, ◌≡◌, refl, sym, ap, ◌∙◌, none, some, [], ◌∷◌, ◌++◌, false, Bool-cases, inl, inr, some_inj,
  none_ne_some, All, ◌==◌, ==_refl, ==_iff,
}
use polynomial.Instruction
use polynomial.Assembly.Item.{Annotation, AssemblyItem, AssemblyItems, tag, op, push_tag}
use polynomial.Assembly.Peephole.Machine.{Chain, find_tag}
use polynomial.Assembly.Peephole.Plain.{IsPlain, is_tag}
use polynomial.Assembly.Peephole.Loop.{Optimised, end, round}
use polynomial.Assembly.Peephole.Moves.{
  Move, keeps, same, test_twice, to_next, to_next_if, cut, apply_methods-Move,
}

abbrev pub NoTags : AssemblyItems → Type 0
NoTags = All (λ x. is_tag x ≡ false)

plain-NoTags : (xs : AssemblyItems) → All IsPlain xs → NoTags xs
plain-NoTags [] h = tt
plain-NoTags (x ∷ xs) h = (h.0.1, plain-NoTags xs h.1)

-- The tags of a program stand at different addresses.
abbrev pub DistinctTags : (ℕ → ℕ) → AssemblyItems → Type 0
DistinctTags address [] = Unit
DistinctTags address (tag d a ∷ items) =
    (find_tag address (address d) items ≡ none) × DistinctTags address items
DistinctTags address (x ∷ items) = DistinctTags address items

module _ (address : ℕ → ℕ) where
  pub find_tag-skip :
      (v : ℕ) (xs ys : AssemblyItems)
      → NoTags xs
      → find_tag address v (xs ++ ys) ≡ find_tag address v ys
  unfolding find_tag
  find_tag-skip v [] ys h = refl
  find_tag-skip v (tag d a ∷ xs) ys h = cc
  find_tag-skip v (op i a ∷ xs) ys h = find_tag-skip v xs ys h.1
  find_tag-skip v (x ∷ xs) ys h = find_tag-skip v xs ys h.1

  -- What follows a tag is part of the program.
  pub find_tag-inside :
      (v : ℕ) (items rest : AssemblyItems)
      → find_tag address v items ≡ some rest
      → (before : AssemblyItems) × (items ≡ before ++ rest)
  unfolding find_tag
  find_tag-inside v [] rest h = none_ne_some h
  find_tag-inside v (tag d a ∷ items) rest h = elim (Bool-cases (address d == v)) [
    | inl here ↦
        (tag d a ∷ [], ap (λ (xs : AssemblyItems). tag d a ∷ xs) (some_inj (sym (rw here) ∙ h)))
    | inr there ↦
        let (before, e) = find_tag-inside v items rest (sym (rw there) ∙ h) in
        (tag d a ∷ before, ap (λ (xs : AssemblyItems). tag d a ∷ xs) e)
  ]
  find_tag-inside v (op i a ∷ items) rest h =
      let (before, e) = find_tag-inside v items rest h in
      (op i a ∷ before, ap (λ (xs : AssemblyItems). op i a ∷ xs) e)
  find_tag-inside v (x ∷ items) rest h =
      let (before, e) = find_tag-inside v items rest h in
      (x ∷ before, ap (λ (xs : AssemblyItems). x ∷ xs) e)

  -- With distinct addresses, the address of a tag leads to what follows it.
  pub find_tag_unique :
      (t : ℕ) (a : Annotation) (before rest : AssemblyItems)
      → DistinctTags address (before ++ tag t a ∷ rest)
      → find_tag address (address t) (before ++ tag t a ∷ rest) ≡ some rest
  unfolding find_tag
  find_tag_unique t a [] rest h = rw (==_refl (address t))
  find_tag_unique t a (tag d b ∷ before) rest h = elim (Bool-cases (address d == address t)) [
    | inl equal ↦
        let same_address = (==_iff (address d) (address t)).0 equal in
        none_ne_some (
          sym h.0
          ∙ ap (λ (v : ℕ). find_tag address v (before ++ tag t a ∷ rest)) same_address
          ∙ find_tag_unique t a before rest h.1)
    | inr differs ↦ rw differs (find_tag_unique t a before rest h.1)
  ]
  find_tag_unique t a (op i b ∷ before) rest h = find_tag_unique t a before rest h
  find_tag_unique t a (x ∷ before) rest h = find_tag_unique t a before rest h

module _ (c : Chain) where
  open c use {address}

  -- What a tag leads to before and after the optimiser.
  abbrev pub Follows : ℕ → AssemblyItems → AssemblyItems → Type 0
  Follows v items whole =
      (rest : AssemblyItems)
      → find_tag address v items ≡ some rest
      → (rest' : AssemblyItems) × (find_tag address v whole ≡ some rest') × Optimised rest rest'

  one_tag :
      (v : ℕ) (x : AssemblyItem) (left out : AssemblyItems)
      → Optimised left out
      → Follows v left out
      → Follows v (x ∷ left) (x ∷ out)
  unfolding find_tag
  one_tag v (tag d a) left out o ih rest h = elim (Bool-cases (address d == v)) [
    | inl here ↦
        let e : (left ≡ rest) = some_inj (sym (rw here) ∙ h) in
        (out, rw here, subst (λ (xs : AssemblyItems). Optimised xs out) e o)
    | inr there ↦ let (rest', e, q) = ih rest (sym (rw there) ∙ h) in (rest', rw there e, q)
  ]
  one_tag v (op i a) left out o ih rest h = ih rest h
  one_tag v x left out o ih rest h = ih rest h

  through :
      (v : ℕ) (xs ys left out : AssemblyItems)
      → NoTags xs
      → NoTags ys
      → Follows v left out
      → Follows v (xs ++ left) (ys ++ out)
  through v xs ys left out nx ny ih rest h =
      let (rest', e, q) = ih rest (sym (find_tag-skip address v xs left nx) ∙ h) in
      (rest', find_tag-skip address v ys out ny ∙ e, q)

  Move-Follows :
      (v : ℕ) (items emitted left out : AssemblyItems)
      → Move c items emitted left
      → Optimised left out
      → Follows v left out
      → Follows v items (emitted ++ out)
  Move-Follows v items emitted left out (keeps x window e k) o ih = rw e (
      through v (x ∷ window) emitted left out (plain-NoTags (x ∷ window) k.plain)
        (plain-NoTags emitted k.still_plain) ih)
  Move-Follows v items emitted left out (same x e f) o ih = rw (e, f) (one_tag v x left out o ih)
  Move-Follows v items emitted left out (test_twice a b p j t e f) o ih =
      rw (e, f)
        (through v
          (op Instruction.iszero a
            ∷ op Instruction.iszero b
            ∷ push_tag t p
            ∷ op Instruction.jumpi j
            ∷ [])
          (push_tag t p ∷ op Instruction.jumpi j ∷ []) left out (refl, (refl, (refl, (refl, tt))))
          (refl, (refl, tt)) ih)
  Move-Follows v items emitted left out (to_next a b d t e f) o ih =
      rw (e, f)
        (through v (push_tag t a ∷ op Instruction.jump b ∷ []) [] (tag t d ∷ left) (tag t d ∷ out)
          (refl, (refl, tt)) tt (one_tag v (tag t d) left out o ih))
  Move-Follows v items emitted left out (to_next_if a b d p t e f) o ih =
      rw (e, f)
        (through v (push_tag t a ∷ op Instruction.jumpi b ∷ []) (op Instruction.pop p ∷ [])
          (tag t d ∷ left) (tag t d ∷ out) (refl, (refl, tt)) (refl, tt)
          (one_tag v (tag t d) left out o ih))
  Move-Follows v items emitted left out (cut i a skipped g e n f) o ih =
      rw (e, f) (through v (op i a ∷ skipped) (op i a ∷ []) left out (refl, n) (refl, tt) ih)

  -- Every tag of the program is in the output, and leads to the same place.
  pub Optimised-Follows :
      (v : ℕ) {items whole : AssemblyItems} → Optimised items whole → Follows v items whole
  unfolding find_tag
  Optimised-Follows v end rest h = none_ne_some h
  Optimised-Follows v (round {item} {rest = items} {out} {whole} r e o w) rest h =
      subst (λ (xs : AssemblyItems). Follows v (item ∷ items) xs) (sym w)
        (Move-Follows v (item ∷ items) r.emitted r.left out
          (apply_methods-Move c (item ∷ items) r e) o (Optimised-Follows v o))
        rest h
