-- ===== src/Assembly/Peephole/Moves.antt =====
-- One round of the optimiser, by what it does to a run of the program.
use mathlib.Core.Path.{subst}
use polynomial.Prelude.{
  guarded, both, ap₂, ℕ, ◌≡◌, refl, sym, ap, ◌∙◌, Bool, true, false, ◌&&◌, Option, none, some, [],
  ◌∷◌, ◌++◌, ==_iff, if◌then◌else◌, length, All, arith, Bool-cases, inl, inr, some_inj,
  none_ne_some, ltb,
}
use polynomial.Instruction
use polynomial.Instruction.{Instruction}
use polynomial.Assembly.Item.{
  Annotation, AssemblyItem, AssemblyItems, op, push_tag, tag, is_instruction, located, location_of,
}
use polynomial.Assembly.Semantic.{is_case}
use polynomial.Assembly.Peephole.{
  Rewrite, rewrite, window1, window2, window3, window4, or_else, push_pop, op_pop, double_push,
  double_swap, commutative_swap, swap_comparison, is_zero_is_zero_jump_i, jump_to_next,
  unreachable_code, tag_conjunctions, truthy_and, identity, apply_methods, from_tag,
  leaving_instructions,
}
use polynomial.Assembly.Peephole.Machine.{Chain}
use polynomial.Assembly.Peephole.Plain.{is_tag, is_instruction-eq}
use polynomial.Assembly.Peephole.Keeps.{Keeps}
use polynomial.Assembly.Peephole.Pops.{push_pop-Keeps, op_pop-Keeps, double_push-Keeps}
use polynomial.Assembly.Peephole.Swaps.{
  double_swap-Keeps, commutative_swap-Keeps, swap_comparison-Keeps,
}
use polynomial.Assembly.Peephole.Masks.{tag_conjunctions-Keeps, truthy_and-Keeps}

and-left : (a b : Bool) → (a && b) ≡ true → a ≡ true
and-left a b h = ground arith

rewrite-parts :
    (left : AssemblyItems) (o : Option AssemblyItems) (r : Rewrite)
    → rewrite left o ≡ some r
    → (o ≡ some r.emitted) × (r.left ≡ left)
rewrite-parts left none r h = none_ne_some h
rewrite-parts left (some out) r h = (
  ap some (ap (λ (q : Rewrite). q.emitted) (some_inj h)),
  ap (λ (q : Rewrite). q.left) (sym (some_inj h)),
)

-- The items that `UnreachableCode` drops hold no tag.
from_tag-split :
    (items : AssemblyItems)
    → (skipped : AssemblyItems) × (items ≡ skipped ++ from_tag items)
      × All (λ x. is_tag x ≡ false) skipped
unfolding from_tag
from_tag-split [] = ([], refl, tt)
from_tag-split (tag d a ∷ items) = ([], refl, tt)
from_tag-split (op i a ∷ items) =
    let (skipped, e, h) = from_tag-split items in
    (op i a ∷ skipped, ap (λ (xs : AssemblyItems). op i a ∷ xs) e, (refl, h))
from_tag-split (x ∷ items) =
    let (skipped, e, h) = from_tag-split items in
    (x ∷ skipped, ap (λ (xs : AssemblyItems). x ∷ xs) e, (refl, h))

module _ (c : Chain) where
  pub data Move (items emitted left : AssemblyItems) : Type 1 where
    keeps :
        (x : AssemblyItem) (window : AssemblyItems)
        → items ≡ (x ∷ window) ++ left
        → Keeps c (x ∷ window) emitted
        → Move items emitted left
    same : (x : AssemblyItem) → items ≡ x ∷ left → emitted ≡ x ∷ [] → Move items emitted left
    test_twice :
        (a b p j : Annotation) (t : ℕ)
        → items
          ≡ op Instruction.iszero a
            ∷ op Instruction.iszero b
            ∷ push_tag t p
            ∷ op Instruction.jumpi j
            ∷ left
        → emitted ≡ push_tag t p ∷ op Instruction.jumpi j ∷ []
        → Move items emitted left
    to_next :
        (a b d : Annotation) (t : ℕ)
        → items ≡ push_tag t a ∷ op Instruction.jump b ∷ tag t d ∷ left
        → emitted ≡ tag t d ∷ []
        → Move items emitted left
    to_next_if :
        (a b d p : Annotation) (t : ℕ)
        → items ≡ push_tag t a ∷ op Instruction.jumpi b ∷ tag t d ∷ left
        → emitted ≡ op Instruction.pop p ∷ tag t d ∷ []
        → Move items emitted left
    cut :
        (i : Instruction) (a : Annotation) (skipped : AssemblyItems)
        → is_case leaving_instructions i ≡ true
        → items ≡ op i a ∷ (skipped ++ left)
        → All (λ x. is_tag x ≡ false) skipped
        → emitted ≡ op i a ∷ []
        → Move items emitted left

  two :
      (f : AssemblyItem → AssemblyItem → Option AssemblyItems)
      → ((a b : AssemblyItem) (out : AssemblyItems) → f a b ≡ some out → Keeps c (a ∷ b ∷ []) out)
      → (items : AssemblyItems) (r : Rewrite) → window2 f items ≡ some r
      → Move items r.emitted r.left
  two f law [] r h = none_ne_some h
  two f law (a ∷ []) r h = none_ne_some h
  two f law (a ∷ b ∷ rest) r h =
      let (e, l) = rewrite-parts rest (f a b) r h in
      keeps a (b ∷ []) (ap (λ (xs : AssemblyItems). a ∷ b ∷ xs) (sym l)) (law a b r.emitted e)

  three :
      (f : AssemblyItem → AssemblyItem → AssemblyItem → Option AssemblyItems)
      → ((x y z : AssemblyItem) (out : AssemblyItems)
          → f x y z ≡ some out
          → Keeps c (x ∷ y ∷ z ∷ []) out)
      → (items : AssemblyItems) (r : Rewrite) → window3 f items ≡ some r
      → Move items r.emitted r.left
  three f law [] r h = none_ne_some h
  three f law (a ∷ []) r h = none_ne_some h
  three f law (a ∷ b ∷ []) r h = none_ne_some h
  three f law (x ∷ y ∷ z ∷ rest) r h =
      let (e, l) = rewrite-parts rest (f x y z) r h in
      keeps x (y ∷ z ∷ []) (ap (λ (xs : AssemblyItems). x ∷ y ∷ z ∷ xs) (sym l))
        (law x y z r.emitted e)

  identity-Move :
      (items : AssemblyItems) (r : Rewrite)
      → window1 identity items ≡ some r
      → Move items r.emitted r.left
  unfolding identity
  identity-Move [] r h = none_ne_some h
  identity-Move (x ∷ rest) r h =
      let (e, l) = rewrite-parts rest (identity x) r h in
      same x (ap (λ (xs : AssemblyItems). x ∷ xs) (sym l)) (sym (some_inj e))

  unreachable_code-Move :
      (items : AssemblyItems) (r : Rewrite)
      → unreachable_code items ≡ some r
      → Move items r.emitted r.left
  unfolding unreachable_code
  unreachable_code-Move [] r h = none_ne_some h
  unreachable_code-Move (op i a ∷ items) r h =
      let (skipped, e, no_tags) = from_tag-split items in
      let (t, p) =
        guarded (is_case leaving_instructions i && ltb (length (from_tag items)) (length items))
          (record { emitted = op i a ∷ []; left = from_tag items }) h in
      let left : (r.left ≡ from_tag items) = ap (λ (q : Rewrite). q.left) (sym p) in
      cut i a skipped (and-left (is_case leaving_instructions i) _ t)
        (ap (λ (xs : AssemblyItems). op i a ∷ xs)
          (e ∙ ap (λ (xs : AssemblyItems). skipped ++ xs) (sym left)))
        no_tags (ap (λ (q : Rewrite). q.emitted) (sym p))
  unreachable_code-Move (x ∷ items) r h = none_ne_some h

  jump_to_next-op :
      (t : ℕ) (a : Annotation) (b : AssemblyItem) (u : ℕ) (d : Annotation)
      (left emitted : AssemblyItems)
      → jump_to_next (push_tag t a) b (tag u d) ≡ some emitted
      → Move (push_tag t a ∷ b ∷ tag u d ∷ left) emitted left
  unfolding jump_to_next
  jump_to_next-op t a b u d left emitted h =
      let (cond, e) = guarded _ _ h in
      let (jumps, equal) = both cond in
      let f : (t ≡ u) = (==_iff t u).0 equal in
      elim (Bool-cases (is_instruction b Instruction.jumpi)) [
        | inl conditional ↦
            let (q, g) = is_instruction-eq b Instruction.jumpi conditional in
            to_next_if a q d (located (location_of b)) u
              (ap₂ (λ (n : ℕ) (x : AssemblyItem). push_tag n a ∷ x ∷ tag u d ∷ left) f g)
              (sym e
                ∙ ap
                    (λ (i : Bool).
                      if i
                      then op Instruction.pop (located (location_of b)) ∷ tag u d ∷ []
                      else tag u d ∷ [])
                    conditional)
        | inr not_conditional ↦
            let plain : (is_instruction b Instruction.jump ≡ true) = ground arith in
            let (q, g) = is_instruction-eq b Instruction.jump plain in
            to_next a q d u
              (ap₂ (λ (n : ℕ) (x : AssemblyItem). push_tag n a ∷ x ∷ tag u d ∷ left) f g)
              (sym e
                ∙ ap
                    (λ (i : Bool).
                      if i
                      then op Instruction.pop (located (location_of b)) ∷ tag u d ∷ []
                      else tag u d ∷ [])
                    not_conditional)
      ]

  jump_to_next-three :
      (x y z : AssemblyItem) (left emitted : AssemblyItems)
      → jump_to_next x y z ≡ some emitted
      → Move (x ∷ y ∷ z ∷ left) emitted left
  unfolding jump_to_next
  jump_to_next-three (push_tag t a) y (tag u d) left emitted h =
      jump_to_next-op t a y u d left emitted h
  jump_to_next-three (push_tag t a) y z left emitted h = none_ne_some h
  jump_to_next-three x y z left emitted h = none_ne_some h

  jump_to_next-Move :
      (items : AssemblyItems) (r : Rewrite)
      → window3 jump_to_next items ≡ some r
      → Move items r.emitted r.left
  jump_to_next-Move [] r h = none_ne_some h
  jump_to_next-Move (x ∷ []) r h = none_ne_some h
  jump_to_next-Move (x ∷ y ∷ []) r h = none_ne_some h
  jump_to_next-Move (x ∷ y ∷ z ∷ rest) r h =
      let (e, l) = rewrite-parts rest (jump_to_next x y z) r h in
      subst (λ (xs : AssemblyItems). Move (x ∷ y ∷ z ∷ xs) r.emitted r.left) l
        (jump_to_next-three x y z r.left r.emitted e)

  test_twice-four :
      (x y z j : AssemblyItem) (left emitted : AssemblyItems)
      → is_zero_is_zero_jump_i x y z j ≡ some emitted
      → Move (x ∷ y ∷ z ∷ j ∷ left) emitted left
  unfolding is_zero_is_zero_jump_i
  test_twice-four x y (push_tag t p) j left emitted h =
      let (cond, e) = guarded _ _ h in
      let (first, others) = both cond in
      let (second, last) = both others in
      let (a, f) = is_instruction-eq x Instruction.iszero first in
      let (b, g) = is_instruction-eq y Instruction.iszero second in
      let (q, k) = is_instruction-eq j Instruction.jumpi last in
      test_twice a b p q t
        (ap₂ (λ (u v : AssemblyItem). u ∷ v ∷ push_tag t p ∷ j ∷ left) f g
          ∙ ap
              (λ (u : AssemblyItem).
                op Instruction.iszero a ∷ op Instruction.iszero b ∷ push_tag t p ∷ u ∷ left)
              k)
        (sym e ∙ ap (λ (u : AssemblyItem). push_tag t p ∷ u ∷ []) k)
  test_twice-four x y z j left emitted h = none_ne_some h

  is_zero_is_zero_jump_i-Move :
      (items : AssemblyItems) (r : Rewrite)
      → window4 is_zero_is_zero_jump_i items ≡ some r
      → Move items r.emitted r.left
  is_zero_is_zero_jump_i-Move [] r h = none_ne_some h
  is_zero_is_zero_jump_i-Move (x ∷ []) r h = none_ne_some h
  is_zero_is_zero_jump_i-Move (x ∷ y ∷ []) r h = none_ne_some h
  is_zero_is_zero_jump_i-Move (x ∷ y ∷ z ∷ []) r h = none_ne_some h
  is_zero_is_zero_jump_i-Move (x ∷ y ∷ z ∷ j ∷ rest) r h =
      let (e, l) = rewrite-parts rest (is_zero_is_zero_jump_i x y z j) r h in
      subst (λ (xs : AssemblyItems). Move (x ∷ y ∷ z ∷ j ∷ xs) r.emitted r.left) l
        (test_twice-four x y z j r.left r.emitted e)

  either :
      (a b : Option Rewrite) (items : AssemblyItems) (r : Rewrite)
      → (a ≡ some r → Move items r.emitted r.left)
      → (b ≡ some r → Move items r.emitted r.left)
      → or_else a b ≡ some r
      → Move items r.emitted r.left
  either none b items r ha hb h = hb h
  either (some q) b items r ha hb h = ha h

  -- Whatever method applies, the round is one of these.
  pub apply_methods-Move :
      (items : AssemblyItems) (r : Rewrite)
      → apply_methods items ≡ some r
      → Move items r.emitted r.left
  unfolding apply_methods
  apply_methods-Move items r = either _ _ items r (two push_pop (push_pop-Keeps c) items r) (
      either _ _ items r (two op_pop (op_pop-Keeps c) items r) (
        either _ _ items r (two double_push (double_push-Keeps c) items r) (
          either _ _ items r (two double_swap (double_swap-Keeps c) items r) (
            either _ _ items r (two commutative_swap (commutative_swap-Keeps c) items r) (
              either _ _ items r (two swap_comparison (swap_comparison-Keeps c) items r) (
                either _ _ items r (is_zero_is_zero_jump_i-Move items r) (
                  either _ _ items r (jump_to_next-Move items r) (
                    either _ _ items r (unreachable_code-Move items r) (
                      either _ _ items r (three tag_conjunctions (tag_conjunctions-Keeps c) items r)
                        (either _ _ items r (three truthy_and (truthy_and-Keeps c) items r)
                          (identity-Move items r)))))))))))
