-- ===== src/Assembly/Constants/Replace.antt =====
-- A program whose constants are replaced by routines that compute them runs as it did.
use mathlib.Core.Path.{subst}
use polynomial.Prelude.{
  ℕ, zero, suc, ◌≡◌, refl, sym, ap, ◌∙◌, Option, none, some, List, [], ◌∷◌, ◌++◌, ◌==◌,
  false_ne_true, Bool-cases, Option-cases, inl, inr, ◌⊎◌, none_ne_some, All, arith,
}
use polynomial.Instruction
use polynomial.Instruction.{Instruction}
use polynomial.Assembly.Item.{Annotation, AssemblyItem, AssemblyItems, op, push, tag}
use polynomial.Assembly.Semantic.{is_case, terminating_instructions}
use polynomial.Assembly.Peephole.Machine.{
  Chain, Memory, Outcome, Next, stop, go, find_tag, jumped, jump_step, jumpi_step, proceed, op_step,
  step, run, perform, operate,
}
use polynomial.Assembly.Peephole.Plain.{IsPlain, perform_all}
use polynomial.Assembly.Peephole.Run.{run-go, run-go_inv, run-stop, run-stop_inv, plain-run}
use polynomial.Assembly.Constants.Memory.{KeepsMemory, step-HasMemory}
use polynomial.Assembly.Constants.Optimise.{find_replacement, replace_constants}

module _ (c : Chain) (HasMemory : c.World → Type 0) where
  open c use {World}

  -- A list of items that pushes a constant, and nothing else, where the world is as it has to be.
  pub record Pushes (v : ℕ) (items : AssemblyItems) : Type 1 where
    pub plain : All IsPlain items
    pub pushes :
        (s : List ℕ) (w : World) → HasMemory w → perform_all c items (s, w) ≡ some (v ∷ s, w)

module _ (c : Chain) (HasMemory : c.World → Type 0) (replacements : List (ℕ × AssemblyItems)) where
  open c use {World, address}

  abbrev pub AllPush : Type 1
  AllPush =
      (v : ℕ) (items : AssemblyItems)
      → find_replacement replacements v ≡ some items
      → Pushes c HasMemory v items

  abbrev replaced : AssemblyItems → AssemblyItems
  replaced = replace_constants replacements

  -- Tags stay where they are.
  find_tag-plain :
      (v : ℕ) (items rest : AssemblyItems)
      → All IsPlain items
      → find_tag address v (items ++ rest) ≡ find_tag address v rest
  unfolding find_tag
  find_tag-plain v [] rest all = refl
  find_tag-plain v (tag d a ∷ items) rest ((_, not_tag), all) = false_ne_true (sym not_tag)
  find_tag-plain v (op _ _ ∷ items) rest (_, all) = find_tag-plain v items rest all
  find_tag-plain v (_ ∷ items) rest (_, all) = find_tag-plain v items rest all

  abbrev map_items : Option AssemblyItems → Option AssemblyItems
  map_items none = none
  map_items (some items) = some (replaced items)

  module _ (all : AllPush) (keeps : KeepsMemory c HasMemory) where
    find_tag-replaced :
        (v : ℕ) (items : AssemblyItems)
        → find_tag address v (replaced items) ≡ map_items (find_tag address v items)
    unfolding find_tag replace_constants
    find_tag-replaced v [] = refl
    find_tag-replaced v (tag d a ∷ items) = elim (Bool-cases (address d == v)) [
      | inl here ↦ rw here refl
      | inr on ↦ rw on (find_tag-replaced v items)
    ]
    find_tag-replaced v (push d a ∷ items) = elim (Option-cases (find_replacement replacements d)) [
      | inl as_it_is ↦ rw as_it_is (find_tag-replaced v items)
      | inr (r, here) ↦
          rw here
            (find_tag-plain v r (replaced items) (all d r here).plain ∙ find_tag-replaced v items)
    ]
    find_tag-replaced v (op _ _ ∷ items) = find_tag-replaced v items
    find_tag-replaced v (_ ∷ items) = find_tag-replaced v items

    abbrev map_next : Next c → Next c
    map_next (stop o) = stop o
    map_next (go items m) = go (replaced items) m

    proceed-replaced :
        (rest : AssemblyItems) (o : Option (Memory c))
        → proceed c (replaced rest) o ≡ map_next (proceed c rest o)
    proceed-replaced rest none = refl
    proceed-replaced rest (some m) = refl

    jumped-replaced :
        (o : Option AssemblyItems) (m : Memory c)
        → jumped c (map_items o) m ≡ map_next (jumped c o m)
    jumped-replaced none m = refl
    jumped-replaced (some items) m = refl

    jump-replaced :
        (program : AssemblyItems) (m : Memory c)
        → jump_step c (replaced program) m ≡ map_next (jump_step c program m)
    jump-replaced program ([], w) = refl
    jump-replaced program (target ∷ s, w) =
        ap (λ o. jumped c o (s, w)) (find_tag-replaced target program)
        ∙ jumped-replaced (find_tag address target program) (s, w)

    jumpi-replaced :
        (program rest : AssemblyItems) (m : Memory c)
        → jumpi_step c (replaced program) (replaced rest) m ≡ map_next (jumpi_step c program rest m)
    jumpi-replaced program rest ([], w) = refl
    jumpi-replaced program rest (target ∷ [], w) = refl
    jumpi-replaced program rest (target ∷ cond ∷ s, w) = elim (Bool-cases (cond == 0)) [
      | inl t ↦ rw t refl
      | inr f ↦ rw f (
          ap (λ o. jumped c o (s, w)) (find_tag-replaced target program)
          ∙ jumped-replaced (find_tag address target program) (s, w))
    ]

    op_step-replaced :
        (program : AssemblyItems) (i : Instruction) (rest : AssemblyItems) (m : Memory c)
        → op_step c (replaced program) i (replaced rest) m ≡ map_next (op_step c program i rest m)
    unfolding op_step
    op_step-replaced program i rest m = elim (Bool-cases (i == Instruction.jump)) [
      | inl t ↦ rw t (jump-replaced program m)
      | inr f ↦ elim (Bool-cases (i == Instruction.jumpi)) [
        | inl t ↦ rw (f, t) (jumpi-replaced program rest m)
        | inr g ↦ elim (Bool-cases (is_case terminating_instructions i)) [
          | inl t ↦ rw (f, g, t) refl
          | inr h ↦ rw (f, g, h) (proceed-replaced rest (operate c i m))
        ]
      ]
    ]

    next-cases :
        (x : Next c)
        → ((o : Outcome c) × (x ≡ stop o)) ⊎ ((r : AssemblyItems) × (m : Memory c) × (x ≡ go r m))
    next-cases (stop o) = inl (o, refl)
    next-cases (go r m) = inr (r, m, refl)

    -- A step that is the same but for the replacements.
    same_step :
        (program : AssemblyItems) (n : ℕ) (item : AssemblyItem) (rest : AssemblyItems)
        (m : Memory c) (o : Outcome c)
        → step c (replaced program) item (replaced rest) m ≡ map_next (step c program item rest m)
        → run c program n (item ∷ rest) m ≡ some o
        → HasMemory m.1
        → ((n' : ℕ)
            → n ≡ suc n'
            → (r : AssemblyItems) (m' : Memory c) → HasMemory m'.1
            → run c program n' r m' ≡ some o
            → (k : ℕ) × (run c (replaced program) k (replaced r) m' ≡ some o))
        → (k : ℕ) × (run c (replaced program) k (item ∷ replaced rest) m ≡ some o)
    same_step program n item rest m o same h there later =
        elim (next-cases (step c program item rest m)) [
          | inl (q, e) ↦
              let ends = run-stop_inv c program n item rest m o q e h in
              (
                1,
                run-stop c (replaced program) item (replaced rest) m o
                    (same ∙ ap map_next e ∙ ap (λ (o : Outcome c). stop o) ends),
              )
          | inr (r, m', e) ↦
              let (n', count, left) = run-go_inv c program n item rest r m m' o e h in
              let (k, runs) =
                later n' count r m'
                  (step-HasMemory c HasMemory keeps program item rest r m m' there e) left in
              (
                suc k,
                run-go c (replaced program) k item (replaced rest) (replaced r) m m' o
                    (same ∙ ap map_next e) runs,
              )
        ]

    push_step :
        (program : AssemblyItems) (n d : ℕ) (a : Annotation) (rest : AssemblyItems) (s : List ℕ)
        (w : World) (o : Outcome c)
        → run c program (suc n) (push d a ∷ rest) (s, w) ≡ some o
        → run c program n rest (d ∷ s, w) ≡ some o
    unfolding run step perform
    push_step program n d a rest s w o h = h

    push-replaced :
        (program : AssemblyItems) (k d : ℕ) (a : Annotation) (rest : AssemblyItems) (s : List ℕ)
        (w : World) (o : Outcome c)
        → HasMemory w
        → run c (replaced program) k (replaced rest) (d ∷ s, w) ≡ some o
        → (n : ℕ) × (run c (replaced program) n (replaced (push d a ∷ rest)) (s, w) ≡ some o)
    unfolding replace_constants run step perform
    push-replaced program k d a rest s w o there h =
        elim (Option-cases (find_replacement replacements d)) [
          | inl as_it_is ↦ (suc k, rw as_it_is h)
          | inr (r, here) ↦
              let pushes = all d r here in
              let (n, runs) =
                plain-run c (replaced program) k r (replaced rest) (s, w) (d ∷ s, w) o pushes.plain
                  (pushes.pushes s w there) h in
              (n, rw here runs)
        ]

    pub run-replaced :
        (program : AssemblyItems) (n : ℕ) (rest : AssemblyItems) (m : Memory c) (o : Outcome c)
        → HasMemory m.1
        → run c program n rest m ≡ some o
        → (k : ℕ) × (run c (replaced program) k (replaced rest) m ≡ some o)
    unfolding run replace_constants step
    run-replaced program n [] m o there h = (0, h)
    run-replaced program zero (item ∷ rest) m o there h = none_ne_some h
    run-replaced program (suc n) (push d a ∷ rest) (s, w) o there h =
        let (k, runs) =
          run-replaced program n rest (d ∷ s, w) o there (push_step program n d a rest s w o h) in
        push-replaced program k d a rest s w o there runs
    run-replaced program (suc n) (op i a ∷ rest) m o there h =
        same_step program (suc n) (op i a) rest m o (op_step-replaced program i rest m) h there
          (λ n' e r m' there' left.
            run-replaced program n r m' o there'
              (subst (λ (n : ℕ). run c program n r m' ≡ some o) (omega arith) left))
    run-replaced program (suc n) (item ∷ rest) m o there h =
        same_step program (suc n) item rest m o (proceed-replaced rest (perform c item m)) h there
          (λ n' e r m' there' left.
            run-replaced program n r m' o there'
              (subst (λ (n : ℕ). run c program n r m' ≡ some o) (omega arith) left))
