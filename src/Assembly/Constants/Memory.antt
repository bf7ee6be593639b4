-- ===== src/Assembly/Constants/Memory.antt =====
-- What holds of the memory of a machine and is kept by its instructions is kept by its steps.
use mathlib.Core.Path.{subst}
use polynomial.Prelude.{
  ℕ, ◌≡◌, refl, sym, ap, ◌∙◌, Option, none, some, List, [], ◌∷◌, ◌==◌, Bool-cases, Option-cases,
  inl, inr, none_ne_some, some_inj,
}
use polynomial.Instruction
use polynomial.Instruction.{Instruction}
use polynomial.Instruction.Info.{instruction_info}
use polynomial.Instruction.Numbers
use polynomial.Word.{evaluate}
use polynomial.Assembly.Item.{AssemblyItem, AssemblyItems, op, push, tag, push_tag, undefined_item}
use polynomial.Assembly.Semantic.{is_case, terminating_instructions}
use polynomial.Assembly.Peephole.Machine.{
  Chain, Memory, Outcome, Next, stop, go, find_tag, jumped, jump_step, jumpi_step, proceed, op_step,
  step, perform, operate, applied, returned, with_world, dup, swap, split_stack, fault, halted,
}

module _ (c : Chain) (HasMemory : c.World → Type 0) where
  open c use {World, address}

  abbrev pub KeepsMemory : Type 0
  KeepsMemory =
      (i : Instruction) (args : List ℕ) (w : World) → HasMemory w → HasMemory (c.effect i args w).1

module _ (c : Chain) (HasMemory : c.World → Type 0) (keeps : KeepsMemory c HasMemory) where
  open c use {World, address}

  applied-HasMemory :
      (i : Instruction) (p : Option (List ℕ × List ℕ)) (w : World) (m : Memory c)
      → HasMemory w
      → applied c i p w ≡ some m
      → HasMemory m.1
  applied-HasMemory i none w m there h = none_ne_some h
  applied-HasMemory i (some p) w m there h = elim (Option-cases (evaluate i p.0)) [
    | inl e ↦
        subst (λ (q : Memory c). HasMemory q.1)
          (some_inj (sym (ap (λ v. some (returned c v i p.0 p.1 w)) e) ∙ h)) (keeps i p.0 w there)
    | inr (v, e) ↦
        subst (λ (q : Memory c). HasMemory q.1)
          (some_inj (sym (ap (λ v. some (returned c v i p.0 p.1 w)) e) ∙ h)) there
  ]

  with_world-HasMemory :
      (o : Option (List ℕ)) (w : World) (m : Memory c)
      → HasMemory w
      → with_world c o w ≡ some m
      → HasMemory m.1
  with_world-HasMemory none w m there h = none_ne_some h
  with_world-HasMemory (some s) w m there h =
      subst (λ (q : Memory c). HasMemory q.1) (some_inj h) there

  operate-HasMemory :
      (i : Instruction) (m m' : Memory c) → HasMemory m.1 → operate c i m ≡ some m' → HasMemory m'.1
  unfolding operate
  operate-HasMemory i (s, w) m' there h = elim (Bool-cases (Numbers.is_dup_instruction i)) [
    | inl t ↦ with_world-HasMemory (dup (Numbers.get_dup_number i) s) w m' there (rw t at h)
    | inr f ↦ elim (Bool-cases (Numbers.is_swap_instruction i)) [
      | inl t ↦
          with_world-HasMemory (swap (Numbers.get_swap_number i) s) w m' there (rw (f, t) at h)
      | inr g ↦
          applied-HasMemory i (split_stack (instruction_info i).args s) w m' there (rw (f, g) at h)
    ]
  ]

  go_inj : (r r' : AssemblyItems) (m m' : Memory c) → ◌≡◌ {A = Next c} (go r m) (go r' m') → m ≡ m'
  go_inj r r' m m' h = cc

  go_memory :
      (r r' : AssemblyItems) (m m' : Memory c)
      → HasMemory m.1
      → ◌≡◌ {A = Next c} (go r m) (go r' m')
      → HasMemory m'.1
  go_memory r r' m m' there h = subst (λ (q : Memory c). HasMemory q.1) (go_inj r r' m m' h) there

  stop_ne_go :
      {A : Type 0} (o : Outcome c) (r : AssemblyItems) (m : Memory c)
      → ◌≡◌ {A = Next c} (stop o) (go r m)
      → A
  stop_ne_go o r m h = cc

  proceed-HasMemory :
      (rest r : AssemblyItems) (o : Option (Memory c)) (m' : Memory c)
      → ((m : Memory c) → o ≡ some m → HasMemory m.1)
      → proceed c rest o ≡ go r m'
      → HasMemory m'.1
  proceed-HasMemory rest r none m' there h = stop_ne_go fault r m' h
  proceed-HasMemory rest r (some m) m' there h = go_memory rest r m m' (there m refl) h

  jumped-HasMemory :
      (o : Option AssemblyItems) (r : AssemblyItems) (m m' : Memory c)
      → HasMemory m.1
      → jumped c o m ≡ go r m'
      → HasMemory m'.1
  jumped-HasMemory none r m m' there h = stop_ne_go fault r m' h
  jumped-HasMemory (some items) r m m' there h = go_memory items r m m' there h

  jump_step-HasMemory :
      (program r : AssemblyItems) (m m' : Memory c)
      → HasMemory m.1
      → jump_step c program m ≡ go r m'
      → HasMemory m'.1
  jump_step-HasMemory program r ([], w) m' there h = stop_ne_go fault r m' h
  jump_step-HasMemory program r (target ∷ s, w) m' there h =
      jumped-HasMemory (find_tag address target program) r (s, w) m' there h

  jumpi_step-HasMemory :
      (program rest r : AssemblyItems) (m m' : Memory c)
      → HasMemory m.1
      → jumpi_step c program rest m ≡ go r m'
      → HasMemory m'.1
  jumpi_step-HasMemory program rest r ([], w) m' there h = stop_ne_go fault r m' h
  jumpi_step-HasMemory program rest r (target ∷ [], w) m' there h = stop_ne_go fault r m' h
  jumpi_step-HasMemory program rest r (target ∷ cond ∷ s, w) m' there h =
      elim (Bool-cases (cond == 0)) [
        | inl t ↦ go_memory rest r (s, w) m' there (rw t at h)
        | inr f ↦ jumped-HasMemory (find_tag address target program) r (s, w) m' there (rw f at h)
      ]

  op_step-HasMemory :
      (program : AssemblyItems) (i : Instruction) (rest r : AssemblyItems) (m m' : Memory c)
      → HasMemory m.1
      → op_step c program i rest m ≡ go r m'
      → HasMemory m'.1
  unfolding op_step
  op_step-HasMemory program i rest r m m' there h = elim (Bool-cases (i == Instruction.jump)) [
    | inl t ↦ jump_step-HasMemory program r m m' there (rw t at h)
    | inr f ↦ elim (Bool-cases (i == Instruction.jumpi)) [
      | inl t ↦ jumpi_step-HasMemory program rest r m m' there (rw (f, t) at h)
      | inr g ↦ elim (Bool-cases (is_case terminating_instructions i)) [
        | inl t ↦ stop_ne_go (halted i m) r m' (rw (f, g, t) at h)
        | inr k ↦
            proceed-HasMemory rest r (operate c i m) m' (λ n e. operate-HasMemory i m n there e)
              (rw (f, g, k) at h)
      ]
    ]
  ]

  some_memory :
      (s : List ℕ) (w : World) (m : Memory c) → HasMemory w → some (s, w) ≡ some m → HasMemory m.1
  some_memory s w m there h = subst (λ (q : Memory c). HasMemory q.1) (some_inj h) there

  perform-HasMemory :
      (item : AssemblyItem) (m m' : Memory c)
      → HasMemory m.1
      → perform c item m ≡ some m'
      → HasMemory m'.1
  unfolding perform
  perform-HasMemory (op i a) m m' there h = operate-HasMemory i m m' there h
  perform-HasMemory (undefined_item d a) (s, w) m' there h = none_ne_some h
  perform-HasMemory (push d a) (s, w) m' there h = some_memory _ w m' there h
  perform-HasMemory (push_tag d a) (s, w) m' there h = some_memory _ w m' there h
  perform-HasMemory (tag d a) (s, w) m' there h = some_memory s w m' there h
  perform-HasMemory item (s, w) m' there h = some_memory _ w m' there h

  pub step-HasMemory :
      (program : AssemblyItems) (item : AssemblyItem) (rest r : AssemblyItems) (m m' : Memory c)
      → HasMemory m.1
      → step c program item rest m ≡ go r m'
      → HasMemory m'.1
  unfolding step
  step-HasMemory program (op i a) rest r m m' there h =
      op_step-HasMemory program i rest r m m' there h
  step-HasMemory program item rest r m m' there h =
      proceed-HasMemory rest r (perform c item m) m' (λ n e. perform-HasMemory item m n there e) h
