-- ===== src/Assembly/Constants/Sound.antt =====
-- The check of a routine against the stack machine: what it accepts runs to the same stack.
use mathlib.Core.Path.{subst}
use polynomial.Prelude.{
  ℕ, ◌+◌, ◌-◌, ◌*◌, ◌/◌, ◌%◌, ◌^◌, ◌≤◌, ◌<◌, ◌≡◌, refl, sym, ap, ◌∙◌, false, ◌&&◌, some, List, [],
  ◌∷◌, ◌==◌, ==_iff, ltb, leb, if◌then◌else◌, Bool-cases, inl, inr, ◌⊎◌, leb→le, length, All, both,
  arith,
}
use polynomial.Instruction
use polynomial.Instruction.{Instruction}
use polynomial.Instruction.Info.{instruction_info}
use polynomial.Instruction.Numbers
use polynomial.Version.{has_bitwise_shifting}
use polynomial.Word
use polynomial.Word.{evaluate}
use polynomial.Word.Powers.{exp-eq-pow}
use polynomial.Assembly.Item.{Annotation, AssemblyItem, AssemblyItems, op, push, arguments}
use polynomial.Assembly.Semantic.{alters_control_flow}
use polynomial.Assembly.Peephole.Machine.{Chain, perform, operate}
use polynomial.Assembly.Peephole.Plain.{IsPlain, perform_all, quiet-IsPlain}
use polynomial.Assembly.Constants.{Params}
use polynomial.Assembly.Constants.Compute.{
  Checked, refused, thrown, stack, and_then, binary, unary, checked_power, checked_shift,
  checked_operation, checked_item, checked_items,
}

-- Inversion of one test of the instruction.
tested :
    (i k : Instruction) (x y : Checked) (t : List ℕ)
    → (if i == k then x else y) ≡ stack t
    → ((k ≡ i) × (x ≡ stack t)) ⊎ (y ≡ stack t)
tested i k x y t h = elim (Bool-cases (i == k)) [
  | inl same ↦ inl (sym ((==_iff i k).0 same), sym (rw same) ∙ h)
  | inr other ↦ inr (sym (rw other) ∙ h)
]

refused_ne : {A : Type 0} {t : List ℕ} → refused ≡ stack t → A
refused_ne h = cc

thrown_ne : {A : Type 0} {t : List ℕ} → thrown ≡ stack t → A
thrown_ne h = cc

stack_inj : {s t : List ℕ} → stack s ≡ stack t → s ≡ t
stack_inj h = cc

module _ (c : Chain) (p : Params) where
  open c use {World}

  -- What an accepted item does on the machine.
  abbrev Runs : AssemblyItem → List ℕ → List ℕ → Type 0
  Runs item s t = ((w : World) → perform c item (s, w) ≡ some (t, w)) × IsPlain item

  binary-Runs :
      (i : Instruction) (n : Annotation) (f : ℕ → ℕ → ℕ)
      → (instruction_info i).side_effects ≡ false
      → ((a b : ℕ) (s : List ℕ) (w : World)
          → perform c (op i n) (a ∷ b ∷ s, w) ≡ some (f a b ∷ s, w))
      → (s t : List ℕ) → binary f s ≡ stack t
      → Runs (op i n) s t
  binary-Runs i n f quiet each [] t h = refused_ne h
  binary-Runs i n f quiet each (a ∷ []) t h = refused_ne h
  binary-Runs i n f quiet each (a ∷ b ∷ s) t h =
      (λ w. each a b s w ∙ ap (λ (t : List ℕ). some (t, w)) (stack_inj h), quiet-IsPlain i n quiet)

  -- The machine computes what the check computes.
  mul_performs :
      (n : Annotation) (a b : ℕ) (s : List ℕ) (w : World)
      → perform c (op Instruction.mul n) (a ∷ b ∷ s, w) ≡ some (a * b % 2 ^ 256 ∷ s, w)
  unfolding perform operate evaluate Word.mul instruction_info Numbers.is_dup_instruction
      Numbers.is_swap_instruction
  mul_performs n a b s w = refl

  add_performs :
      (n : Annotation) (a b : ℕ) (s : List ℕ) (w : World)
      → perform c (op Instruction.add n) (a ∷ b ∷ s, w) ≡ some ((a + b) % 2 ^ 256 ∷ s, w)
  unfolding perform operate evaluate Word.add instruction_info Numbers.is_dup_instruction
      Numbers.is_swap_instruction
  add_performs n a b s w = refl

  sub_performs :
      (n : Annotation) (a b : ℕ) (s : List ℕ) (w : World)
      → perform c (op Instruction.sub n) (a ∷ b ∷ s, w) ≡ some ((a + 2 ^ 256 - b) % 2 ^ 256 ∷ s, w)
  unfolding perform operate evaluate Word.sub instruction_info Numbers.is_dup_instruction
      Numbers.is_swap_instruction
  sub_performs n a b s w = refl

  exp_performs :
      (n : Annotation) (a b : ℕ) (s : List ℕ) (w : World)
      → perform c (op Instruction.exp n) (a ∷ b ∷ s, w) ≡ some (Word.exp a b ∷ s, w)
  unfolding perform operate evaluate instruction_info Numbers.is_dup_instruction
      Numbers.is_swap_instruction
  exp_performs n a b s w = refl

  shl_performs :
      (n : Annotation) (a b : ℕ) (s : List ℕ) (w : World)
      → perform c (op Instruction.shl n) (a ∷ b ∷ s, w) ≡ some (Word.shl a b ∷ s, w)
  unfolding perform operate evaluate instruction_info Numbers.is_dup_instruction
      Numbers.is_swap_instruction
  shl_performs n a b s w = refl

  shr_performs :
      (n : Annotation) (a b : ℕ) (s : List ℕ) (w : World)
      → perform c (op Instruction.shr n) (a ∷ b ∷ s, w) ≡ some (Word.shr a b ∷ s, w)
  unfolding perform operate evaluate instruction_info Numbers.is_dup_instruction
      Numbers.is_swap_instruction
  shr_performs n a b s w = refl

  not_performs :
      (n : Annotation) (a : ℕ) (s : List ℕ) (w : World)
      → perform c (op Instruction.not n) (a ∷ s, w) ≡ some ((2 ^ 256 - 1 - a) ∷ s, w)
  unfolding perform operate evaluate Word.not instruction_info Numbers.is_dup_instruction
      Numbers.is_swap_instruction
  not_performs n a s w = refl

  not-Runs :
      (n : Annotation) (s t : List ℕ)
      → unary (λ a. 2 ^ 256 - 1 - a) s ≡ stack t
      → Runs (op Instruction.not n) s t
  unfolding instruction_info
  not-Runs n [] t h = refused_ne h
  not-Runs n (a ∷ s) t h = (
    λ w. not_performs n a s w ∙ ap (λ (t : List ℕ). some (t, w)) (stack_inj h),
    quiet-IsPlain Instruction.not n refl,
  )

  power-Runs :
      (n : Annotation) (s t : List ℕ) → checked_power s ≡ stack t → Runs (op Instruction.exp n) s t
  unfolding instruction_info
  power-Runs n [] t h = refused_ne h
  power-Runs n (a ∷ []) t h = refused_ne h
  power-Runs n (a ∷ b ∷ s) t h = elim (Bool-cases (ltb 0xff b)) [
    | inl large ↦ refused_ne (sym (rw large) ∙ h)
    | inr small ↦
        let word : (b < 2 ^ 256) = ground arith in
        (
          λ w.
              exp_performs n a b s w
              ∙ ap (λ (v : ℕ). some (v ∷ s, w)) (exp-eq-pow a b word)
              ∙ ap (λ (t : List ℕ). some (t, w)) (stack_inj (sym (rw small) ∙ h)),
          quiet-IsPlain Instruction.exp n refl,
        )
  ]

  shift-Runs :
      (i : Instruction) (n : Annotation) (shift : ℕ → ℕ → ℕ)
      → (instruction_info i).side_effects ≡ false
      → ((a b : ℕ) (s : List ℕ) (w : World)
          → a ≤ 255
          → perform c (op i n) (a ∷ b ∷ s, w) ≡ some (shift a b ∷ s, w))
      → (s t : List ℕ) → checked_shift p shift s ≡ stack t
      → Runs (op i n) s t
  shift-Runs i n shift quiet each [] t h = refused_ne h
  shift-Runs i n shift quiet each (a ∷ []) t h = refused_ne h
  shift-Runs i n shift quiet each (a ∷ b ∷ s) t h =
      elim (Bool-cases (has_bitwise_shifting p.svm_version && leb a 255)) [
        | inl fine ↦ (
          λ w.
              each a b s w (leb→le a 255 (both fine).1)
              ∙ ap (λ (t : List ℕ). some (t, w)) (stack_inj (sym (rw fine) ∙ h)),
          quiet-IsPlain i n quiet,
        )
        | inr bad ↦ thrown_ne (sym (rw bad) ∙ h)
      ]

  shl_small :
      (n : Annotation) (a b : ℕ) (s : List ℕ) (w : World)
      → a ≤ 255
      → perform c (op Instruction.shl n) (a ∷ b ∷ s, w) ≡ some (b * 2 ^ a % 2 ^ 256 ∷ s, w)
  unfolding Word.shl
  shl_small n a b s w h =
      let small : (ltb 255 a ≡ false) = ground arith in shl_performs n a b s w ∙ rw small refl

  shr_small :
      (n : Annotation) (a b : ℕ) (s : List ℕ) (w : World)
      → a ≤ 255
      → perform c (op Instruction.shr n) (a ∷ b ∷ s, w) ≡ some (b / 2 ^ a ∷ s, w)
  unfolding Word.shr
  shr_small n a b s w h =
      let small : (ltb 255 a ≡ false) = ground arith in shr_performs n a b s w ∙ rw small refl

  abbrev Next : Instruction → List ℕ → List ℕ → Checked → Type 0
  Next i s t x = x ≡ stack t → (n : Annotation) → Runs (op i n) s t

  choose :
      (i k : Instruction) (s t : List ℕ) (x y : Checked)
      → Next k s t x
      → Next i s t y
      → Next i s t (if i == k then x else y)
  choose i k s t x y this others h n = elim (tested i k x y t h) [
    | inl (same, e) ↦ subst (λ (j : Instruction). Runs (op j n) s t) same (this e n)
    | inr e ↦ others e n
  ]

  operation-Runs : (i : Instruction) (s t : List ℕ) → Next i s t (checked_operation p i s)
  unfolding instruction_info
  operation-Runs i s t =
      choose i Instruction.mul s t _ _
        (λ h n. binary-Runs Instruction.mul n _ refl (mul_performs n) s t h)
        (choose i Instruction.exp s t _ _ (λ h n. power-Runs n s t h)
          (choose i Instruction.add s t _ _
            (λ h n. binary-Runs Instruction.add n _ refl (add_performs n) s t h)
            (choose i Instruction.sub s t _ _
              (λ h n. binary-Runs Instruction.sub n _ refl (sub_performs n) s t h)
              (choose i Instruction.not s t _ _ (λ h n. not-Runs n s t h)
                (choose i Instruction.shl s t _ _
                  (λ h n. shift-Runs Instruction.shl n _ refl (shl_small n) s t h)
                  (choose i Instruction.shr s t _ _
                    (λ h n. shift-Runs Instruction.shr n _ refl (shr_small n) s t h)
                    (λ h n. refused_ne h)))))))

  item-Runs : (item : AssemblyItem) (s t : List ℕ) → checked_item p item s ≡ stack t → Runs item s t
  unfolding checked_item perform alters_control_flow
  item-Runs (op i n) s t h = elim (Bool-cases (ltb (length s) (arguments (op i n)))) [
    | inl few ↦ refused_ne (sym (rw few) ∙ h)
    | inr enough ↦ operation-Runs i s t (sym (rw enough) ∙ h) n
  ]
  item-Runs (push d n) s t h = (λ w. ap (λ (t : List ℕ). some (t, w)) (stack_inj h), (refl, refl))
  item-Runs _ s t h = refused_ne h

  next_stack :
      (x : Checked) (k : List ℕ → Checked) (t : List ℕ)
      → and_then x k ≡ stack t
      → (s : List ℕ) × (x ≡ stack s) × (k s ≡ stack t)
  next_stack refused k t h = refused_ne h
  next_stack thrown k t h = thrown_ne h
  next_stack (stack s) k t h = (s, refl, h)

  pub checked-runs :
      (items : AssemblyItems) (s t : List ℕ)
      → checked_items p items s ≡ stack t
      → All IsPlain items × ((w : World) → perform_all c items (s, w) ≡ some (t, w))
  unfolding checked_items perform_all
  checked-runs [] s t h = (tt, λ w. ap (λ (t : List ℕ). some (t, w)) (stack_inj h))
  checked-runs (item ∷ items) s t h =
      let (middle, one, rest) = next_stack (checked_item p item s) (checked_items p items) t h in
      let (first, plain) = item-Runs item s middle one in
      let (others, all) = checked-runs items middle t rest in
      ((plain, others), λ w. rw (first w) (all w))

-- Where the check of a routine comes to a stack, the machine has the same stack after the items of
-- the routine, and the state of the world is what it was, whatever version the check is for.
pub perform_all-checked_items :
    (c : Chain) (p : Params) (items : AssemblyItems) (s t : List ℕ) (w : c.World)
    → checked_items p items s ≡ stack t
    → perform_all c items (s, w) ≡ some (t, w)
perform_all-checked_items c p items s t w h = (checked-runs c p items s t h).1 w
