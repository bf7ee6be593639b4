-- ===== src/Assembly/Peephole/Plain.antt =====
-- Items that neither move control nor can be jumped to, and what a row of them does.
use mathlib.Core.Bool.{false≢true}
use polynomial.Prelude.{
  ℕ, zero, suc, ◌<◌, ◌≡◌, refl, sym, ap, ap₂, ◌∙◌, Bool, true, false, not, ◌&&◌, ◌||◌, Option, none,
  some, List, [], ◌∷◌, ◌++◌, ◌==◌, ==_iff, length, Every, done, ◌&◌, arith, Bool-cases,
  Option-cases, inl, inr, some_inj, none_ne_some, all_below, all_below_sound, replicate,
}
use polynomial.Instruction
use polynomial.Instruction.{Instruction}
use polynomial.Instruction.Info.{instruction_info}
use polynomial.Instruction.Numbers
use polynomial.Word.{evaluate}
use polynomial.Assembly.Item.{
  Annotation, AssemblyItem, AssemblyItems, op, undefined_item, push, push_string, push_tag,
  push_sub, push_sub_size, push_program_size, push_data, push_library_address,
  push_deploy_time_address, tag, is_instruction,
}
use polynomial.Assembly.Semantic.{is_case, is_case-cases, alters_control_flow}
use polynomial.Assembly.Peephole.Machine.{Chain, Memory, perform, operate, applied, split_stack}

abbrev pub is_tag : AssemblyItem → Bool
is_tag (tag _ _) = true
is_tag _ = false

-- Not a jump, an end of the run, or a tag.
abbrev pub IsPlain : AssemblyItem → Type 0
IsPlain item = (alters_control_flow item ≡ false) × (is_tag item ≡ false)

pub is_instruction-eq :
    (item : AssemblyItem) (i : Instruction)
    → is_instruction item i ≡ true
    → (a : Annotation) × (item ≡ op i a)
unfolding is_instruction
is_instruction-eq (op j a) i h = (a, ap (λ (k : Instruction). op k a) ((==_iff j i).0 h))
is_instruction-eq (undefined_item d a) i h = cc
is_instruction-eq (push d a) i h = cc
is_instruction-eq (push_string d a) i h = cc
is_instruction-eq (push_tag d a) i h = cc
is_instruction-eq (push_sub d a) i h = cc
is_instruction-eq (push_sub_size d a) i h = cc
is_instruction-eq (push_program_size d a) i h = cc
is_instruction-eq (tag d a) i h = cc
is_instruction-eq (push_data d a) i h = cc
is_instruction-eq (push_library_address d a) i h = cc
is_instruction-eq (push_deploy_time_address d a) i h = cc

abbrev pub control_instructions : List Instruction
control_instructions =
    Instruction.jump ∷ Instruction.jumpi ∷ Instruction.return ∷ Instruction.selfdestruct
    ∷ Instruction.stop ∷ Instruction.invalid ∷ Instruction.revert ∷ []

-- A test that fails of what ends the run or jumps.
op-IsPlain :
    (test : Instruction → Bool)
    → Every (λ (j : Instruction). test j ≡ false) control_instructions
    → (i : Instruction) (a : Annotation) → test i ≡ true
    → IsPlain (op i a)
unfolding alters_control_flow
op-IsPlain test fails i a h = elim (Bool-cases (alters_control_flow (op i a))) [
  | inl alters ↦ absurd (
      false≢true
        (sym (is_case-cases (λ j. test j ≡ false) control_instructions i fails alters) ∙ h))
  | inr stays ↦ (stays, refl)
]

-- What ends the run or jumps has side effects, by the table; it is no copy and no exchange.
pub alters-cases {κ} :
    (P : Instruction → Type κ) (i : Instruction) (a : Annotation)
    → Every P control_instructions
    → alters_control_flow (op i a) ≡ true
    → P i
unfolding alters_control_flow
alters-cases P i a ps h = is_case-cases P control_instructions i ps h

pub quiet-IsPlain :
    (i : Instruction) (a : Annotation)
    → (instruction_info i).side_effects ≡ false
    → IsPlain (op i a)
unfolding instruction_info
quiet-IsPlain i a h =
    op-IsPlain (λ j. not (instruction_info j).side_effects)
      (refl & refl & refl & refl & refl & refl & refl & done) i a (ap not h)

pub dup-IsPlain :
    (i : Instruction) (a : Annotation) → Numbers.is_dup_instruction i ≡ true → IsPlain (op i a)
unfolding Numbers.is_dup_instruction
dup-IsPlain =
    op-IsPlain Numbers.is_dup_instruction (refl & refl & refl & refl & refl & refl & refl & done)

pub swap-IsPlain :
    (i : Instruction) (a : Annotation) → Numbers.is_swap_instruction i ≡ true → IsPlain (op i a)
unfolding Numbers.is_swap_instruction
swap-IsPlain =
    op-IsPlain Numbers.is_swap_instruction (refl & refl & refl & refl & refl & refl & refl & done)

pub case-IsPlain :
    (cases : List Instruction)
    → Every (λ (j : Instruction). is_case cases j ≡ false) control_instructions
    → (i : Instruction) (a : Annotation) → is_case cases i ≡ true
    → IsPlain (op i a)
case-IsPlain cases = op-IsPlain (is_case cases)

-- Copies and exchanges return another number of values than one.
abbrev single_result : Instruction → Bool
single_result i = not (
    (Numbers.is_dup_instruction i || Numbers.is_swap_instruction i)
    && (instruction_info i).ret == 1)

single_results : all_below 256 single_result ≡ true
unfolding instruction_info Numbers.is_dup_instruction Numbers.is_swap_instruction
single_results = refl

byte_of :
    (i : Instruction)
    → (Numbers.is_dup_instruction i || Numbers.is_swap_instruction i) ≡ true
    → i < 256
unfolding Numbers.is_dup_instruction Numbers.is_swap_instruction
byte_of i h = ground arith

pub ret_one :
    (i : Instruction)
    → (instruction_info i).ret ≡ 1
    → (Numbers.is_dup_instruction i ≡ false) × (Numbers.is_swap_instruction i ≡ false)
ret_one i h = elim (Bool-cases (Numbers.is_dup_instruction i || Numbers.is_swap_instruction i)) [
  | inl copies ↦
      let checked = all_below_sound 256 single_result i single_results (byte_of i copies) in
      ground arith
  | inr plain ↦ ground arith
]

module _ (c : Chain) where
  open c use {World, effect, address, value, effect_ret, effect_quiet}

  abbrev pub then_perform : Option (Memory c) → (Memory c → Option (Memory c)) → Option (Memory c)
  then_perform none k = none
  then_perform (some m) k = k m

  -- A row of plain items.
  unfoldable pub perform_all : AssemblyItems → Memory c → Option (Memory c)
  perform_all [] m = some m
  perform_all (item ∷ items) m = then_perform (perform c item m) (perform_all items)

  no_values : (xs : List ℕ) → length xs ≡ 0 → xs ≡ []
  no_values [] h = refl
  no_values (x ∷ xs) h = absurd (omega arith)

  pub perform-pop :
      (a : Annotation) (v : ℕ) (s : List ℕ) (w : World)
      → perform c (op Instruction.pop a) (v ∷ s, w) ≡ some (s, w)
  unfolding perform operate evaluate instruction_info Numbers.is_dup_instruction
      Numbers.is_swap_instruction
  perform-pop a v s w =
      ap₂ (λ (xs : List ℕ) (u : World). some (xs ++ s, u))
        (no_values _ (effect_ret Instruction.pop (v ∷ []) w))
        (effect_quiet Instruction.pop (v ∷ []) w refl)

  pub perform-pop_empty :
      (a : Annotation) (w : World) → perform c (op Instruction.pop a) ([], w) ≡ none
  unfolding perform operate instruction_info Numbers.is_dup_instruction Numbers.is_swap_instruction
  perform-pop_empty a w = refl

  pub perform-op :
      (i : Instruction) (a : Annotation) (s : List ℕ) (w : World)
      → Numbers.is_dup_instruction i ≡ false
      → Numbers.is_swap_instruction i ≡ false
      → perform c (op i a) (s, w) ≡ applied c i (split_stack (instruction_info i).args s) w
  unfolding perform operate
  perform-op i a s w d x = rw (d, x)

  -- Popping as many values as an instruction takes leaves what lies under them.
  pub perform_all-pops :
      (n : ℕ) (a : Annotation) (s xs r : List ℕ) (w : World)
      → split_stack n s ≡ some (xs, r)
      → perform_all (replicate n (op Instruction.pop a)) (s, w) ≡ some (r, w)
  unfolding perform_all
  perform_all-pops zero a s xs r w h =
      ap (λ (t : List ℕ). some (t, w)) (ap (λ (p : List ℕ × List ℕ). p.1) (some_inj h))
  perform_all-pops (suc n) a [] xs r w h = none_ne_some h
  perform_all-pops (suc n) a (v ∷ s) xs r w h = elim (Option-cases (split_stack n s)) [
    | inl e ↦ none_ne_some (sym (rw e) ∙ h)
    | inr (p, e) ↦
        let popped : (p.1 ≡ r) = cc (e, h) in
        rw (perform-pop a v s w)
          (perform_all-pops n a s p.0 r w (e ∙ ap (λ (t : List ℕ). some (p.0, t)) popped))
  ]

  pub perform_all-append :
      (xs ys : AssemblyItems) (m : Memory c)
      → perform_all (xs ++ ys) m ≡ then_perform (perform_all xs m) (perform_all ys)
  unfolding perform_all
  perform_all-append [] ys m = refl
  perform_all-append (x ∷ xs) ys m = elim (Option-cases (perform c x m)) [
    | inl e ↦ rw e refl
    | inr (m', e) ↦ rw e (perform_all-append xs ys m')
  ]

  pub perform_all-two :
      (x y : AssemblyItem) (m m' : Memory c)
      → perform_all (x ∷ y ∷ []) m ≡ some m'
      → (m₁ : Memory c) × (perform c x m ≡ some m₁) × (perform c y m₁ ≡ some m')
  unfolding perform_all
  perform_all-two x y m m' h = elim (Option-cases (perform c x m)) [
    | inl e ↦ none_ne_some (sym (rw e) ∙ h)
    | inr (m₁, e) ↦ elim (Option-cases (perform c y m₁)) [
      | inl f ↦ none_ne_some (sym (rw (e, f)) ∙ h)
      | inr (m₂, f) ↦ (m₁, e, f ∙ sym (rw (e, f)) ∙ h)
    ]
  ]

  pub perform_all-three :
      (x y z : AssemblyItem) (m m' : Memory c)
      → perform_all (x ∷ y ∷ z ∷ []) m ≡ some m'
      → (m₁ : Memory c) × (perform c x m ≡ some m₁) × (perform_all (y ∷ z ∷ []) m₁ ≡ some m')
  unfolding perform_all
  perform_all-three x y z m m' h = elim (Option-cases (perform c x m)) [
    | inl e ↦ none_ne_some (sym (rw e) ∙ h)
    | inr (m₁, e) ↦ (m₁, e, sym (rw e) ∙ h)
  ]
