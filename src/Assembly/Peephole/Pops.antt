-- ===== src/Assembly/Peephole/Pops.antt =====
-- The methods PushPop, OpPop and DoublePush.
use polynomial.Prelude.{
  ℕ, zero, suc, ◌-◌, ◌≡◌, refl, sym, ap, ap₂, ◌∙◌, true, false, ◌||◌, Option, none, some, List, [],
  ◌∷◌, ◌++◌, ◌==◌, ==_iff, length, get_elem?, All, arith, Bool-cases, Option-cases, inl, inr,
  some_inj, none_ne_some, replicate,
}
use polynomial.Instruction
use polynomial.Instruction.{Instruction}
use polynomial.Instruction.Info.{instruction_info}
use polynomial.Instruction.Numbers
use polynomial.Word.{evaluate}
use polynomial.Assembly.Item.{
  Annotation, AssemblyItem, AssemblyItems, op, undefined_item, push, push_tag, tag, is_instruction,
  located,
}
use polynomial.Assembly.Semantic
use polynomial.Assembly.Semantic.{
  is_case, is_case-cases, terminating_instructions, alters_control_flow,
}
use polynomial.Assembly.Peephole.{push_pop, op_pop, double_push, only_pushes}
use polynomial.Assembly.Peephole.Machine.{
  Chain, Memory, perform, operate, applied, returned, split_stack,
}
use polynomial.Assembly.Peephole.Plain.{
  IsPlain, is_instruction-eq, quiet-IsPlain, dup-IsPlain, ret_one, perform_all-two, perform_all,
  perform-pop, perform-op, perform_all-pops,
}
use polynomial.Assembly.Peephole.Keeps.{Keeps}

module _ (c : Chain) where
  open c use {World, effect, address, value, effect_ret, effect_quiet}

  -- PUSH and POP, DUP and POP.

  -- An item that only pushes, or copies a value, puts one value on top of the stack.
  pushes_one :
      (a : AssemblyItem) (s : List ℕ) (w : World) (m : Memory c)
      → (Semantic.is_dup_instruction a || only_pushes a) ≡ true
      → perform c a (s, w) ≡ some m
      → (v : ℕ) × (m ≡ (v ∷ s, w))
  unfolding perform operate Semantic.is_dup_instruction
  pushes_one (op i a) s w m h e = elim (Option-cases (get_elem? s (Numbers.get_dup_number i - 1))) [
    | inl missing ↦
        let d : (Numbers.is_dup_instruction i ≡ true) = ground arith in
        let fails : (perform c (op i a) (s, w) ≡ none) = rw (d, missing) in
        none_ne_some (sym fails ∙ e)
    | inr (v, found) ↦
        let d : (Numbers.is_dup_instruction i ≡ true) = ground arith in
        let works : (perform c (op i a) (s, w) ≡ some (v ∷ s, w)) = rw (d, found) in
        (v, some_inj (sym e ∙ works))
  ]
  pushes_one (undefined_item d a) s w m h e = none_ne_some e
  pushes_one (push d a) s w m h e = (d, sym (some_inj e))
  pushes_one (push_tag d a) s w m h e = (address d, sym (some_inj e))
  pushes_one (tag d a) s w m h e = cc
  pushes_one item s w m h e = (value item, sym (some_inj e))

  pushes_one-IsPlain :
      (a : AssemblyItem) → (Semantic.is_dup_instruction a || only_pushes a) ≡ true → IsPlain a
  unfolding Semantic.is_dup_instruction alters_control_flow
  pushes_one-IsPlain (op i a) h = dup-IsPlain i a (ground arith)
  pushes_one-IsPlain (tag d a) h = cc
  pushes_one-IsPlain item h = (refl, refl)

  pub pop-IsPlain : (a : Annotation) → IsPlain (op Instruction.pop a)
  unfolding instruction_info
  pop-IsPlain a = quiet-IsPlain Instruction.pop a refl

  push_pop-parts :
      (a b : AssemblyItem) (out : AssemblyItems)
      → push_pop a b ≡ some out
      → (is_instruction b Instruction.pop ≡ true)
        × ((Semantic.is_dup_instruction a || only_pushes a) ≡ true)
        × (out ≡ [])
  unfolding push_pop
  push_pop-parts a b out h = ground arith

  push_pop-op :
      (a : AssemblyItem) (p : Annotation)
      → (Semantic.is_dup_instruction a || only_pushes a) ≡ true
      → Keeps c (a ∷ op Instruction.pop p ∷ []) []
  unfolding perform_all
  push_pop-op a p h = record {
    plain = (pushes_one-IsPlain a h, (pop-IsPlain p, tt));
    still_plain = tt;
    same = λ s w m words e.
        let (m₁, e₁, e₂) = perform_all-two c a (op Instruction.pop p) (s, w) m e in
        let (v, q) = pushes_one a s w m₁ h e₁ in
        sym (perform-pop c p v s w) ∙ ap (perform c (op Instruction.pop p)) (sym q) ∙ e₂;
  }

  pub push_pop-Keeps :
      (a b : AssemblyItem) (out : AssemblyItems)
      → push_pop a b ≡ some out
      → Keeps c (a ∷ b ∷ []) out
  push_pop-Keeps a b out h =
      let (is_pop, pushes, empty) = push_pop-parts a b out h in
      let (p, e) = is_instruction-eq b Instruction.pop is_pop in
      rw (e, empty) (push_pop-op a p pushes)

  -- An operation with one result and no side effects, and POP.

  pops-IsPlain : (n : ℕ) (a : Annotation) → All IsPlain (replicate n (op Instruction.pop a))
  pops-IsPlain zero a = tt
  pops-IsPlain (suc n) a = (pop-IsPlain a, pops-IsPlain n a)

  one_value : (xs : List ℕ) → length xs ≡ 1 → (v : ℕ) × (xs ≡ v ∷ [])
  one_value [] h = absurd (omega arith)
  one_value (x ∷ []) h = (x, refl)
  one_value (x ∷ y ∷ xs) h = absurd (omega arith)

  returned-one :
      (i : Instruction) (args s : List ℕ) (w : World) (o : Option ℕ)
      → (instruction_info i).ret ≡ 1
      → (instruction_info i).side_effects ≡ false
      → (v : ℕ) × (returned c o i args s w ≡ (v ∷ s, w))
  returned-one i args s w (some v) one quiet = (v, refl)
  returned-one i args s w none one quiet =
      let (v, e) = one_value (effect i args w).0 (effect_ret i args w ∙ one) in
      (v, ap₂ (λ (xs : List ℕ) (u : World). (xs ++ s, u)) e (effect_quiet i args w quiet))

  op_pop-op :
      (i : Instruction) (a p q : Annotation)
      → (instruction_info i).ret ≡ 1
      → (instruction_info i).side_effects ≡ false
      → Keeps c
          (op i a ∷ op Instruction.pop p ∷ [])
          (replicate (instruction_info i).args (op Instruction.pop q))
  op_pop-op i a p q one quiet = record {
    plain = (quiet-IsPlain i a quiet, (pop-IsPlain p, tt));
    still_plain = pops-IsPlain (instruction_info i).args q;
    same = λ s w m words e.
        let (m₁, e₁, e₂) = perform_all-two c (op i a) (op Instruction.pop p) (s, w) m e in
        let (d, x) = ret_one i one in
        let taken = sym (perform-op c i a s w d x) ∙ e₁ in
        elim (Option-cases (split_stack (instruction_info i).args s)) [
          | inl missing ↦ none_ne_some (sym (ap (λ o. applied c i o w) missing) ∙ taken)
          | inr (parts, found) ↦
              let (v, r) = returned-one i parts.0 parts.1 w (evaluate i parts.0) one quiet in
              let middle : (m₁ ≡ (v ∷ parts.1, w)) =
                some_inj (sym taken ∙ ap (λ o. applied c i o w) found ∙ ap some r) in
              perform_all-pops c (instruction_info i).args q s parts.0 parts.1 w found
              ∙ sym (perform-pop c p v parts.1 w)
              ∙ ap (perform c (op Instruction.pop p)) (sym middle)
              ∙ e₂
        ];
  }

  op_pop-parts :
      (i : Instruction) (a : Annotation) (b : AssemblyItem) (out : AssemblyItems)
      → op_pop (op i a) b ≡ some out
      → (is_instruction b Instruction.pop ≡ true)
        × ((instruction_info i).ret ≡ 1)
        × ((instruction_info i).side_effects ≡ false)
        × (out ≡ replicate (instruction_info i).args (op Instruction.pop (located a.location)))
  unfolding op_pop
  op_pop-parts i a b out h = ground arith

  pub op_pop-Keeps :
      (a b : AssemblyItem) (out : AssemblyItems) → op_pop a b ≡ some out → Keeps c (a ∷ b ∷ []) out
  unfolding op_pop
  op_pop-Keeps (op i a) b out h =
      let (is_pop, one, quiet, e) = op_pop-parts i a b out h in
      let (p, f) = is_instruction-eq b Instruction.pop is_pop in
      rw (f, e) (op_pop-op i a p (located a.location) one quiet)
  op_pop-Keeps (push d a) b out h = none_ne_some h
  op_pop-Keeps item b out h = none_ne_some h

  -- A PUSH of the value that has just been pushed.

  dup1-IsPlain : (a : Annotation) → IsPlain (op Instruction.dup1 a)
  unfolding Numbers.is_dup_instruction
  dup1-IsPlain a = dup-IsPlain Instruction.dup1 a refl

  double_push-same :
      (d : ℕ) (a b q : Annotation)
      → Keeps c (push d a ∷ push d b ∷ []) (push d a ∷ op Instruction.dup1 q ∷ [])
  unfolding perform_all perform operate Numbers.is_dup_instruction Numbers.get_dup_number
      alters_control_flow
  double_push-same d a b q = record {
    plain = ((refl, refl), ((refl, refl), tt));
    still_plain = ((refl, refl), (dup1-IsPlain q, tt));
    same = λ s w m words e. e;
  }

  pub double_push-Keeps :
      (a b : AssemblyItem) (out : AssemblyItems)
      → double_push a b ≡ some out
      → Keeps c (a ∷ b ∷ []) out
  unfolding double_push
  double_push-Keeps (push d a) (push e b) out h = elim (Bool-cases (d == e)) [
    | inl equal ↦
        let f : (d ≡ e) = (==_iff d e).0 equal in
        let o : (out ≡ push d a ∷ op Instruction.dup1 (located b.location) ∷ []) =
          some_inj (sym h ∙ rw equal) in
        rw (← f, o) (double_push-same d a b (located b.location))
    | inr differs ↦ none_ne_some (sym (rw differs) ∙ h)
  ]
  double_push-Keeps (push d a) b out h = none_ne_some h
  double_push-Keeps a b out h = none_ne_some h
