-- ===== src/Assembly/Peephole/Masks.antt =====
-- The methods TagConjunctions and TruthyAnd.
use polynomial.Prelude.{
  ℕ, ◌≡◌, refl, sym, ap, ◌∙◌, true, false, some, List, [], ◌∷◌, All, arith, none_ne_some, bit_and,
}
use polynomial.Instruction
use polynomial.Instruction.{Instruction}
use polynomial.Instruction.Info.{instruction_info}
use polynomial.Instruction.Numbers
use polynomial.Word.Laws.{and-mask, and-max_word}
use polynomial.Word.{IsWord, evaluate}
use polynomial.Assembly.Item.{
  Annotation, AssemblyItem, AssemblyItems, op, push, push_tag, is_instruction,
}
use polynomial.Assembly.Semantic.{alters_control_flow}
use polynomial.Assembly.Peephole.{tag_conjunctions, truthy_and}
use polynomial.Assembly.Peephole.Machine.{Chain, Memory, perform, operate}
use polynomial.Assembly.Peephole.Plain.{IsPlain, is_instruction-eq, perform_all}
use polynomial.Assembly.Peephole.Keeps.{Keeps}

module _ (c : Chain) where
  open c use {address, address_small}

  alone-IsPlain :
      (i : Instruction) (a : Annotation) → alters_control_flow (op i a) ≡ false → IsPlain (op i a)
  alone-IsPlain i a h = (h, refl)

  tag_conjunctions-same :
      (t d : ℕ) (a b p : Annotation)
      → bit_and d 0xFFFFFFFF ≡ 0xFFFFFFFF
      → Keeps c (push_tag t a ∷ push d b ∷ op Instruction.and p ∷ []) (push_tag t a ∷ [])
  unfolding perform_all perform operate evaluate instruction_info Numbers.is_swap_instruction
      Numbers.is_dup_instruction alters_control_flow
  tag_conjunctions-same t d a b p h = record {
    plain = ((refl, refl), ((refl, refl), ((refl, refl), tt)));
    still_plain = ((refl, refl), tt);
    same = λ s w m words e.
        ap (λ (v : ℕ). some (v ∷ s, w)) (sym (and-mask 32 d (address t) h (address_small t))) ∙ e;
  }

  pub tag_conjunctions-Keeps :
      (x y z : AssemblyItem) (out : AssemblyItems)
      → tag_conjunctions x y z ≡ some out
      → Keeps c (x ∷ y ∷ z ∷ []) out
  unfolding tag_conjunctions
  tag_conjunctions-Keeps (push_tag t a) (push d b) z out h =
      let masks : (bit_and d 0xFFFFFFFF ≡ 0xFFFFFFFF) = ground arith in
      let last : (is_instruction z Instruction.and ≡ true) = ground arith in
      let e : (out ≡ push_tag t a ∷ []) = ground arith in
      let (p, f) = is_instruction-eq z Instruction.and last in
      rw (f, e) (tag_conjunctions-same t d a b p masks)
  tag_conjunctions-Keeps (push_tag t a) y z out h = none_ne_some h
  tag_conjunctions-Keeps x y z out h = none_ne_some h

  truthy_and-same :
      (a b p : Annotation)
      → Keeps c (push 0 a ∷ op Instruction.not b ∷ op Instruction.and p ∷ []) []
  unfolding perform_all perform operate evaluate instruction_info Numbers.is_swap_instruction
      Numbers.is_dup_instruction alters_control_flow
  truthy_and-same a b p = record {
    plain = ((refl, refl), ((refl, refl), ((refl, refl), tt)));
    still_plain = tt;
    same = masked;
  }
    where
      masked :
          (s : List ℕ) (w : c.World) (m : Memory c)
          → All IsWord s
          → perform_all c (push 0 a ∷ op Instruction.not b ∷ op Instruction.and p ∷ []) (s, w)
            ≡ some m
          → perform_all c [] (s, w) ≡ some m
      masked [] w m words e = none_ne_some e
      masked (x ∷ s) w m words e =
          ap (λ (v : ℕ). some (v ∷ s, w)) (sym (and-max_word x words.0)) ∙ e

  pub truthy_and-Keeps :
      (x y z : AssemblyItem) (out : AssemblyItems)
      → truthy_and x y z ≡ some out
      → Keeps c (x ∷ y ∷ z ∷ []) out
  unfolding truthy_and
  truthy_and-Keeps (push d a) y z out h =
      let null : (d ≡ 0) = ground arith in
      let middle : (is_instruction y Instruction.not ≡ true) = ground arith in
      let last : (is_instruction z Instruction.and ≡ true) = ground arith in
      let empty : (out ≡ []) = ground arith in
      let (b, f) = is_instruction-eq y Instruction.not middle in
      let (p, g) = is_instruction-eq z Instruction.and last in
      rw (null, f, g, empty) (truthy_and-same a b p)
  truthy_and-Keeps x y z out h = none_ne_some h
