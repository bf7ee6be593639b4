-- ===== src/Assembly/Peephole/Swaps.antt =====
-- The methods DoubleSwap, CommutativeSwap and SwapComparison.
use mathlib.Core.Path.{subst₂}
use polynomial.Prelude.{
  ℕ, zero, suc, ◌-◌, ◌≡◌, refl, sym, ap, ◌∙◌, true, false, some, List, [], ◌∷◌, ◌==◌, ==_iff, Every,
  done, ◌&◌, get_elem?, set, arith, Bool-cases, Option-cases, inl, inr, some_inj, none_ne_some,
}
use polynomial.Instruction
use polynomial.Instruction.{Instruction}
use polynomial.Instruction.Info.{instruction_info}
use polynomial.Instruction.Numbers
use polynomial.Word.Laws.{
  add_comm, mul_word_comm, eq_comm, and_comm, or_comm, xor_comm, lt-eq-gt, slt-eq-sgt,
}
use polynomial.Word.{evaluate}
use polynomial.Assembly.Item.{
  Annotation, AssemblyItem, AssemblyItems, op, push, is_instruction, same_item, located,
  no_location,
}
use polynomial.Assembly.Semantic
use polynomial.Assembly.Semantic.{
  is_case, is_case-cases, terminating_instructions, alters_control_flow,
}
use polynomial.Assembly.Peephole.{double_swap, commutative_swap, swap_comparison, swappable}
use polynomial.Assembly.Peephole.Machine.{
  Chain, Memory, perform, operate, swap, exchange, with_world,
}
use polynomial.Assembly.Peephole.Plain.{
  IsPlain, is_instruction-eq, swap-IsPlain, case-IsPlain, perform_all-two, then_perform,
  perform_all,
}
use polynomial.Assembly.Peephole.Keeps.{Keeps}

get_elem?-set :
    (xs : List ℕ) (k a b : ℕ) → get_elem? xs k ≡ some b → get_elem? (set xs k a) k ≡ some a
get_elem?-set [] k a b h = none_ne_some h
get_elem?-set (x ∷ xs) zero a b h = refl
get_elem?-set (x ∷ xs) (suc k) a b h = get_elem?-set xs k a b h

set-set : (xs : List ℕ) (k a b : ℕ) → get_elem? xs k ≡ some b → set (set xs k a) k b ≡ xs
set-set [] k a b h = refl
set-set (x ∷ xs) zero a b h = ap (λ (y : ℕ). y ∷ xs) (sym (some_inj h))
set-set (x ∷ xs) (suc k) a b h = ap (λ (ys : List ℕ). x ∷ ys) (set-set xs k a b h)

swap-swap : (n : ℕ) (s t : List ℕ) → swap n s ≡ some t → swap n t ≡ some s
swap-swap n [] t h = none_ne_some h
swap-swap n (a ∷ s) t h = elim (Option-cases (get_elem? s (n - 1))) [
  | inl missing ↦ none_ne_some (sym (ap (λ o. exchange o a (n - 1) s) missing) ∙ h)
  | inr (b, found) ↦
      let e : (t ≡ b ∷ set s (n - 1) a) =
        some_inj (sym h ∙ ap (λ o. exchange o a (n - 1) s) found) in
      rw e (
        ap (λ o. exchange o b (n - 1) (set s (n - 1) a)) (get_elem?-set s (n - 1) a b found)
        ∙ ap (λ (xs : List ℕ). some (a ∷ xs)) (set-set s (n - 1) a b found))
]

same_item-op :
    (i : Instruction) (a : Annotation) (x : AssemblyItem)
    → same_item (op i a) x ≡ true
    → (b : Annotation) × (x ≡ op i b)
unfolding same_item
same_item-op i a (op j b) h = (b, ap (λ (k : Instruction). op k b) (sym ((==_iff i j).0 h)))
same_item-op i a (push d b) h = cc
same_item-op i a x h = cc

-- What holds of the pairs of `swappableOps` holds of an instruction and what replaces it.
swappable-cases {κ} :
    (P : Instruction → Instruction → Type κ)
    → P Instruction.lt Instruction.gt
    → P Instruction.gt Instruction.lt
    → P Instruction.slt Instruction.sgt
    → P Instruction.sgt Instruction.slt
    → (i j : Instruction) → swappable i ≡ some j
    → P i j
unfolding swappable
swappable-cases P lt gt slt sgt i j h = elim (Bool-cases (i == Instruction.lt)) [
  | inl e₁ ↦ subst₂ P (sym ((==_iff i _).0 e₁)) (ground arith) lt
  | inr n₁ ↦ elim (Bool-cases (i == Instruction.gt)) [
    | inl e₂ ↦ subst₂ P (sym ((==_iff i _).0 e₂)) (ground arith) gt
    | inr n₂ ↦ elim (Bool-cases (i == Instruction.slt)) [
      | inl e₃ ↦ subst₂ P (sym ((==_iff i _).0 e₃)) (ground arith) slt
      | inr n₃ ↦ elim (Bool-cases (i == Instruction.sgt)) [
        | inl e₄ ↦ subst₂ P (sym ((==_iff i _).0 e₄)) (ground arith) sgt
        | inr n₄ ↦ absurd (ground arith)
      ]
    ]
  ]
]

module _ (c : Chain) where
  open c use {World}

  perform-swap :
      (i : Instruction) (a : Annotation) (s : List ℕ) (w : World)
      → Numbers.is_swap_instruction i ≡ true
      → perform c (op i a) (s, w) ≡ with_world c (swap (Numbers.get_swap_number i) s) w
  unfolding perform operate Numbers.is_swap_instruction Numbers.is_dup_instruction
  perform-swap i a s w h =
      let d : (Numbers.is_dup_instruction i ≡ false) = ground arith in rw (d, h)

  double_swap-op :
      (i : Instruction) (a b : Annotation)
      → Numbers.is_swap_instruction i ≡ true
      → Keeps c (op i a ∷ op i b ∷ []) []
  unfolding perform_all
  double_swap-op i a b h = record {
    plain = (swap-IsPlain i a h, (swap-IsPlain i b h, tt));
    still_plain = tt;
    same = λ s w m words e.
        let (m₁, e₁, e₂) = perform_all-two c (op i a) (op i b) (s, w) m e in
        elim (Option-cases (swap (Numbers.get_swap_number i) s)) [
          | inl missing ↦
              none_ne_some (sym (perform-swap i a s w h ∙ ap (λ o. with_world c o w) missing) ∙ e₁)
          | inr (t, found) ↦
              let first : (m₁ ≡ (t, w)) =
                some_inj (sym e₁ ∙ perform-swap i a s w h ∙ ap (λ o. with_world c o w) found) in
              sym (
                perform-swap i b t w h
                ∙ ap (λ o. with_world c o w) (swap-swap (Numbers.get_swap_number i) s t found))
              ∙ ap (perform c (op i b)) (sym first)
              ∙ e₂
        ];
  }

  pub double_swap-Keeps :
      (a b : AssemblyItem) (out : AssemblyItems)
      → double_swap a b ≡ some out
      → Keeps c (a ∷ b ∷ []) out
  unfolding double_swap
  double_swap-Keeps (op i a) x out h =
      let same : (same_item (op i a) x ≡ true) = ground arith in
      let swaps : (Numbers.is_swap_instruction i ≡ true) = ground arith in
      let empty : (out ≡ []) = ground arith in
      let (b, e) = same_item-op i a x same in rw (e, empty) (double_swap-op i a b swaps)
  double_swap-Keeps a x out h = absurd (ground arith)

  -- SWAP1 with too few values faults; with two or more it exchanges the topmost.
  perform-swap1 :
      (a : Annotation) (s : List ℕ) (w : World) (m : Memory c)
      → perform c (op Instruction.swap1 a) (s, w) ≡ some m
      → (x y : ℕ) × (r : List ℕ) × (s ≡ x ∷ y ∷ r) × (m ≡ (y ∷ x ∷ r, w))
  unfolding perform operate Numbers.is_swap_instruction Numbers.is_dup_instruction
      Numbers.get_swap_number
  perform-swap1 a [] w m h = none_ne_some h
  perform-swap1 a (x ∷ []) w m h = none_ne_some h
  perform-swap1 a (x ∷ y ∷ r) w m h = (x, y, r, refl, sym (some_inj h))

  -- An operation on the exchanged values does what another does on the values.
  abbrev Exchanged : Instruction → Instruction → Type 0
  Exchanged i j =
      (a b : Annotation) (x y : ℕ) (r : List ℕ) (w : World)
      → perform c (op i a) (y ∷ x ∷ r, w) ≡ perform c (op j b) (x ∷ y ∷ r, w)

  Exchanged-Keeps :
      (i j : Instruction) (p a b : Annotation)
      → IsPlain (op i a)
      → IsPlain (op j b)
      → Exchanged i j
      → Keeps c (op Instruction.swap1 p ∷ op i a ∷ []) (op j b ∷ [])
  unfolding perform_all Numbers.is_swap_instruction
  Exchanged-Keeps i j p a b hi hj ex = record {
    plain = (swap-IsPlain Instruction.swap1 p refl, (hi, tt));
    still_plain = (hj, tt);
    same = λ s w m words e.
        let (m₁, e₁, e₂) = perform_all-two c (op Instruction.swap1 p) (op i a) (s, w) m e in
        let (x, y, r, es, em) = perform-swap1 p s w m₁ e₁ in
        ap (λ o. then_perform c o (λ n. some n))
          (ap (λ (t : List ℕ). perform c (op j b) (t, w)) es
            ∙ sym (ex a b x y r w)
            ∙ ap (perform c (op i a)) (sym em)
            ∙ e₂);
  }

  commutative-Exchanged : Every (λ (i : Instruction). Exchanged i i) Semantic.commutative_operations
  unfolding perform operate evaluate instruction_info Numbers.is_swap_instruction
      Numbers.is_dup_instruction
  commutative-Exchanged =
      (λ a b x y r w. ap (λ (v : ℕ). some (v ∷ r, w)) (add_comm y x))
      & (λ a b x y r w. ap (λ (v : ℕ). some (v ∷ r, w)) (mul_word_comm y x))
      & (λ a b x y r w. ap (λ (v : ℕ). some (v ∷ r, w)) (eq_comm y x))
      & (λ a b x y r w. ap (λ (v : ℕ). some (v ∷ r, w)) (and_comm y x))
      & (λ a b x y r w. ap (λ (v : ℕ). some (v ∷ r, w)) (or_comm y x))
      & (λ a b x y r w. ap (λ (v : ℕ). some (v ∷ r, w)) (xor_comm y x))
      & done

  pub commutative_swap-Keeps :
      (a b : AssemblyItem) (out : AssemblyItems)
      → commutative_swap a b ≡ some out
      → Keeps c (a ∷ b ∷ []) out
  unfolding commutative_swap is_case
  commutative_swap-Keeps x (op i b) out h =
      let first : (is_instruction x Instruction.swap1 ≡ true) = ground arith in
      let commutes : (is_case Semantic.commutative_operations i ≡ true) = ground arith in
      let e : (out ≡ op i b ∷ []) = ground arith in
      let (p, f) = is_instruction-eq x Instruction.swap1 first in
      let plain =
        case-IsPlain Semantic.commutative_operations
          (refl & refl & refl & refl & refl & refl & refl & done) i b commutes in
      rw (f, e)
        (Exchanged-Keeps i i p b b plain plain (
          is_case-cases (λ j. Exchanged j j) Semantic.commutative_operations i commutative-Exchanged
            commutes))
  commutative_swap-Keeps x b out h = absurd (ground arith)

  swap_comparison-op :
      (i j : Instruction) (p a b : Annotation)
      → swappable i ≡ some j
      → Keeps c (op Instruction.swap1 p ∷ op i a ∷ []) (op j b ∷ [])
  unfolding perform operate evaluate instruction_info Numbers.is_swap_instruction
      Numbers.is_dup_instruction alters_control_flow
  swap_comparison-op i j p a b =
      swappable-cases (λ i j. Keeps c (op Instruction.swap1 p ∷ op i a ∷ []) (op j b ∷ []))
        (Exchanged-Keeps Instruction.lt Instruction.gt p a b (refl, refl) (refl, refl)
          (λ a b x y r w. ap (λ (v : ℕ). some (v ∷ r, w)) (lt-eq-gt y x)))
        (Exchanged-Keeps Instruction.gt Instruction.lt p a b (refl, refl) (refl, refl)
          (λ a b x y r w. ap (λ (v : ℕ). some (v ∷ r, w)) (sym (lt-eq-gt x y))))
        (Exchanged-Keeps Instruction.slt Instruction.sgt p a b (refl, refl) (refl, refl)
          (λ a b x y r w. ap (λ (v : ℕ). some (v ∷ r, w)) (slt-eq-sgt y x)))
        (Exchanged-Keeps Instruction.sgt Instruction.slt p a b (refl, refl) (refl, refl)
          (λ a b x y r w. ap (λ (v : ℕ). some (v ∷ r, w)) (sym (slt-eq-sgt x y))))
        i j

  pub swap_comparison-Keeps :
      (a b : AssemblyItem) (out : AssemblyItems)
      → swap_comparison a b ≡ some out
      → Keeps c (a ∷ b ∷ []) out
  unfolding swap_comparison
  swap_comparison-Keeps x (op i a) out h = elim (Option-cases (swappable i)) [
    | inl missing ↦ absurd (ground arith)
    | inr (j, found) ↦
        let first : (is_instruction x Instruction.swap1 ≡ true) = ground arith in
        let e : (out ≡ op j (located no_location) ∷ []) = ground arith in
        let (p, f) = is_instruction-eq x Instruction.swap1 first in
        rw (f, e) (swap_comparison-op i j p a (located no_location) found)
  ]
  swap_comparison-Keeps x (push d b) out h = none_ne_some h
  swap_comparison-Keeps x b out h = none_ne_some h
