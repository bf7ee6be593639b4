-- ===== src/Assembly/Peephole/Simulation.antt =====
-- A run of the program, followed step by step in what the rounds of the optimiser make of it.
use mathlib.Core.Path.{subst}
use mathlib.Core.List.{append_assoc}
use polynomial.Prelude.{
  ℕ, zero, suc, ◌≤◌, ◌≡◌, refl, sym, ap, ◌∙◌, ◌≢◌, none, some, List, [], ◌∷◌, ◌++◌, true, false,
  arith, Option-cases, Bool-cases, inl, inr, none_ne_some, All, ◌==◌, done, ◌&◌,
}
use polynomial.Instruction
use polynomial.Instruction.{Instruction}
use polynomial.Instruction.Info.{instruction_info}
use polynomial.Instruction.Numbers
use polynomial.Word
use polynomial.Word.{IsWord, evaluate}
use polynomial.Assembly.Item.{Annotation, AssemblyItem, AssemblyItems, op, push, push_tag, tag}
use polynomial.Assembly.Semantic.{is_case, is_case-cases, alters_control_flow}
use polynomial.Assembly.Peephole.{leaving_instructions}
use polynomial.Assembly.Peephole.Machine.{
  Chain, Memory, perform, operate, step, op_step, jumped, proceed, run, Outcome, fault, halted,
  stop, go, find_tag,
}
use polynomial.Assembly.Peephole.Plain.{perform-pop, alters-cases}
use polynomial.Assembly.Peephole.Keeps.{Keeps, HasWord}
use polynomial.Assembly.Peephole.Moves.{
  Move, keeps, same, test_twice, to_next, to_next_if, cut, apply_methods-Move,
}
use polynomial.Assembly.Peephole.Loop.{Optimised, end, round}
use polynomial.Assembly.Peephole.Tags.{
  DistinctTags, find_tag-inside, find_tag_unique, Optimised-Follows,
}
use polynomial.Assembly.Peephole.Run.{
  run-go_inv, run-stop_inv, run-go, run-stop, run-plain, plain-run, plain_first, plain_step,
  perform_all-IsWord, perform-IsWord,
}

All-suffix {ℓ} : {A : Type ℓ} (P : A → Type 0) (xs ys : List A) → All P (xs ++ ys) → All P ys
All-suffix P [] ys h = h
All-suffix P (x ∷ xs) ys h = All-suffix P xs ys h.1

All-prefix {ℓ} : {A : Type ℓ} (P : A → Type 0) (xs ys : List A) → All P (xs ++ ys) → All P xs
All-prefix P [] ys h = tt
All-prefix P (x ∷ xs) ys h = (h.0, All-prefix P xs ys h.1)

perform-iszero :
    (c : Chain) (a : Annotation) (v : ℕ) (s : List ℕ) (w : c.World)
    → perform c (op Instruction.iszero a) (v ∷ s, w) ≡ some (Word.iszero v ∷ s, w)
unfolding perform operate evaluate instruction_info Numbers.is_dup_instruction
    Numbers.is_swap_instruction
perform-iszero c a v s w = refl

perform-iszero_empty :
    (c : Chain) (a : Annotation) (w : c.World) → perform c (op Instruction.iszero a) ([], w) ≡ none
unfolding perform operate evaluate instruction_info Numbers.is_dup_instruction
    Numbers.is_swap_instruction
perform-iszero_empty c a w = refl

iszero-plain : (a : Annotation) → alters_control_flow (op Instruction.iszero a) ≡ false
unfolding alters_control_flow is_case
iszero-plain a = refl

pop-plain : (a : Annotation) → alters_control_flow (op Instruction.pop a) ≡ false
unfolding alters_control_flow is_case
pop-plain a = refl

iszero-twice : (v : ℕ) → (Word.iszero (Word.iszero v) == 0) ≡ (v == 0)
unfolding Word.iszero
iszero-twice v = elim (Bool-cases (v == 0)) [ inl z ↦ rw z refl | inr nz ↦ rw nz refl ]

module _ (c : Chain) (program output : AssemblyItems) (optimised : Optimised program output)
    (distinct : DistinctTags c.address program) (words : All HasWord program) (o : Outcome c)
    (fine : o ≢ fault) where
  open c use {World, address}

  -- The rest of the program at some point of it.
  abbrev Inside : AssemblyItems → Type 0
  Inside rest = (before : AssemblyItems) × (program ≡ before ++ rest)

  Inside-tail : (xs rest : AssemblyItems) → Inside (xs ++ rest) → Inside rest
  Inside-tail xs rest (before, e) = (before ++ xs, e ∙ sym (append_assoc before xs rest))

  Inside-words : (rest : AssemblyItems) → Inside rest → All HasWord rest
  Inside-words rest (before, e) = All-suffix HasWord before rest (subst (All HasWord) e words)

  Inside-tag :
      (t : ℕ) (a : Annotation) (rest : AssemblyItems)
      → Inside (tag t a ∷ rest)
      → find_tag address (address t) program ≡ some rest
  Inside-tag t a rest (before, e) =
      ap (find_tag address (address t)) e
      ∙ find_tag_unique address t a before rest (subst (DistinctTags address) e distinct)

  abbrev Reaches : AssemblyItems → Memory c → Type 0
  Reaches rest m = (k : ℕ) × (run c output k rest m ≡ some o)

  -- Runs of the program of at most f steps are runs of the output.
  abbrev Simulated : ℕ → Type 0
  Simulated f =
      (n : ℕ) (rest out : AssemblyItems) (m : Memory c)
      → n ≤ f
      → Optimised rest out
      → Inside rest
      → All IsWord m.0
      → run c program n rest m ≡ some o
      → Reaches out m

  module _ (f : ℕ) (ih : Simulated f) where
    -- Both go on, where the rest of the output is made from the rest of the program.
    go_sim :
        (n : ℕ) (x y : AssemblyItem) (rest out r r' : AssemblyItems) (m m₁ m' : Memory c)
        → n ≤ suc f
        → step c program x rest m ≡ go r m'
        → step c output y out m₁ ≡ go r' m'
        → Optimised r r'
        → Inside r
        → All IsWord m'.0
        → run c program n (x ∷ rest) m ≡ some o
        → Reaches (y ∷ out) m₁
    go_sim n x y rest out r r' m m₁ m' le e e' op_r ins w h =
        let (k, eq, hr) = run-go_inv c program n x rest r m m' o e h in
        let (j, reached) = ih k r r' m' (omega arith) op_r ins w hr in
        (suc j, run-go c output j y out r' m₁ m' o e' reached)

    -- Both jump to the same address.
    jump_sim :
        (n v : ℕ) (x y : AssemblyItem) (rest out : AssemblyItems) (m m₁ m' : Memory c)
        → n ≤ suc f
        → step c program x rest m ≡ jumped c (find_tag address v program) m'
        → step c output y out m₁ ≡ jumped c (find_tag address v output) m'
        → All IsWord m'.0
        → run c program n (x ∷ rest) m ≡ some o
        → Reaches (y ∷ out) m₁
    jump_sim n v x y rest out m m₁ m' le e e' w h =
        elim (Option-cases (find_tag address v program)) [
          | inl missing ↦
              let stuck = e ∙ ap (λ q. jumped c q m') missing in
              absurd (fine (sym (run-stop_inv c program n x rest m o fault stuck h)))
          | inr (r, found) ↦
              let (r', found', made) = Optimised-Follows c v optimised r found in
              go_sim n x y rest out r r' m m₁ m' le (e ∙ ap (λ q. jumped c q m') found)
                (e' ∙ ap (λ q. jumped c q m') found') made
                (find_tag-inside address v program r found) w h
        ]

    -- An instruction that ends the run.
    halt_sim :
        (n : ℕ) (i : Instruction) (a : Annotation) (rest out : AssemblyItems) (m : Memory c)
        → ((p q : AssemblyItems) → step c p (op i a) q m ≡ stop (halted i m))
        → run c program n (op i a ∷ rest) m ≡ some o
        → Reaches (op i a ∷ out) m
    halt_sim n i a rest out m e h =
        let ends = run-stop_inv c program n (op i a) rest m o (halted i m) (e program rest) h in
        (1, run-stop c output (op i a) out m o (e output out ∙ ap (λ (q : Outcome c). stop q) ends))

    -- An instruction behind which nothing is reached but by a jump.
    abbrev Leaves : Instruction → Type 0
    Leaves i =
        (n : ℕ) (a : Annotation) (rest out : AssemblyItems) (m : Memory c)
        → n ≤ suc f
        → All IsWord m.0
        → run c program n (op i a ∷ rest) m ≡ some o
        → Reaches (op i a ∷ out) m

    jump-Leaves : Leaves Instruction.jump
    unfolding step op_step
    jump-Leaves n a rest out ([], w) le wd h =
        absurd (
          fine (sym (run-stop_inv c program n (op Instruction.jump a) rest ([], w) o fault refl h)))
    jump-Leaves n a rest out (v ∷ s, w) le wd h =
        jump_sim n v (op Instruction.jump a) (op Instruction.jump a) rest out (v ∷ s, w) (v ∷ s, w)
          (s, w) le refl refl wd.1 h

    abbrev Halts : Instruction → Type 0
    Halts i =
        (a : Annotation) (m : Memory c) (p q : AssemblyItems)
        → step c p (op i a) q m ≡ stop (halted i m)

    halt-Leaves : (i : Instruction) → Halts i → Leaves i
    halt-Leaves i ends n a rest out m le wd h = halt_sim n i a rest out m (ends a m) h

    leave_sim : (i : Instruction) → is_case leaving_instructions i ≡ true → Leaves i
    unfolding step op_step is_case
    leave_sim i = is_case-cases Leaves leaving_instructions i (
        jump-Leaves
        & halt-Leaves Instruction.return (λ a m p q. refl)
        & halt-Leaves Instruction.stop (λ a m p q. refl)
        & halt-Leaves Instruction.invalid (λ a m p q. refl)
        & halt-Leaves Instruction.selfdestruct (λ a m p q. refl)
        & halt-Leaves Instruction.revert (λ a m p q. refl)
        & done)

    -- A conditional jump, on conditions that are zero together.
    jumpi_sim :
        (n v b b' : ℕ) (s : List ℕ) (w : World) (a : Annotation) (rest out : AssemblyItems)
        → n ≤ suc f
        → (b == 0) ≡ (b' == 0)
        → Optimised rest out
        → Inside rest
        → All IsWord s
        → run c program n (op Instruction.jumpi a ∷ rest) (v ∷ b ∷ s, w) ≡ some o
        → Reaches (op Instruction.jumpi a ∷ out) (v ∷ b' ∷ s, w)
    unfolding step op_step
    jumpi_sim n v b b' s w a rest out le same_test made ins wd h = elim (Bool-cases (b == 0)) [
      | inl z ↦
          go_sim n (op Instruction.jumpi a) (op Instruction.jumpi a) rest out rest out
            (v ∷ b ∷ s, w) (v ∷ b' ∷ s, w) (s, w) le (rw z refl) (rw (sym same_test ∙ z) refl) made
            ins wd h
      | inr nz ↦
          jump_sim n v (op Instruction.jumpi a) (op Instruction.jumpi a) rest out (v ∷ b ∷ s, w)
            (v ∷ b' ∷ s, w) (s, w) le (rw nz refl) (rw (sym same_test ∙ nz) refl) wd h
    ]

    -- One item, which stays as it is.
    abbrev Stays : AssemblyItem → Type 0
    Stays x =
        (n : ℕ) (rest out : AssemblyItems) (m : Memory c)
        → n ≤ suc f
        → Optimised rest out
        → Inside (x ∷ rest)
        → All IsWord m.0
        → run c program n (x ∷ rest) m ≡ some o
        → Reaches (x ∷ out) m

    leave_stays : (i : Instruction) (a : Annotation) → Leaves i → Stays (op i a)
    leave_stays i a leave n rest out m le made ins wd h = leave n a rest out m le wd h

    jumpi_stays : (a : Annotation) → Stays (op Instruction.jumpi a)
    unfolding step op_step
    jumpi_stays a n rest out ([], w) le made ins wd h =
        absurd (
          fine
            (sym (run-stop_inv c program n (op Instruction.jumpi a) rest ([], w) o fault refl h)))
    jumpi_stays a n rest out (v ∷ [], w) le made ins wd h = absurd (
        fine
          (sym (run-stop_inv c program n (op Instruction.jumpi a) rest (v ∷ [], w) o fault refl h)))
    jumpi_stays a n rest out (v ∷ b ∷ s, w) le made ins wd h =
        jumpi_sim n v b b s w a rest out le refl made
          (Inside-tail (op Instruction.jumpi a ∷ []) rest ins) wd.1.1 h

    plain_stays : (x : AssemblyItem) → alters_control_flow x ≡ false → Stays x
    plain_stays x plain n rest out m le made ins wd h =
        let (k, m', eq, found, hr) = plain_first c program n x rest m o plain fine h in
        let wd' = perform-IsWord c x m.0 m.1 m' (Inside-words (x ∷ rest) ins).0 wd found in
        let (j, reached) =
          ih k rest out m' (omega arith) made (Inside-tail (x ∷ []) rest ins) wd' hr in
        (
          suc j,
          run-go c output j x out out m m' o
              (plain_step c output x out m plain ∙ ap (proceed c out) found) reached,
        )

    control_stays :
        (i : Instruction) (a : Annotation) → alters_control_flow (op i a) ≡ true → Stays (op i a)
    unfolding step op_step is_case
    control_stays i a =
        alters-cases (λ j. Stays (op j a)) i a
          (leave_stays Instruction.jump a jump-Leaves
            & jumpi_stays a
            & leave_stays Instruction.return a (halt-Leaves Instruction.return (λ a m p q. refl))
            & leave_stays Instruction.selfdestruct a
                (halt-Leaves Instruction.selfdestruct (λ a m p q. refl))
            & leave_stays Instruction.stop a (halt-Leaves Instruction.stop (λ a m p q. refl))
            & leave_stays Instruction.invalid a (halt-Leaves Instruction.invalid (λ a m p q. refl))
            & leave_stays Instruction.revert a (halt-Leaves Instruction.revert (λ a m p q. refl))
            & done)

    stays : (x : AssemblyItem) → Stays x
    unfolding alters_control_flow
    stays (op i a) = elim (Bool-cases (alters_control_flow (op i a))) [
      | inl alters ↦ control_stays i a alters
      | inr plain ↦ plain_stays (op i a) plain
    ]
    stays (push d a) = plain_stays (push d a) refl
    stays x = plain_stays x refl

    -- A window and what is emitted for it.
    Keeps-sim :
        (n : ℕ) (x : AssemblyItem) (window emitted left out : AssemblyItems) (m : Memory c)
        → Keeps c (x ∷ window) emitted
        → n ≤ suc f
        → Optimised left out
        → Inside ((x ∷ window) ++ left)
        → All IsWord m.0
        → run c program n ((x ∷ window) ++ left) m ≡ some o
        → Reaches (emitted ++ out) m
    Keeps-sim n x window emitted left out m k le made ins wd h =
        let (j, m', l, found, hr) = run-plain c program n (x ∷ window) left m o k.plain fine h in
        let hw = All-prefix HasWord (x ∷ window) left (Inside-words ((x ∷ window) ++ left) ins) in
        let wd' = perform_all-IsWord c (x ∷ window) m.0 m.1 m' hw wd found in
        let (i, reached) =
          ih j left out m' (omega arith) made (Inside-tail (x ∷ window) left ins) wd' hr in
        plain-run c output i emitted out m m' o k.still_plain (k.same m.0 m.1 m' wd found) reached

    -- A tag, which does nothing.
    tag_sim :
        (n t : ℕ) (d : Annotation) (left out : AssemblyItems) (m : Memory c)
        → n ≤ f
        → Optimised left out
        → Inside left
        → All IsWord m.0
        → run c program n left m ≡ some o
        → Reaches (tag t d ∷ out) m
    unfolding step perform
    tag_sim n t d left out m le made ins wd h =
        let (k, reached) = ih n left out m le made ins wd h in
        (suc k, run-go c output k (tag t d) out out m m o refl reached)

    -- What a run does behind a pushed tag.
    behind_push_tag :
        (n t : ℕ) (a : Annotation) (rest : AssemblyItems) (s : List ℕ) (w : World)
        → run c program n (push_tag t a ∷ rest) (s, w) ≡ some o
        → (k : ℕ) × (n ≡ suc k) × (run c program k rest (address t ∷ s, w) ≡ some o)
    unfolding step perform
    behind_push_tag n t a rest s w h =
        run-go_inv c program n (push_tag t a) rest rest (s, w) (address t ∷ s, w) o refl h

    to_next_sim :
        (n t : ℕ) (a b d : Annotation) (left out : AssemblyItems) (m : Memory c)
        → n ≤ suc f
        → Optimised left out
        → Inside (push_tag t a ∷ op Instruction.jump b ∷ tag t d ∷ left)
        → All IsWord m.0
        → run c program n (push_tag t a ∷ op Instruction.jump b ∷ tag t d ∷ left) m ≡ some o
        → Reaches (tag t d ∷ out) m
    unfolding step op_step
    to_next_sim n t a b d left out (s, w) le made ins wd h =
        let (k, e, hk) = behind_push_tag n t a (op Instruction.jump b ∷ tag t d ∷ left) s w h in
        let at_tag = Inside-tail (push_tag t a ∷ op Instruction.jump b ∷ []) (tag t d ∷ left) ins in
        let found = Inside-tag t d left at_tag in
        let (j, e', hj) =
          run-go_inv c program k (op Instruction.jump b) (tag t d ∷ left) left (address t ∷ s, w)
            (s, w) o (ap (λ q. jumped c q (s, w)) found) hk in
        tag_sim j t d left out (s, w) (omega arith) made (Inside-tail (tag t d ∷ []) left at_tag) wd
          hj

    -- A conditional jump to the tag behind it comes to what stands after the tag either way.
    jumpi_to_next :
        (k t v : ℕ) (b d : Annotation) (left : AssemblyItems) (s : List ℕ) (w : World)
        → find_tag address (address t) program ≡ some left
        → run c program k (op Instruction.jumpi b ∷ tag t d ∷ left) (address t ∷ v ∷ s, w) ≡ some o
        → (j : ℕ) × (j ≤ k) × (run c program j left (s, w) ≡ some o)
    unfolding step op_step perform
    jumpi_to_next k t v b d left s w found h = elim (Bool-cases (v == 0)) [
      | inl z ↦
          let (j, e, hj) =
            run-go_inv c program k (op Instruction.jumpi b) (tag t d ∷ left) (tag t d ∷ left)
              (address t ∷ v ∷ s, w) (s, w) o (rw z refl) h in
          let (i, e', hi) = run-go_inv c program j (tag t d) left left (s, w) (s, w) o refl hj in
          (i, omega arith, hi)
      | inr nz ↦
          let (j, e, hj) =
            run-go_inv c program k (op Instruction.jumpi b) (tag t d ∷ left) left
              (address t ∷ v ∷ s, w) (s, w) o (rw (nz, found) refl) h in
          (j, omega arith, hj)
    ]

    to_next_if_sim :
        (n t : ℕ) (a b d p : Annotation) (left out : AssemblyItems) (m : Memory c)
        → n ≤ suc f
        → Optimised left out
        → Inside (push_tag t a ∷ op Instruction.jumpi b ∷ tag t d ∷ left)
        → All IsWord m.0
        → run c program n (push_tag t a ∷ op Instruction.jumpi b ∷ tag t d ∷ left) m ≡ some o
        → Reaches (op Instruction.pop p ∷ tag t d ∷ out) m
    unfolding step op_step
    to_next_if_sim n t a b d p left out ([], w) le made ins wd h =
        let (k, e, hk) = behind_push_tag n t a (op Instruction.jumpi b ∷ tag t d ∷ left) [] w h in
        absurd (
          fine (
            sym (
              run-stop_inv c program k (op Instruction.jumpi b) (tag t d ∷ left) (address t ∷ [], w)
                o fault refl hk)))
    to_next_if_sim n t a b d p left out (v ∷ s, w) le made ins wd h =
        let (k, e, hk) =
          behind_push_tag n t a (op Instruction.jumpi b ∷ tag t d ∷ left) (v ∷ s) w h in
        let at_tag =
          Inside-tail (push_tag t a ∷ op Instruction.jumpi b ∷ []) (tag t d ∷ left) ins in
        let (j, l, hj) = jumpi_to_next k t v b d left s w (Inside-tag t d left at_tag) hk in
        let (i, reached) =
          tag_sim j t d left out (s, w) (omega arith) made (Inside-tail (tag t d ∷ []) left at_tag)
            wd.1 hj in
        (
          suc i,
          run-go c output i (op Instruction.pop p) (tag t d ∷ out) (tag t d ∷ out) (v ∷ s, w) (s, w)
              o
              (plain_step c output (op Instruction.pop p) (tag t d ∷ out) (v ∷ s, w) (pop-plain p)
                ∙ ap (proceed c (tag t d ∷ out)) (perform-pop c p v s w))
              reached,
        )

    -- Testing a condition for zero twice does not matter to a conditional jump.
    test_twice_sim :
        (n t : ℕ) (a b p j : Annotation) (left out : AssemblyItems) (m : Memory c)
        → n ≤ suc f
        → Optimised left out
        → Inside (
            op Instruction.iszero a
            ∷ op Instruction.iszero b
            ∷ push_tag t p
            ∷ op Instruction.jumpi j
            ∷ left)
        → All IsWord m.0
        → run c program n
            (op Instruction.iszero a
              ∷ op Instruction.iszero b
              ∷ push_tag t p
              ∷ op Instruction.jumpi j
              ∷ left)
            m
          ≡ some o
        → Reaches (push_tag t p ∷ op Instruction.jumpi j ∷ out) m
    unfolding step perform
    test_twice_sim n t a b p j left out ([], w) le made ins wd h =
        let rest = op Instruction.iszero b ∷ push_tag t p ∷ op Instruction.jumpi j ∷ left in
        let (k, m₁, e, found, hk) =
          plain_first c program n (op Instruction.iszero a) rest ([], w) o (iszero-plain a) fine
            h in
        none_ne_some (sym (perform-iszero_empty c a w) ∙ found)
    test_twice_sim n t a b p j left out (v ∷ s, w) le made ins wd h =
        let jump = op Instruction.jumpi j ∷ left in
        let rest = push_tag t p ∷ jump in
        let tests = op Instruction.iszero a ∷ op Instruction.iszero b ∷ push_tag t p ∷ [] in
        let once = Word.iszero v in
        let twice = Word.iszero once in
        let (k, e, hk) =
          run-go_inv c program n (op Instruction.iszero a) (op Instruction.iszero b ∷ rest)
            (op Instruction.iszero b ∷ rest) (v ∷ s, w) (once ∷ s, w) o
            (plain_step c program (op Instruction.iszero a) (op Instruction.iszero b ∷ rest)
                (v ∷ s, w) (iszero-plain a)
              ∙ ap (proceed c (op Instruction.iszero b ∷ rest)) (perform-iszero c a v s w))
            h in
        let (k₂, e₂, hk₂) =
          run-go_inv c program k (op Instruction.iszero b) rest rest (once ∷ s, w) (twice ∷ s, w) o
            (plain_step c program (op Instruction.iszero b) rest (once ∷ s, w) (iszero-plain b)
              ∙ ap (proceed c rest) (perform-iszero c b once s w))
            hk in
        let (k₃, e₃, hk₃) = behind_push_tag k₂ t p jump (twice ∷ s) w hk₂ in
        let at_jump = Inside-tail tests jump ins in
        let (i, reached) =
          jumpi_sim k₃ (address t) twice v s w j left out (omega arith) (iszero-twice v) made
            (Inside-tail (op Instruction.jumpi j ∷ []) left at_jump) wd.1 hk₃ in
        (
          suc i,
          run-go c output i (push_tag t p) (op Instruction.jumpi j ∷ out)
              (op Instruction.jumpi j ∷ out) (v ∷ s, w) (address t ∷ v ∷ s, w) o refl reached,
        )

    -- Whatever the round does.
    Move-sim :
        (n : ℕ) (items emitted left out : AssemblyItems) (m : Memory c)
        → Move c items emitted left
        → n ≤ suc f
        → Optimised left out
        → Inside items
        → All IsWord m.0
        → run c program n items m ≡ some o
        → Reaches (emitted ++ out) m
    Move-sim n items emitted left out m (keeps x window e k) le made ins wd h =
        Keeps-sim n x window emitted left out m k le made (subst Inside e ins) wd
          (subst (λ (xs : AssemblyItems). run c program n xs m ≡ some o) e h)
    Move-sim n items emitted left out m (same x e g) le made ins wd h = rw g (
        stays x n left out m le made (subst Inside e ins) wd
          (subst (λ (xs : AssemblyItems). run c program n xs m ≡ some o) e h))
    Move-sim n items emitted left out m (test_twice a b p j t e g) le made ins wd h = rw g (
        test_twice_sim n t a b p j left out m le made (subst Inside e ins) wd
          (subst (λ (xs : AssemblyItems). run c program n xs m ≡ some o) e h))
    Move-sim n items emitted left out m (to_next a b d t e g) le made ins wd h = rw g (
        to_next_sim n t a b d left out m le made (subst Inside e ins) wd
          (subst (λ (xs : AssemblyItems). run c program n xs m ≡ some o) e h))
    Move-sim n items emitted left out m (to_next_if a b d p t e g) le made ins wd h = rw g (
        to_next_if_sim n t a b d p left out m le made (subst Inside e ins) wd
          (subst (λ (xs : AssemblyItems). run c program n xs m ≡ some o) e h))
    Move-sim n items emitted left out m (cut i a skipped leaving e none_skipped g) le made ins wd
          h =
        rw g (
          leave_sim i leaving n a (skipped ++ left) out m le wd
            (subst (λ (xs : AssemblyItems). run c program n xs m ≡ some o) e h))

  pub simulated : (f : ℕ) → Simulated f
  unfolding run
  simulated f n rest out m le end ins wd h = (0, h)
  simulated zero zero rest out m le (round r e made w) ins wd h = none_ne_some h
  simulated zero (suc n) rest out m le (round r e made w) ins wd h = absurd (omega arith)
  simulated (suc f) n rest out m le (round {item} {rest = items} {out = more} r e made w) ins wd h =
      subst (λ (xs : AssemblyItems). Reaches xs m) (sym w)
        (Move-sim f (simulated f) n (item ∷ items) r.emitted r.left more m
          (apply_methods-Move c (item ∷ items) r e) le made ins wd h)
