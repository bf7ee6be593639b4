-- ===== src/Assembly/Peephole/Run.antt =====
-- Runs through a row of plain items, and the words on the stack.
use mathlib.Core.Path.{subst}
use polynomial.Prelude.{
  ℕ, zero, suc, ◌+◌, ◌-◌, ◌≤◌, ◌≡◌, refl, sym, ap, ◌∙◌, ◌≢◌, Option, none, some, List, [], ◌∷◌,
  ◌++◌, false, length, get_elem?, set, arith, Option-cases, Bool-cases, inl, inr, some_inj,
  none_ne_some, All, All-append, ◌==◌,
}
use polynomial.Instruction
use polynomial.Instruction.{Instruction}
use polynomial.Instruction.Info.{instruction_info}
use polynomial.Instruction.Numbers
use polynomial.Word.{IsWord, evaluate}
use polynomial.Word.Laws.{evaluate-IsWord}
use polynomial.Assembly.Item.{
  Annotation, AssemblyItem, AssemblyItems, op, undefined_item, push, push_tag, tag,
}
use polynomial.Assembly.Semantic.{is_case, terminating_instructions, alters_control_flow}
use polynomial.Assembly.Peephole.Machine.{
  Chain, Memory, perform, operate, applied, returned, split_stack, dup, swap, exchange, push_copy,
  with_world, step, op_step, proceed, run, Outcome, fault, Next, stop, go,
}
use polynomial.Assembly.Peephole.Plain.{IsPlain, perform_all, then_perform}
use polynomial.Assembly.Peephole.Keeps.{HasWord}

get-IsWord : (s : List ℕ) (k v : ℕ) → All IsWord s → get_elem? s k ≡ some v → IsWord v
get-IsWord [] k v h e = none_ne_some e
get-IsWord (x ∷ s) zero v h e = subst IsWord (some_inj e) h.0
get-IsWord (x ∷ s) (suc k) v h e = get-IsWord s k v h.1 e

set-IsWord : (s : List ℕ) (k v : ℕ) → All IsWord s → IsWord v → All IsWord (set s k v)
set-IsWord [] k v h e = tt
set-IsWord (x ∷ s) zero v h e = (e, h.1)
set-IsWord (x ∷ s) (suc k) v h e = (h.0, set-IsWord s k v h.1 e)

dup-IsWord : (n : ℕ) (s t : List ℕ) → All IsWord s → dup n s ≡ some t → All IsWord t
dup-IsWord n s t h e = elim (Option-cases (get_elem? s (n - 1))) [
  | inl missing ↦ none_ne_some (sym (ap (λ o. push_copy o s) missing) ∙ e)
  | inr (v, found) ↦
      subst (All IsWord) (some_inj (sym (ap (λ o. push_copy o s) found) ∙ e))
        (get-IsWord s (n - 1) v h found, h)
]

swap-IsWord : (n : ℕ) (s t : List ℕ) → All IsWord s → swap n s ≡ some t → All IsWord t
swap-IsWord n [] t h e = none_ne_some e
swap-IsWord n (a ∷ s) t h e = elim (Option-cases (get_elem? s (n - 1))) [
  | inl missing ↦ none_ne_some (sym (ap (λ o. exchange o a (n - 1) s) missing) ∙ e)
  | inr (b, found) ↦
      subst (All IsWord) (some_inj (sym (ap (λ o. exchange o a (n - 1) s) found) ∙ e))
        (get-IsWord s (n - 1) b h.1 found, set-IsWord s (n - 1) a h.1 h.0)
]

split-IsWord :
    (n : ℕ) (s xs r : List ℕ)
    → All IsWord s
    → split_stack n s ≡ some (xs, r)
    → All IsWord xs × All IsWord r
split-IsWord zero s xs r h e = (
  subst (All IsWord) (ap (λ (p : List ℕ × List ℕ). p.0) (some_inj e)) tt,
  subst (All IsWord) (ap (λ (p : List ℕ × List ℕ). p.1) (some_inj e)) h,
)
split-IsWord (suc n) [] xs r h e = none_ne_some e
split-IsWord (suc n) (v ∷ s) xs r h e = elim (Option-cases (split_stack n s)) [
  | inl missing ↦ absurd (cc (missing, e))
  | inr (p, found) ↦
      let (hx, hr) = split-IsWord n s p.0 p.1 h.1 found in
      let first : (v ∷ p.0 ≡ xs) = cc (found, e) in
      let rest : (p.1 ≡ r) = cc (found, e) in
      (subst (All IsWord) first (h.0, hx), subst (All IsWord) rest hr)
]

not_control :
    (i : Instruction) (a : Annotation)
    → alters_control_flow (op i a) ≡ false
    → ((i == Instruction.jump) ≡ false)
      × ((i == Instruction.jumpi) ≡ false)
      × (is_case terminating_instructions i ≡ false)
unfolding alters_control_flow is_case
not_control i a h = ground arith

module _ (c : Chain) where
  open c use {World, effect, address, value, effect_words, address_small, value_word}

  with_world-IsWord :
      (o : Option (List ℕ)) (w : World) (m : Memory c)
      → ((t : List ℕ) → o ≡ some t → All IsWord t)
      → with_world c o w ≡ some m
      → All IsWord m.0
  with_world-IsWord none w m h e = none_ne_some e
  with_world-IsWord (some t) w m h e =
      subst (λ (n : Memory c). All IsWord n.0) (some_inj e) (h t refl)

  returned-IsWord :
      (o : Option ℕ) (i : Instruction) (args s : List ℕ) (w : World)
      → ((v : ℕ) → o ≡ some v → IsWord v)
      → All IsWord args
      → All IsWord s
      → All IsWord (returned c o i args s w).0
  returned-IsWord (some v) i args s w ho ha hs = (ho v refl, hs)
  returned-IsWord none i args s w ho ha hs =
      All-append IsWord (effect i args w).0 s (effect_words i args w ha) hs

  operate-IsWord :
      (i : Instruction) (s : List ℕ) (w : World) (m : Memory c)
      → All IsWord s
      → operate c i (s, w) ≡ some m
      → All IsWord m.0
  unfolding operate
  operate-IsWord i s w m h e = elim (Bool-cases (Numbers.is_dup_instruction i)) [
    | inl d ↦
        with_world-IsWord (dup (Numbers.get_dup_number i) s) w m
          (λ t. dup-IsWord (Numbers.get_dup_number i) s t h) (sym (rw d) ∙ e)
    | inr nd ↦ elim (Bool-cases (Numbers.is_swap_instruction i)) [
      | inl x ↦
          with_world-IsWord (swap (Numbers.get_swap_number i) s) w m
            (λ t. swap-IsWord (Numbers.get_swap_number i) s t h) (sym (rw (nd, x)) ∙ e)
      | inr nx ↦
          let e' : (applied c i (split_stack (instruction_info i).args s) w ≡ some m) =
            sym (rw (nd, nx)) ∙ e in
          elim (Option-cases (split_stack (instruction_info i).args s)) [
            | inl missing ↦ none_ne_some (sym (ap (λ o. applied c i o w) missing) ∙ e')
            | inr (p, found) ↦
                let (hx, hr) = split-IsWord (instruction_info i).args s p.0 p.1 h found in
                subst (λ (n : Memory c). All IsWord n.0)
                  (some_inj (sym (ap (λ o. applied c i o w) found) ∙ e'))
                  (returned-IsWord (evaluate i p.0) i p.0 p.1 w (λ v. evaluate-IsWord i p.0 v hx) hx
                    hr)
          ]
    ]
  ]

  pub perform-IsWord :
      (x : AssemblyItem) (s : List ℕ) (w : World) (m : Memory c)
      → HasWord x
      → All IsWord s
      → perform c x (s, w) ≡ some m
      → All IsWord m.0
  unfolding perform
  perform-IsWord (op i a) s w m hw h e = operate-IsWord i s w m h e
  perform-IsWord (undefined_item d a) s w m hw h e = none_ne_some e
  perform-IsWord (push d a) s w m hw h e =
      subst (λ (n : Memory c). All IsWord n.0) (some_inj e) (hw, h)
  perform-IsWord (push_tag d a) s w m hw h e =
      subst (λ (n : Memory c). All IsWord n.0) (some_inj e) (omega (arith, address_small d), h)
  perform-IsWord (tag d a) s w m hw h e = subst (λ (n : Memory c). All IsWord n.0) (some_inj e) h
  perform-IsWord x s w m hw h e =
      subst (λ (n : Memory c). All IsWord n.0) (some_inj e) (value_word x, h)

  -- A plain item is performed, and the run goes on behind it.
  pub plain_step :
      (program : AssemblyItems) (x : AssemblyItem) (rest : AssemblyItems) (m : Memory c)
      → alters_control_flow x ≡ false
      → step c program x rest m ≡ proceed c rest (perform c x m)
  unfolding step perform op_step
  plain_step program (op i a) rest m h = let (j, k, t) = not_control i a h in rw (j, k, t) refl
  plain_step program (push d a) rest m h = refl
  plain_step program x rest m h = refl

  abbrev next_run : AssemblyItems → ℕ → Next c → Option (Outcome c)
  next_run program k nx = elim nx [ stop o ↦ some o | go r m ↦ run c program k r m ]

  pub run-go :
      (program : AssemblyItems) (k : ℕ) (x : AssemblyItem) (rest r : AssemblyItems)
      (m m' : Memory c) (o : Outcome c)
      → step c program x rest m ≡ go r m'
      → run c program k r m' ≡ some o
      → run c program (suc k) (x ∷ rest) m ≡ some o
  unfolding run
  run-go program k x rest r m m' o e h = ap (next_run program k) e ∙ h

  pub run-stop :
      (program : AssemblyItems) (x : AssemblyItem) (rest : AssemblyItems) (m : Memory c)
      (o : Outcome c)
      → step c program x rest m ≡ stop o
      → run c program 1 (x ∷ rest) m ≡ some o
  unfolding run
  run-stop program x rest m o e = ap (next_run program 0) e

  -- A run whose first step is known.
  pub run-go_inv :
      (program : AssemblyItems) (n : ℕ) (x : AssemblyItem) (rest r : AssemblyItems)
      (m m' : Memory c) (o : Outcome c)
      → step c program x rest m ≡ go r m'
      → run c program n (x ∷ rest) m ≡ some o
      → (k : ℕ) × (n ≡ suc k) × (run c program k r m' ≡ some o)
  unfolding run
  run-go_inv program zero x rest r m m' o e h = none_ne_some h
  run-go_inv program (suc k) x rest r m m' o e h = (k, refl, ap (next_run program k) (sym e) ∙ h)

  pub run-stop_inv :
      (program : AssemblyItems) (n : ℕ) (x : AssemblyItem) (rest : AssemblyItems) (m : Memory c)
      (o q : Outcome c)
      → step c program x rest m ≡ stop q
      → run c program n (x ∷ rest) m ≡ some o
      → q ≡ o
  unfolding run
  run-stop_inv program zero x rest m o q e h = none_ne_some h
  run-stop_inv program (suc k) x rest m o q e h = some_inj (ap (next_run program k) (sym e) ∙ h)

  -- A run that begins with a plain item and does not fault performs the item.
  pub plain_first :
      (program : AssemblyItems) (n : ℕ) (x : AssemblyItem) (rest : AssemblyItems) (m : Memory c)
      (o : Outcome c)
      → alters_control_flow x ≡ false
      → o ≢ fault
      → run c program n (x ∷ rest) m ≡ some o
      → (k : ℕ) × (m' : Memory c) × (n ≡ suc k)
        × (perform c x m ≡ some m')
        × (run c program k rest m' ≡ some o)
  plain_first program n x rest m o plain fine h = elim (Option-cases (perform c x m)) [
    | inl missing ↦
        let e = plain_step program x rest m plain ∙ ap (proceed c rest) missing in
        absurd (fine (sym (run-stop_inv program n x rest m o fault e h)))
    | inr (m', found) ↦
        let e = plain_step program x rest m plain ∙ ap (proceed c rest) found in
        let (k, eq, r) = run-go_inv program n x rest rest m m' o e h in (k, m', eq, found, r)
  ]

  -- A run through plain items performs them.
  pub run-plain :
      (program : AssemblyItems) (n : ℕ) (xs left : AssemblyItems) (m : Memory c) (o : Outcome c)
      → All IsPlain xs
      → o ≢ fault
      → run c program n (xs ++ left) m ≡ some o
      → (k : ℕ) × (m' : Memory c) × (k + length xs ≤ n)
        × (perform_all c xs m ≡ some m')
        × (run c program k left m' ≡ some o)
  unfolding perform_all
  run-plain program n [] left m o plain fine h = (n, m, omega arith, refl, h)
  run-plain program n (x ∷ xs) left m o plain fine h =
      let (k, m₁, e, p, h₁) = plain_first program n x (xs ++ left) m o plain.0.0 fine h in
      let (j, m₂, l, q, h₂) = run-plain program k xs left m₁ o plain.1 fine h₁ in
      (j, m₂, omega arith, ap (λ o. then_perform c o (perform_all c xs)) p ∙ q, h₂)

  -- And the other way round.
  pub plain-run :
      (program : AssemblyItems) (k : ℕ) (xs left : AssemblyItems) (m m' : Memory c) (o : Outcome c)
      → All IsPlain xs
      → perform_all c xs m ≡ some m'
      → run c program k left m' ≡ some o
      → (n : ℕ) × (run c program n (xs ++ left) m ≡ some o)
  unfolding perform_all
  plain-run program k [] left m m' o plain e h =
      (k, subst (λ (n : Memory c). run c program k left n ≡ some o) (sym (some_inj e)) h)
  plain-run program k (x ∷ xs) left m m' o plain e h = elim (Option-cases (perform c x m)) [
    | inl missing ↦ none_ne_some (sym (ap (λ o. then_perform c o (perform_all c xs)) missing) ∙ e)
    | inr (m₁, found) ↦
        let (n, r) =
          plain-run program k xs left m₁ m' o plain.1
            (sym (ap (λ o. then_perform c o (perform_all c xs)) found) ∙ e) h in
        (
          suc n,
          run-go program n x (xs ++ left) (xs ++ left) m m₁ o
              (plain_step program x (xs ++ left) m plain.0.0 ∙ ap (proceed c (xs ++ left)) found) r,
        )
  ]

  -- Words stay words through a row of items.
  pub perform_all-IsWord :
      (xs : AssemblyItems) (s : List ℕ) (w : World) (m : Memory c)
      → All HasWord xs
      → All IsWord s
      → perform_all c xs (s, w) ≡ some m
      → All IsWord m.0
  unfolding perform_all
  perform_all-IsWord [] s w m hx h e = subst (λ (n : Memory c). All IsWord n.0) (some_inj e) h
  perform_all-IsWord (x ∷ xs) s w m hx h e = elim (Option-cases (perform c x (s, w))) [
    | inl missing ↦ none_ne_some (sym (ap (λ o. then_perform c o (perform_all c xs)) missing) ∙ e)
    | inr (m₁, found) ↦
        perform_all-IsWord xs m₁.0 m₁.1 m hx.1 (perform-IsWord x s w m₁ hx.0 h found)
          (sym (ap (λ o. then_perform c o (perform_all c xs)) found) ∙ e)
  ]
