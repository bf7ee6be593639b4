-- ===== src/Assembly/Constants/Find.antt =====
-- The search for a routine has a result, which computes the constant and passes the check.
use mathlib.Core.Path.{subst}
use polynomial.Prelude.{
  ℕ, zero, suc, ◌+◌, ◌-◌, ◌*◌, ◌^◌, ◌≤◌, ◌<◌, ◌≡◌, refl, sym, ap, ◌∙◌, true, Option, some, List, [],
  ◌∷◌, ◌++◌, ◌==◌, ==_refl, ltb, ltb→lt, Bool-cases, Option-cases, inl, inr, All-append, arith,
}
use polynomial.Instruction
use polynomial.Word
use polynomial.Word.{IsWord}
use polynomial.Assembly.Item.{AssemblyItems, bytes_required}
use polynomial.Assembly.Sizes.{bytes_required-least}
use polynomial.Assembly.Constants.{Params, of_instruction, of_number, compute_gas}
use polynomial.Assembly.Constants.Split.{decompose-IsSplit}
use polynomial.Assembly.Constants.Tiny.{
  IsRoutine, IsRoutine-append, number-IsRoutine, operation-IsPriced, compute_gas-some, not_step,
}
use polynomial.Assembly.Constants.Rounds.{IsFound, after_first, new_routine-IsFound}
use polynomial.Assembly.Constants.Compute.{
  Steps, pure, ◌>>=◌, Attempt, decompose, new_routine, attempt, attempts, improved, best,
  first_attempt, decomposed, representation, find_on, find_representation, check_representation,
  is_only, compute_routine, checked_routine, asserted, checked_items, stack,
}

-- A shorter complement is at most half of the value.
complement_half :
    (value : ℕ)
    → IsWord value
    → bytes_required (Word.not value) < bytes_required value
    → 2 * Word.not value ≤ value
unfolding Word.not
complement_half value word h =
    let (_, all) = bytes_required-least value 32 word in
    let (few, _) = bytes_required-least (Word.not value) 31 (omega arith) in
    let size = all (omega arith) in let small = few (omega arith) in omega arith

small_representation :
    (p : Params) (find : ℕ → Steps AssemblyItems) (v steps : ℕ)
    → ltb v 0x10000 ≡ true
    → representation p find v steps ≡ some (of_number v ∷ [], steps)
unfolding representation
small_representation p find v steps h = rw h refl

module _ (p : Params) where
  -- An attempt that computes the value.
  IsGood : ℕ → Option Attempt → Type 0
  IsGood value o = (a : Attempt) × (o ≡ some a) × IsRoutine p value a.routine

  module _ (find : ℕ → Steps AssemblyItems) (bound : ℕ)
      (finds : (v : ℕ) → IsWord v → v < bound → (steps : ℕ) → IsFound p v (find v steps))
      (value : ℕ) (word : IsWord value) (below : value < 2 * bound) where
    improved-IsGood :
        (a : Attempt) (o : Option (AssemblyItems × ℕ))
        → IsRoutine p value a.routine
        → IsFound p value o
        → IsGood value (improved p find a o)
    unfolding IsGood
    improved-IsGood a o good (r, n, e, routine) =
        let (gas, cost) = compute_gas-some p r routine.priced in
        elim (Bool-cases (ltb gas a.best_gas)) [
          | inl t ↦
              (record { routine = r; best_gas = gas; steps = n - 1 }, rw (e, cost, t) refl, routine)
          | inr f ↦ (record a { steps = n - 1 }, rw (e, cost, f) refl, good)
        ]

    attempt-IsGood :
        (n : ℕ) (o : Option Attempt)
        → n < 247
        → 65536 ≤ value
        → IsGood value o
        → IsGood value (attempt p find value (n + 9) o)
    unfolding attempt IsGood
    attempt-IsGood n o low large (a, e, good) =
        subst (λ (o : Option Attempt). IsGood value (attempt p find value (n + 9) o)) (sym e)
          (elim (Bool-cases (a.steps == 0)) [
            | inl t ↦ (a, rw t refl, good)
            | inr f ↦ elim (Option-cases (decompose value (n + 9))) [
              | inl none_there ↦ (a, rw (f, none_there) refl, good)
              | inr (parts, there) ↦
                  let split = decompose-IsSplit value n parts word large there in
                  let (a', e', good') =
                    improved-IsGood a (new_routine p find (n + 9) parts a.steps) good (
                      new_routine-IsFound p find bound finds value (n + 9) parts a.steps
                        (omega arith) word below split) in
                  (a', rw (f, there) e', good')
            ]
          ])

    attempts-IsGood :
        (n : ℕ) (o : Option Attempt)
        → n ≤ 247
        → 65536 ≤ value
        → IsGood value o
        → IsGood value (attempts p find value n o)
    unfolding attempts
    attempts-IsGood zero o low large good = good
    attempts-IsGood (suc n) o low large good =
        attempts-IsGood n (attempt p find value (n + 9) o) (omega arith) large
          (attempt-IsGood n o (omega arith) large good)

    decomposed-IsFound :
        (steps : ℕ) → 65536 ≤ value → IsFound p value (decomposed p find value steps)
    unfolding decomposed IsGood
    decomposed-IsFound steps large =
        let one = of_number value ∷ [] in
        let routine = number-IsRoutine p value in
        let (gas, cost) = compute_gas-some p one routine.priced in
        let start : IsGood value (first_attempt p find one steps (compute_gas p one)) =
          (record { routine = one; best_gas = gas; steps = steps }, rw cost refl, routine) in
        let (a, e, good) =
          attempts-IsGood 247 (first_attempt p find one steps (compute_gas p one)) (omega arith)
            large start in
        (a.routine, a.steps, ap (best p find) e, good)

    complement-IsFound :
        (steps : ℕ)
        → 2 * Word.not value ≤ value
        → IsFound p value (
            (find (Word.not value) >>= λ items. pure (items ++ of_instruction Instruction.not ∷ []))
              steps)
    unfolding Word.not
    complement-IsFound steps half =
        let (r, left, e, routine) = finds (Word.not value) (omega arith) (omega arith) steps in
        let last = of_instruction Instruction.not ∷ [] in
        (
          r ++ last,
          left,
          after_first (find (Word.not value)) (λ items. pure (items ++ last)) steps left r e,
          record {
            puts = λ s.
                IsRoutine-append p last s routine
                ∙ not_step p (Word.not value) s
                ∙ ap (λ (v : ℕ). stack (v ∷ s)) (omega arith);
            priced = All-append _ r last routine.priced (operation-IsPriced.3, tt);
          },
        )

    representation-IsFound : (steps : ℕ) → IsFound p value (representation p find value steps)
    unfolding representation
    representation-IsFound steps = elim (Bool-cases (ltb value 0x10000)) [
      | inl t ↦ (of_number value ∷ [], steps, rw t refl, number-IsRoutine p value)
      | inr f ↦ elim (Bool-cases (ltb (bytes_required (Word.not value)) (bytes_required value))) [
        | inl t ↦ rw (f, t) (complement-IsFound steps (complement_half value word (ltb→lt _ _ t)))
        | inr g ↦ rw (f, g) (decomposed-IsFound steps (ground arith))
      ]
    ]

  find_on-IsFound :
      (fuel v : ℕ)
      → IsWord v
      → v < 2 ^ fuel
      → (steps : ℕ) → IsFound p v (find_on p (suc fuel) v steps)
  unfolding find_on
  find_on-IsFound zero v word low steps =
      let small : (ltb v 0x10000 ≡ true) = ground arith in
      (
        of_number v ∷ [],
        steps,
        small_representation p (find_on p zero) v steps small,
        number-IsRoutine p v,
      )
  find_on-IsFound (suc fuel) v word low steps =
      representation-IsFound (find_on p (suc fuel)) (2 ^ fuel) (find_on-IsFound fuel) v word
        (omega arith) steps

pub find_representation-some :
    (p : Params) (v steps : ℕ) → IsWord v → IsFound p v (find_representation p v steps)
unfolding find_representation
find_representation-some p v steps word = find_on-IsFound p 256 v word word steps

pub compute_routine-some :
    (p : Params) (v : ℕ)
    → IsWord v
    → (r : AssemblyItems) × (compute_routine p v ≡ some r) × IsRoutine p v r
unfolding compute_routine check_representation
compute_routine-some p v word =
    let (r, left, e, routine) = find_representation-some p v 10000 word in
    (
      r,
      ap (checked_routine p v) e
          ∙ ap (λ c. asserted r (is_only v c)) (routine.puts [])
          ∙ ap (λ b. asserted r (some b)) (==_refl v),
      routine,
    )

-- For every word and any number of steps that are left, the search has a result: the fuel is enough
-- and no exception is thrown. The check evaluates the items of the result, on any stack, to the word
-- on top of that stack.
pub find_representation-value :
    (p : Params) (v steps : ℕ)
    → IsWord v
    → (routine : AssemblyItems) × (left : ℕ) × (find_representation p v steps
        ≡ some (routine, left))
      × ((s : List ℕ) → checked_items p routine s ≡ stack (v ∷ s))
find_representation-value p v steps word =
    let (r, left, e, routine) = find_representation-some p v steps word in
    (r, left, e, routine.puts)

-- For every word the assertion on the routine that `ComputeMethod` finds holds, so that there is a
-- routine; it evaluates to the word on top of any stack.
pub compute_routine-value :
    (p : Params) (v : ℕ)
    → IsWord v
    → (routine : AssemblyItems) × (compute_routine p v ≡ some routine)
      × ((s : List ℕ) → checked_items p routine s ≡ stack (v ∷ s))
compute_routine-value p v word =
    let (r, e, routine) = compute_routine-some p v word in (r, e, routine.puts)
