-- ===== src/Assembly/Constants/Rounds.antt =====
-- A round of the search for a routine: what it finds computes the value.
use mathlib.Core.Path.{subst}
use mathlib.Core.List.{append-nil}
use polynomial.Prelude.{
  ℕ, ◌*◌, ◌%◌, ◌^◌, ◌≤◌, ◌<◌, ◌≡◌, refl, sym, ap, ◌∙◌, true, false, Option, some, List, [], ◌∷◌,
  ◌++◌, ◌==◌, ==_iff, Bool-cases, inl, inr, All-append, arith,
}
use polynomial.Instruction
use polynomial.Version.{has_bitwise_shifting}
use polynomial.Word.{IsWord}
use polynomial.Word.Powers.{mul-mod_left}
use polynomial.Assembly.Item.{AssemblyItems}
use polynomial.Assembly.Constants.{Params, of_instruction, of_number}
use polynomial.Assembly.Constants.Split.{IsSplit}
use polynomial.Assembly.Constants.Tiny.{
  IsPriced, IsRoutine, IsRoutine-append, number-IsPriced, operation-IsPriced, add_step, sub_step,
  mul_step, power_step, shl_step,
}
use polynomial.Assembly.Constants.Compute.{
  Steps, pure, ◌>>=◌, Parts, upper_routine, new_routine, joining, lower_routine, checked_items,
  stack,
}

-- A computation whose first part is known.
pub after_first :
    {A B : Type 0} (first : Steps A) (rest : A → Steps B) (steps left : ℕ) (a : A)
    → first steps ≡ some (a, left)
    → (first >>= rest) steps ≡ rest a left
after_first first rest steps left a h = rw (h, ◌>>=◌) refl

module _ (p : Params) where
  -- A search that has a result, and the result computes the value.
  abbrev pub IsFound : ℕ → Option (AssemblyItems × ℕ) → Type 0
  IsFound v o = (r : AssemblyItems) × (n : ℕ) × (o ≡ some (r, n)) × IsRoutine p v r

  module _ (find : ℕ → Steps AssemblyItems) (bound : ℕ)
      (finds : (v : ℕ) → IsWord v → v < bound → (steps : ℕ) → IsFound v (find v steps)) where
    shifted :
        (u bits : ℕ) (r : AssemblyItems)
        → bits ≤ 255
        → has_bitwise_shifting p.svm_version ≡ true
        → IsRoutine p u r
        → IsRoutine p
            (u * 2 ^ bits % 2 ^ 256)
            (r ++ (of_number bits ∷ of_instruction Instruction.shl ∷ []))
    shifted u bits r h shifts routine = record {
      puts = λ s.
          IsRoutine-append p (of_number bits ∷ of_instruction Instruction.shl ∷ []) s routine
          ∙ shl_step p bits u s h shifts;
      priced =
          All-append _ r (of_number bits ∷ of_instruction Instruction.shl ∷ []) routine.priced
            (number-IsPriced bits, (operation-IsPriced.5, tt));
    }

    power :
        (bits : ℕ)
        → bits ≤ 255
        → IsRoutine p
            (2 ^ bits % 2 ^ 256)
            (of_number bits ∷ of_number 2 ∷ of_instruction Instruction.exp ∷ [])
    power bits h = record {
      puts = λ s. power_step p bits s h;
      priced = (number-IsPriced bits, (number-IsPriced 2, (operation-IsPriced.4, tt)));
    }

    -- Two routines in a row and an instruction on their values.
    joined :
        (a b v : ℕ) (q r : AssemblyItems) (i : ℕ)
        → IsRoutine p a q
        → IsRoutine p b r
        → IsPriced (of_instruction i)
        → ((s : List ℕ) → checked_items p (of_instruction i ∷ []) (b ∷ a ∷ s) ≡ stack (v ∷ s))
        → IsRoutine p v (q ++ (r ++ of_instruction i ∷ []))
    joined a b v q r i hq hr cost step = record {
      puts = λ s.
          IsRoutine-append p (r ++ of_instruction i ∷ []) s hq
          ∙ IsRoutine-append p (of_instruction i ∷ []) (a ∷ s) hr
          ∙ step s;
      priced =
          All-append _ q (r ++ of_instruction i ∷ []) hq.priced
            (All-append _ r (of_instruction i ∷ []) hr.priced (cost, tt));
    }

    pub same_value : (u v : ℕ) (r : AssemblyItems) → u ≡ v → IsRoutine p u r → IsRoutine p v r
    same_value u v r h routine = subst (λ (v : ℕ). IsRoutine p v r) h routine

    upper_routine-IsFound :
        (bits : ℕ) (parts : Parts) (steps : ℕ)
        → bits ≤ 255
        → IsWord parts.upper
        → parts.upper < bound
        → IsFound (parts.upper * 2 ^ bits % 2 ^ 256) (upper_routine p find bits parts steps)
    unfolding upper_routine
    upper_routine-IsFound bits parts steps h word low =
        let (r, n, e, routine) = finds parts.upper word low steps in
        elim (Bool-cases (has_bitwise_shifting p.svm_version)) [
          | inl shifts ↦ (
            r ++ (of_number bits ∷ of_instruction Instruction.shl ∷ []),
            n,
            rw shifts (
                after_first (find parts.upper)
                  (λ items. pure (items ++ (of_number bits ∷ of_instruction Instruction.shl ∷ [])))
                  steps n r e),
            shifted parts.upper bits r h shifts routine,
          )
          | inr old ↦ elim (Bool-cases (parts.upper == 1)) [
            | inl one ↦ (
              of_number bits ∷ of_number 2 ∷ of_instruction Instruction.exp ∷ [],
              steps,
              rw (old, one) refl,
              same_value (2 ^ bits % 2 ^ 256) (parts.upper * 2 ^ bits % 2 ^ 256) _
                  (ap (λ (t : ℕ). t % 2 ^ 256)
                    (sym
                      (ap (λ (u : ℕ). u * 2 ^ bits) ((==_iff parts.upper 1).0 one) ∙ omega arith)))
                  (power bits h),
            )
            | inr more ↦
                let start = of_number bits ∷ of_number 2 ∷ of_instruction Instruction.exp ∷ [] in
                (
                  start ++ (r ++ of_instruction Instruction.mul ∷ []),
                  n,
                  rw (old, more)
                      (after_first (find parts.upper)
                        (λ items. pure (start ++ (items ++ of_instruction Instruction.mul ∷ [])))
                        steps n r e),
                  joined (2 ^ bits % 2 ^ 256) parts.upper _ start r Instruction.mul (power bits h)
                      routine operation-IsPriced.2
                      (λ s.
                        mul_step p parts.upper (2 ^ bits % 2 ^ 256) s
                        ∙ ap (λ (t : ℕ). stack (t ∷ s))
                            (mul-mod_left parts.upper (2 ^ bits) (2 ^ 256))),
                )
          ]
        ]

    new_routine-eq :
        (bits : ℕ) (parts : Parts) (steps middle left : ℕ) (low high : AssemblyItems)
        → lower_routine p find parts steps ≡ some (low, middle)
        → upper_routine p find bits parts middle ≡ some (high, left)
        → new_routine p find bits parts steps ≡ some (low ++ (high ++ joining p find parts), left)
    unfolding new_routine
    new_routine-eq bits parts steps middle left low high h k =
        after_first (lower_routine p find parts)
          (λ low. upper_routine p find bits parts >>= λ high.
            pure (low ++ (high ++ joining p find parts)))
          steps middle low h
        ∙ after_first (upper_routine p find bits parts)
            (λ high. pure (low ++ (high ++ joining p find parts))) middle left high k

    -- The value without a lower part.
    whole :
        (value bits : ℕ) (parts : Parts)
        → IsWord value
        → IsSplit value (2 ^ bits) parts
        → parts.lower ≡ 0
        → parts.upper * 2 ^ bits % 2 ^ 256 ≡ value
    whole value bits parts word split zero_left = elim (Bool-cases parts.negative) [
      | inl t ↦ omega (arith, split.below t)
      | inr f ↦ omega (arith, split.above f)
    ]

    joining-IsRoutine :
        (value bits : ℕ) (parts : Parts) (low high : AssemblyItems)
        → IsWord value
        → IsSplit value (2 ^ bits) parts
        → (parts.lower == 0) ≡ false
        → IsRoutine p parts.lower low
        → IsRoutine p (parts.upper * 2 ^ bits % 2 ^ 256) high
        → IsRoutine p value (low ++ (high ++ joining p find parts))
    joining-IsRoutine value bits parts low high word split some_left first second =
        let lower_half = split.lower_half in
        let shift = parts.upper * 2 ^ bits % 2 ^ 256 in
        elim (Bool-cases parts.negative) [
          | inl t ↦
              rw (some_left, t)
                (joined parts.lower shift value low high Instruction.sub first second
                  operation-IsPriced.1
                  (λ s.
                    sub_step p shift parts.lower s
                    ∙ ap (λ (v : ℕ). stack (v ∷ s)) (omega (arith, split.below t))))
          | inr f ↦
              rw (some_left, f)
                (joined parts.lower shift value low high Instruction.add first second
                  operation-IsPriced.0
                  (λ s.
                    add_step p shift parts.lower s
                    ∙ ap (λ (v : ℕ). stack (v ∷ s)) (omega (arith, split.above f))))
        ]

    pub new_routine-IsFound :
        (value bits : ℕ) (parts : Parts) (steps : ℕ)
        → bits ≤ 255
        → IsWord value
        → value < 2 * bound
        → IsSplit value (2 ^ bits) parts
        → IsFound value (new_routine p find bits parts steps)
    new_routine-IsFound value bits parts steps h word below split =
        let upper_half = split.upper_half in
        let lower_half = split.lower_half in
        elim (Bool-cases (parts.lower == 0)) [
          | inl none_left ↦
              let (high, n, e, routine) =
                upper_routine-IsFound bits parts steps h (omega arith) (omega arith) in
              (
                [] ++ (high ++ joining p find parts),
                n,
                new_routine-eq bits parts steps steps n [] high (rw none_left refl) e,
                rw (none_left, append-nil)
                    (same_value (parts.upper * 2 ^ bits % 2 ^ 256) value high
                      (whole value bits parts word split ((==_iff parts.lower 0).0 none_left))
                      routine),
              )
          | inr some_left ↦
              let (low, m, e, first) = finds parts.lower (omega arith) (omega arith) steps in
              let (high, n, e', second) =
                upper_routine-IsFound bits parts m h (omega arith) (omega arith) in
              (
                low ++ (high ++ joining p find parts),
                n,
                new_routine-eq bits parts steps m n low high (rw some_left e) e',
                joining-IsRoutine value bits parts low high word split some_left first second,
              )
        ]
