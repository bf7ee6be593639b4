-- ===== src/Rules/Part7.antt =====
-- Parts 7 and 8 of the rule list: constants are moved to the outside, and shifts are joined with
-- other operations.
use polynomial.Prelude.{
  ℕ, ◌+◌, ◌/◌, ◌^◌, ltb, leb, ◌==◌, false, Bool, not, ◌&&◌, List, [], ◌∷◌, ◌++◌, if◌then◌else◌,
  bit_and,
}
use polynomial.Instruction
use polynomial.Instruction.{Instruction}
use polynomial.Word
use polynomial.Word.{max_word}
use polynomial.Rules.{
  Rules, Pattern, Group, rule, computed, guarded_rule, value, a, b, x, y, op2, group_a, group_b,
}
use polynomial.Rules.Part1.{shl_workaround}
use polynomial.Rules.Part5.{for_each}

-- The rules for one order of `X` and `A`: `xa` is the operation on both.
abbrev pub moving_rules : Instruction → (ℕ → ℕ → ℕ) → Pattern → Rules
moving_rules op fun xa =
    computed (op2 op xa b) (λ d. op2 op x (value (fun (d group_a) (d group_b)))) false
    ∷ rule (op2 op xa y) (op2 op (op2 op x y) a) false
    ∷ computed (op2 op b xa) (λ d. op2 op x (value (fun (d group_a) (d group_b)))) false
    ∷ rule (op2 op y xa) (op2 op (op2 op y x) a) false
    ∷ []

abbrev pub associative_operations : List (Instruction × (ℕ → ℕ → ℕ))
associative_operations =
    (Instruction.add, Word.add)
    ∷ (Instruction.mul, Word.mul)
    ∷ (Instruction.and, Word.and)
    ∷ (Instruction.or, Word.or)
    ∷ (Instruction.xor, Word.xor)
    ∷ []

abbrev pub associative_rules : Instruction × (ℕ → ℕ → ℕ) → Rules
associative_rules op_fun =
    moving_rules op_fun.0 op_fun.1 (op2 op_fun.0 x a)
    ++ moving_rules op_fun.0 op_fun.1 (op2 op_fun.0 a x)

-- Two shifts by constants in the same direction.
abbrev pub joined_shift : Instruction → (Group → ℕ) → Pattern
joined_shift op d =
    if leb 256 (d group_a + d group_b)
    then op2 Instruction.and x (value 0)
    else op2 op (value (d group_a + d group_b)) x

-- Two shifts by constants in opposite directions: `op` is the direction of the inner one, and `back`
-- that of the outer one.
abbrev pub opposite_shift : Instruction → Instruction → ℕ → (Group → ℕ) → Pattern
opposite_shift op back mask d =
    if ltb (d group_b) (d group_a)
    then op2 Instruction.and (op2 op (value (Word.sub (d group_a) (d group_b))) x) (value mask)
    else if ltb (d group_a) (d group_b)
    then op2 Instruction.and (op2 back (value (Word.sub (d group_b) (d group_a))) x) (value mask)
    else op2 Instruction.and x (value mask)

abbrev pub both_below : (Group → ℕ) → Bool
both_below d = ltb (d group_a) 256 && ltb (d group_b) 256

abbrev pub masked_shift : Instruction → (ℕ → ℕ → ℕ) → (Group → ℕ) → Pattern
masked_shift op shift d =
    op2 Instruction.and (op2 op (value (d group_b)) x) (value (shift (d group_a) (d group_b)))

abbrev pub masked_shift_rules : Instruction × (ℕ → ℕ → ℕ) → Rules
masked_shift_rules op_shift =
    guarded_rule (op2 op_shift.0 b (op2 Instruction.and x a)) (masked_shift op_shift.0 op_shift.1)
      false (λ d. ltb (d group_b) 256)
    ∷ guarded_rule (op2 op_shift.0 b (op2 Instruction.and a x)) (masked_shift op_shift.0 op_shift.1)
        false (λ d. ltb (d group_b) 256)
    ∷ []

-- `feasibilityFunction`: the constant has ones wherever the shifted value may have them.
abbrev pub covers : (Group → ℕ) → Bool
covers d =
    not (ltb 256 (d group_b))
    && bit_and (d group_a) (max_word / 2 ^ d group_b) == max_word / 2 ^ d group_b

abbrev pub simplification_rule_list_part7 : Rules
simplification_rule_list_part7 =
    for_each associative_rules associative_operations
    ++ computed (op2 Instruction.shl b (op2 Instruction.shl a x)) (joined_shift Instruction.shl)
        false
      ∷ computed (op2 Instruction.shr b (op2 Instruction.shr a x)) (joined_shift Instruction.shr)
          false
      ∷ guarded_rule (op2 Instruction.shr b (op2 Instruction.shl a x))
          (λ d.
            opposite_shift Instruction.shl Instruction.shr
              (shl_workaround max_word (d group_a) / 2 ^ d group_b) d)
          false both_below
      ∷ guarded_rule (op2 Instruction.shl b (op2 Instruction.shr a x))
          (λ d.
            opposite_shift Instruction.shr Instruction.shl
              (shl_workaround (max_word / 2 ^ d group_a) (d group_b)) d)
          false both_below
      ∷ for_each masked_shift_rules
          ((Instruction.shl, shl_workaround) ∷ (Instruction.shr, λ m n. m / 2 ^ n) ∷ [])
    ++ rule (op2 Instruction.mul x (op2 Instruction.shl y (value 1))) (op2 Instruction.shl y x)
        false
      ∷ rule (op2 Instruction.mul (op2 Instruction.shl x (value 1)) y) (op2 Instruction.shl x y)
          false
      ∷ rule (op2 Instruction.div x (op2 Instruction.shl y (value 1))) (op2 Instruction.shr y x)
          false
      ∷ guarded_rule (op2 Instruction.and a (op2 Instruction.shr b x))
          (λ d. op2 Instruction.shr b x) false covers
      ∷ guarded_rule (op2 Instruction.and (op2 Instruction.shr b x) a)
          (λ d. op2 Instruction.shr b x) false covers
      ∷ []

abbrev pub simplification_rule_list_part8 : Rules
simplification_rule_list_part8 =
    computed (op2 Instruction.sub x a) (λ d. op2 Instruction.add x (value (Word.sub 0 (d group_a))))
      false
    ∷ rule (op2 Instruction.sub (op2 Instruction.add x a) y)
        (op2 Instruction.add (op2 Instruction.sub x y) a) false
    ∷ rule (op2 Instruction.sub (op2 Instruction.add a x) y)
        (op2 Instruction.add (op2 Instruction.sub x y) a) false
    ∷ computed (op2 Instruction.sub x (op2 Instruction.add y a))
        (λ d. op2 Instruction.add (op2 Instruction.sub x y) (value (Word.sub 0 (d group_a)))) false
    ∷ computed (op2 Instruction.sub x (op2 Instruction.add a y))
        (λ d. op2 Instruction.add (op2 Instruction.sub x y) (value (Word.sub 0 (d group_a)))) false
    ∷ []
