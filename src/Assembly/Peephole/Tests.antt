-- ===== src/Assembly/Peephole/Tests.antt =====
-- The theorems on the peephole optimiser at a program with a jump and a dead push.
use polynomial.Prelude.{
  ℕ, ◌%◌, ◌^◌, ◌≡◌, refl, ◌≢◌, some, [], ◌∷◌, length-replicate, replicate, All, arith, true,
}
use polynomial.Instruction
use polynomial.Instruction.{Instruction}
use polynomial.Instruction.Info.{instruction_info}
use polynomial.Word.{evaluate}
use polynomial.Word.Places.{replicate-IsWord}
use polynomial.Instruction.Numbers
use polynomial.Assembly.Semantic.{is_case}
use polynomial.Assembly.Item.{AssemblyItems, op, push, push_tag, tag, located, no_location}
use polynomial.Assembly.Peephole.{optimised_items, optimise, optimise_loop, apply_methods}
use polynomial.Assembly.Peephole.Machine.{
  Chain, run, Outcome, fault, halted, step, op_step, operate, perform, find_tag,
}
use polynomial.Assembly.Peephole.Keeps.{HasWord}
use polynomial.Assembly.Peephole.Tags.{DistinctTags}
use polynomial.Assembly.Peephole.Correct.{run-optimised_items, run-optimise}

-- A chain in which every instruction returns zeros and the world has one state.
abbrev quiet : Chain
quiet = record {
  World = Unit;
  effect = λ i args w. (replicate (instruction_info i).ret 0, w);
  address = λ t. t % 2 ^ 32;
  value = λ item. 0;
  effect_ret = λ i args w. length-replicate (instruction_info i).ret 0;
  effect_quiet = λ i args w e. refl;
  effect_words = λ i args w h. replicate-IsWord (instruction_info i).ret;
  address_small = λ t. omega arith;
  value_word = λ item. omega arith;
}

abbrev program : AssemblyItems
program =
    push_tag 1 (located no_location)
    ∷ op Instruction.jumpi (located no_location)
    ∷ tag 1 (located no_location)
    ∷ push 5 (located no_location)
    ∷ op Instruction.pop (located no_location)
    ∷ op Instruction.stop (located no_location)
    ∷ []

abbrev shorter : AssemblyItems
shorter =
    op Instruction.pop (located no_location)
    ∷ tag 1 (located no_location)
    ∷ op Instruction.stop (located no_location)
    ∷ []

program-DistinctTags : DistinctTags quiet.address program
unfolding find_tag
program-DistinctTags = (refl, tt)

program-HasWord : All HasWord program
program-HasWord = (tt, (tt, (tt, (omega arith, (tt, (tt, tt))))))

abbrev finish : Outcome quiet
finish = halted Instruction.stop ([], tt)

finish-fine : finish ≢ fault
finish-fine h = cc

run-program : run quiet program 6 program (7 ∷ [], tt) ≡ some finish
unfolding run step op_step operate perform find_tag evaluate instruction_info
    Numbers.is_dup_instruction Numbers.is_swap_instruction is_case
run-program = refl

optimise-program : optimise program ≡ some (shorter, true)
unfolding optimise optimise_loop apply_methods
optimise-program = refl

run-optimised_items_example :
    (new : AssemblyItems) × (k : ℕ) × (optimised_items program ≡ some new)
    × (run quiet new k new (7 ∷ [], tt) ≡ some finish)
run-optimised_items_example =
    run-optimised_items quiet program 6 (7 ∷ [], tt) finish program-DistinctTags program-HasWord
      (omega arith, tt) finish-fine run-program

run-optimise_example : (k : ℕ) × (run quiet shorter k shorter (7 ∷ [], tt) ≡ some finish)
run-optimise_example =
    run-optimise quiet program shorter true 6 (7 ∷ [], tt) finish optimise-program
      program-DistinctTags program-HasWord (omega arith, tt) finish-fine run-program
