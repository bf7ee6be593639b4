-- ===== src/Assembly/Tests.antt =====
-- The theorems on the tables of SemanticInformation at some instructions.
use polynomial.Word.{evaluate}
use polynomial.Prelude.{
  ℕ, [], ◌∷◌, ◌↔◌, ◌≤◌, ◌<◌, ◌*◌, ◌^◌, ◌≡◌, refl, ◌||◌, some, true, Bool, arith,
}
use polynomial.Instruction
use polynomial.Instruction.Info.{instruction_info}
use polynomial.Assembly.Item.{
  op, tag, push_tag, located, no_location, to_sub_assembly_tag, bytes_required,
}
use polynomial.Assembly.SubTags.{split_of, split_foreign_push_tag-to_sub_assembly_tag}
use polynomial.Assembly.Sizes.{bytes_required-least}
use polynomial.Assembly.Semantic.{
  is_case, movable, side_effect_free, is_deterministic, invalidates_memory, invalidates_storage,
  invalid_in_view_functions, invalid_in_pure_functions, instruction_terminates_control_flow,
  alters_control_flow, is_jump_instruction, breaks_cse_analysis_block, is_commutative_operation,
}
use polynomial.Assembly.Effects.{
  movable-side_effect_free, invalidates-side_effects, terminates-alters_control_flow,
  commutative-evaluate,
}

mulmod-movable : movable Instruction.mulmod ≡ true
unfolding movable is_case instruction_info
mulmod-movable = refl

movable-side_effect_free_example :
    (side_effect_free Instruction.mulmod ≡ some true)
    × (is_deterministic (op Instruction.mulmod (located no_location)) ≡ true)
movable-side_effect_free_example =
    movable-side_effect_free Instruction.mulmod (located no_location) (omega arith) mulmod-movable

invalidates-side_effects_example :
    ((invalidates_memory Instruction.sstore || invalidates_storage Instruction.sstore) ≡ true
      → (instruction_info Instruction.sstore).side_effects ≡ true)
    × (invalidates_storage Instruction.sstore ≡ true
        → invalid_in_view_functions Instruction.sstore ≡ true)
    × (invalid_in_view_functions Instruction.sstore ≡ true
        → invalid_in_pure_functions Instruction.sstore ≡ true)
invalidates-side_effects_example = invalidates-side_effects Instruction.sstore (omega arith)

terminates-alters_control_flow_example :
    ((instruction_terminates_control_flow Instruction.revert
          || is_jump_instruction (op Instruction.revert (located no_location)))
        ≡ true
      → alters_control_flow (op Instruction.revert (located no_location)) ≡ true)
    × ((msize_important : Bool)
        → alters_control_flow (op Instruction.revert (located no_location)) ≡ true
        → breaks_cse_analysis_block (op Instruction.revert (located no_location)) msize_important
          ≡ true)
terminates-alters_control_flow_example =
    terminates-alters_control_flow Instruction.revert (located no_location) (omega arith)

commutative-evaluate_example :
    ((is_commutative_operation (op Instruction.mul (located no_location)) ≡ true) ↔ (
      (x y : ℕ)
      → (v : ℕ) × (evaluate Instruction.mul (x ∷ y ∷ []) ≡ some v)
        × (evaluate Instruction.mul (y ∷ x ∷ []) ≡ some v)))
    × (is_commutative_operation (op Instruction.mul (located no_location)) ≡ true
        → (movable Instruction.mul ≡ true)
          × ((instruction_info Instruction.mul).args ≡ 2)
          × ((instruction_info Instruction.mul).ret ≡ 1))
commutative-evaluate_example =
    commutative-evaluate Instruction.mul (located no_location) (omega arith)

split_foreign_push_tag-to_sub_assembly_tag_example :
    (split_of (to_sub_assembly_tag (tag 5 (located no_location)) 3) ≡ some (3, 5))
    × (split_of (to_sub_assembly_tag (push_tag 5 (located no_location)) 3) ≡ some (3, 5))
split_foreign_push_tag-to_sub_assembly_tag_example =
    split_foreign_push_tag-to_sub_assembly_tag 3 5 (located no_location) (omega arith) (omega arith)

bytes_required-least_example :
    (bytes_required 256 ≤ 1 → 256 < 2 ^ (8 * 1)) × (256 < 2 ^ (8 * 1) → bytes_required 256 ≤ 1)
bytes_required-least_example = bytes_required-least 256 1 (omega arith)
