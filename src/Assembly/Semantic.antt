-- ===== src/Assembly/Semantic.antt =====
-- `SemanticInformation` of libsvmasm/SemanticInformation.cpp. A `switch` over instructions is a
-- test of membership in the list of its cases. `none` is an assertion that throws.
use mathlib.Core.Path.{subst}
use polynomial.Prelude.{
  ◌≡◌, sym, ◌∙◌, Every, done, ◌&◌, Bool-cases, inl, inr, ==_iff, Bool, true, false, not, ◌||◌, ◌&&◌,
  Option, none, some, List, [], ◌∷◌, ltb, ◌==◌, if◌then◌else◌,
}
use polynomial.Instruction
use polynomial.Instruction.{Instruction}
use polynomial.Instruction.Info.{instruction_info}
use polynomial.Instruction.Numbers
use polynomial.Assembly.Item.{
  AssemblyItem, op, undefined_item, tag, push_deploy_time_address, is_instruction,
}

-- One of the cases of a `switch`.
unfoldable pub is_case : List Instruction → Instruction → Bool
is_case [] i = false
is_case (c ∷ cs) i = i == c || is_case cs i

-- A test that is false of all items but operations.
abbrev pub of_operation : (Instruction → Bool) → AssemblyItem → Bool
of_operation test (op i _) = test i
of_operation test _ = false

unfoldable pub is_dup_instruction : AssemblyItem → Bool
unfolding Numbers.is_dup_instruction
is_dup_instruction = of_operation Numbers.is_dup_instruction

unfoldable pub is_swap_instruction : AssemblyItem → Bool
unfolding Numbers.is_swap_instruction
is_swap_instruction = of_operation Numbers.is_swap_instruction

abbrev operation_breaks_block : Instruction → Bool → Bool
operation_breaks_block i msize_important =
    if Numbers.is_swap_instruction i || Numbers.is_dup_instruction i
    then false
    else if i == Instruction.gas || i == Instruction.pc
    then true
    else if i == Instruction.msize
    then true
    else if i == Instruction.sstore
    then false
    else if i == Instruction.mstore
    then false
    else if not msize_important && (i == Instruction.mload || i == Instruction.keccak256)
    then false
    else (instruction_info i).side_effects || ltb 2 (instruction_info i).args

unfoldable pub breaks_cse_analysis_block : AssemblyItem → Bool → Bool
unfolding Numbers.is_swap_instruction Numbers.is_dup_instruction instruction_info
breaks_cse_analysis_block (undefined_item _ _) msize_important = true
breaks_cse_analysis_block (tag _ _) msize_important = true
breaks_cse_analysis_block (push_deploy_time_address _ _) msize_important = true
breaks_cse_analysis_block (op i _) msize_important = operation_breaks_block i msize_important
breaks_cse_analysis_block _ msize_important = false

abbrev pub commutative_operations : List Instruction
commutative_operations =
    Instruction.add ∷ Instruction.mul ∷ Instruction.eq ∷ Instruction.and ∷ Instruction.or
    ∷ Instruction.xor ∷ []

unfoldable pub is_commutative_operation : AssemblyItem → Bool
unfolding is_case
is_commutative_operation = of_operation (is_case commutative_operations)

unfoldable pub is_jump_instruction : AssemblyItem → Bool
unfolding is_instruction
is_jump_instruction item =
    is_instruction item Instruction.jump || is_instruction item Instruction.jumpi

abbrev pub terminating_instructions : List Instruction
terminating_instructions =
    Instruction.return ∷ Instruction.selfdestruct ∷ Instruction.stop ∷ Instruction.invalid
    ∷ Instruction.revert ∷ []

unfoldable pub alters_control_flow : AssemblyItem → Bool
unfolding is_case
alters_control_flow = of_operation (
    is_case (
      Instruction.jump ∷ Instruction.jumpi ∷ Instruction.return ∷ Instruction.selfdestruct
      ∷ Instruction.stop ∷ Instruction.invalid ∷ Instruction.revert ∷ []))

unfoldable pub instruction_terminates_control_flow : Instruction → Bool
unfolding is_case
instruction_terminates_control_flow = is_case terminating_instructions

unfoldable pub terminates_control_flow : AssemblyItem → Bool
unfolding instruction_terminates_control_flow
terminates_control_flow = of_operation instruction_terminates_control_flow

abbrev nondeterministic_instructions : List Instruction
nondeterministic_instructions =
    Instruction.call ∷ Instruction.callcode ∷ Instruction.delegatecall ∷ Instruction.staticcall
    ∷ Instruction.create ∷ Instruction.create2 ∷ Instruction.gas ∷ Instruction.pc
    ∷ Instruction.msize ∷ Instruction.balance ∷ Instruction.extcodesize ∷ Instruction.extcodehash
    ∷ Instruction.returndatacopy ∷ Instruction.returndatasize ∷ []

unfoldable pub is_deterministic : AssemblyItem → Bool
unfolding is_case
is_deterministic (op i _) = not (is_case nondeterministic_instructions i)
is_deterministic _ = true

unfoldable pub movable : Instruction → Bool
unfolding is_case Numbers.is_swap_instruction Numbers.is_dup_instruction instruction_info
movable i =
    if Numbers.is_dup_instruction i || Numbers.is_swap_instruction i
    then false
    else if (instruction_info i).side_effects
    then false
    else not (
        is_case
          (Instruction.keccak256 ∷ Instruction.balance ∷ Instruction.extcodesize
            ∷ Instruction.extcodehash ∷ Instruction.returndatasize ∷ Instruction.sload
            ∷ Instruction.pc ∷ Instruction.msize ∷ Instruction.gas ∷ [])
          i)

unfoldable pub side_effect_free : Instruction → Option Bool
unfolding Numbers.is_swap_instruction Numbers.is_dup_instruction instruction_info
side_effect_free i =
    if not (Numbers.is_dup_instruction i) && not (Numbers.is_swap_instruction i)
    then some (not (instruction_info i).side_effects)
    else none

unfoldable pub side_effect_free_if_no_msize : Instruction → Option Bool
unfolding side_effect_free
side_effect_free_if_no_msize i =
    if i == Instruction.keccak256 || i == Instruction.mload then some true else side_effect_free i

unfoldable pub invalidates_memory : Instruction → Bool
unfolding is_case
invalidates_memory = is_case (
    Instruction.calldatacopy ∷ Instruction.codecopy ∷ Instruction.extcodecopy
    ∷ Instruction.returndatacopy ∷ Instruction.mstore ∷ Instruction.mstore8 ∷ Instruction.call
    ∷ Instruction.callcode ∷ Instruction.delegatecall ∷ Instruction.staticcall ∷ [])

unfoldable pub invalidates_storage : Instruction → Bool
unfolding is_case
invalidates_storage = is_case (
    Instruction.call ∷ Instruction.callcode ∷ Instruction.delegatecall ∷ Instruction.create
    ∷ Instruction.create2 ∷ Instruction.sstore ∷ [])

unfoldable pub invalid_in_view_functions : Instruction → Bool
unfolding is_case
invalid_in_view_functions = is_case (
    Instruction.sstore ∷ Instruction.jump ∷ Instruction.jumpi ∷ Instruction.log0 ∷ Instruction.log1
    ∷ Instruction.log2 ∷ Instruction.log3 ∷ Instruction.log4 ∷ Instruction.create ∷ Instruction.call
    ∷ Instruction.callcode ∷ Instruction.delegatecall ∷ Instruction.create2
    ∷ Instruction.selfdestruct ∷ [])

unfoldable pub invalid_in_pure_functions : Instruction → Bool
unfolding is_case invalid_in_view_functions
invalid_in_pure_functions i =
    is_case
      (Instruction.address ∷ Instruction.balance ∷ Instruction.origin ∷ Instruction.caller
        ∷ Instruction.callvalue ∷ Instruction.gas ∷ Instruction.gasprice ∷ Instruction.extcodesize
        ∷ Instruction.extcodecopy ∷ Instruction.extcodehash ∷ Instruction.blockhash
        ∷ Instruction.coinbase ∷ Instruction.timestamp ∷ Instruction.number ∷ Instruction.difficulty
        ∷ Instruction.gaslimit ∷ Instruction.staticcall ∷ Instruction.sload ∷ [])
      i
    || invalid_in_view_functions i

-- What holds of each case of a `switch` holds of an instruction that is one of them.
pub is_case-cases {κ} :
    (P : Instruction → Type κ) (cases : List Instruction) (i : Instruction)
    → Every P cases
    → is_case cases i ≡ true
    → P i
unfolding is_case
is_case-cases P [] i done h = cc
is_case-cases P (c ∷ cs) i (p & ps) h = elim (Bool-cases (i == c)) [
  | inl e ↦ subst P (sym ((==_iff i c).0 e)) p
  | inr e ↦ is_case-cases P cs i ps (sym (rw e) ∙ h)
]
