-- ===== src/Assembly/Peephole.antt =====
-- The peephole optimiser, libsvmasm/PeepholeOptimiser.cpp. `applySimple` of a method is a function
-- of the items in its window: `some out` when it applies and appends `out` to the output, `none`
-- when it returns false (it has appended nothing then).
pub mod Machine
pub mod Plain
pub mod Keeps
pub mod Pops
pub mod Swaps
pub mod Masks
pub mod Moves
pub mod Loop
pub mod Tags
pub mod Run
pub mod Simulation
pub mod Correct
mod Tests
use polynomial.Prelude.{
  ℕ, zero, suc, ◌+◌, Bool, true, false, not, ◌||◌, ◌&&◌, Option, none, some, List, [], ◌∷◌, ◌++◌,
  ltb, ◌==◌, if◌then◌else◌, length, replicate, bit_and,
}
use polynomial.Instruction
use polynomial.Instruction.{Instruction}
use polynomial.Instruction.Info.{instruction_info}
use polynomial.Assembly.Item.{
  AssemblyItem, AssemblyItems, op, push, push_string, push_tag, push_sub, push_sub_size,
  push_program_size, push_data, push_library_address, tag, same_item, is_instruction, location_of,
  located, no_location, items_bytes,
}
use polynomial.Assembly.Semantic.{
  is_dup_instruction, is_swap_instruction, is_commutative_operation, is_case,
}

unfoldable pub identity : AssemblyItem → Option AssemblyItems
identity item = some (item ∷ [])

-- The types of item that only push a value.
abbrev pub only_pushes : AssemblyItem → Bool
only_pushes (push _ _) = true
only_pushes (push_string _ _) = true
only_pushes (push_tag _ _) = true
only_pushes (push_sub _ _) = true
only_pushes (push_sub_size _ _) = true
only_pushes (push_program_size _ _) = true
only_pushes (push_data _ _) = true
only_pushes (push_library_address _ _) = true
only_pushes _ = false

unfoldable pub push_pop : AssemblyItem → AssemblyItem → Option AssemblyItems
unfolding is_instruction is_dup_instruction
push_pop item pop =
    if is_instruction pop Instruction.pop && (is_dup_instruction item || only_pushes item)
    then some []
    else none

unfoldable pub op_pop : AssemblyItem → AssemblyItem → Option AssemblyItems
unfolding is_instruction
op_pop (op instr a) pop =
    if is_instruction pop Instruction.pop
      && ((instruction_info instr).ret == 1 && not (instruction_info instr).side_effects)
    then some (replicate (instruction_info instr).args (op Instruction.pop (located a.location)))
    else none
op_pop _ pop = none

unfoldable pub double_swap : AssemblyItem → AssemblyItem → Option AssemblyItems
unfolding same_item is_swap_instruction
double_swap s1 s2 = if same_item s1 s2 && is_swap_instruction s1 then some [] else none

unfoldable pub double_push : AssemblyItem → AssemblyItem → Option AssemblyItems
unfolding location_of
double_push (push d1 a1) (push d2 a2) =
    if d1 == d2 then some (push d1 a1 ∷ op Instruction.dup1 (located a2.location) ∷ []) else none
double_push _ _ = none

unfoldable pub commutative_swap : AssemblyItem → AssemblyItem → Option AssemblyItems
unfolding is_instruction is_commutative_operation
commutative_swap swap item =
    if is_instruction swap Instruction.swap1 && is_commutative_operation item
    then some (item ∷ [])
    else none

-- `swappableOps`.
unfoldable pub swappable : Instruction → Option Instruction
swappable i =
    if i == Instruction.lt
    then some Instruction.gt
    else if i == Instruction.gt
    then some Instruction.lt
    else if i == Instruction.slt
    then some Instruction.sgt
    else if i == Instruction.sgt
    then some Instruction.slt
    else none

-- The item made from an instruction alone has no location.
abbrev pub swapped : Option Instruction → Option AssemblyItems
swapped none = none
swapped (some j) = some (op j (located no_location) ∷ [])

unfoldable pub swap_comparison : AssemblyItem → AssemblyItem → Option AssemblyItems
unfolding is_instruction swappable
swap_comparison swap (op i a) =
    if is_instruction swap Instruction.swap1 then swapped (swappable i) else none
swap_comparison swap _ = none

unfoldable pub is_zero_is_zero_jump_i :
    AssemblyItem → AssemblyItem → AssemblyItem → AssemblyItem → Option AssemblyItems
unfolding is_instruction
is_zero_is_zero_jump_i iszero1 iszero2 (push_tag t a) jumpi =
    if is_instruction iszero1 Instruction.iszero
      && (is_instruction iszero2 Instruction.iszero && is_instruction jumpi Instruction.jumpi)
    then some (push_tag t a ∷ jumpi ∷ [])
    else none
is_zero_is_zero_jump_i _ _ _ _ = none

unfoldable pub jump_to_next : AssemblyItem → AssemblyItem → AssemblyItem → Option AssemblyItems
unfolding is_instruction location_of
jump_to_next (push_tag t _) jump (tag u a) =
    if (is_instruction jump Instruction.jump || is_instruction jump Instruction.jumpi) && t == u
    then some (
        if is_instruction jump Instruction.jumpi
        then op Instruction.pop (located (location_of jump)) ∷ tag u a ∷ []
        else tag u a ∷ [])
    else none
jump_to_next _ _ _ = none

unfoldable pub tag_conjunctions : AssemblyItem → AssemblyItem → AssemblyItem → Option AssemblyItems
unfolding is_instruction
tag_conjunctions (push_tag t a) (push d _) and_item =
    if is_instruction and_item Instruction.and && bit_and d 0xFFFFFFFF == 0xFFFFFFFF
    then some (push_tag t a ∷ [])
    else none
tag_conjunctions _ _ _ = none

unfoldable pub truthy_and : AssemblyItem → AssemblyItem → AssemblyItem → Option AssemblyItems
unfolding is_instruction
truthy_and (push d _) not_item and_item =
    if d == 0
      && (is_instruction not_item Instruction.not && is_instruction and_item Instruction.and)
    then some []
    else none
truthy_and _ _ _ = none

-- What a method does where it stands: the number of items it takes, and its output.
pub record Rewrite : Type 0 where
  pub emitted : AssemblyItems
  pub left : AssemblyItems

abbrev pub rewrite : AssemblyItems → Option AssemblyItems → Option Rewrite
rewrite left none = none
rewrite left (some out) = some (record { emitted = out; left = left })

-- `SimplePeepholeOptimizerMethod::apply` for windows of one to four items.
abbrev pub window1 : (AssemblyItem → Option AssemblyItems) → AssemblyItems → Option Rewrite
window1 method (a ∷ rest) = rewrite rest (method a)
window1 method _ = none

abbrev pub window2 :
    (AssemblyItem → AssemblyItem → Option AssemblyItems) → AssemblyItems → Option Rewrite
window2 method (a ∷ b ∷ rest) = rewrite rest (method a b)
window2 method _ = none

abbrev pub window3 :
    (AssemblyItem → AssemblyItem → AssemblyItem → Option AssemblyItems)
    → AssemblyItems
    → Option Rewrite
window3 method (a ∷ b ∷ c ∷ rest) = rewrite rest (method a b c)
window3 method _ = none

abbrev pub window4 :
    (AssemblyItem → AssemblyItem → AssemblyItem → AssemblyItem → Option AssemblyItems)
    → AssemblyItems
    → Option Rewrite
window4 method (a ∷ b ∷ c ∷ d ∷ rest) = rewrite rest (method a b c d)
window4 method _ = none

-- The instructions after which nothing is reached but by a jump.
abbrev pub leaving_instructions : List Instruction
leaving_instructions =
    Instruction.jump ∷ Instruction.return ∷ Instruction.stop ∷ Instruction.invalid
    ∷ Instruction.selfdestruct ∷ Instruction.revert ∷ []

unfoldable pub leaves : AssemblyItem → Bool
unfolding is_case
leaves (op i _) = is_case leaving_instructions i
leaves _ = false

-- The items from the first tag on.
unfoldable pub from_tag : AssemblyItems → AssemblyItems
from_tag [] = []
from_tag (tag d a ∷ items) = tag d a ∷ items
from_tag (item ∷ items) = from_tag items

-- `UnreachableCode::apply`: it applies when at least one item stands before the next tag.
unfoldable pub unreachable_code : AssemblyItems → Option Rewrite
unfolding leaves from_tag
unreachable_code [] = none
unreachable_code (item ∷ items) =
    if leaves item && ltb (length (from_tag items)) (length items)
    then some (record { emitted = item ∷ []; left = from_tag items })
    else none

abbrev pub or_else : Option Rewrite → Option Rewrite → Option Rewrite
or_else (some r) other = some r
or_else none other = other

-- `applyMethods`: the first method that applies, in the order of the call in `optimise`; `none` is
-- the exception for a failure of the last one, Identity.
unfoldable pub apply_methods : AssemblyItems → Option Rewrite
unfolding push_pop op_pop double_push double_swap commutative_swap swap_comparison
    is_zero_is_zero_jump_i jump_to_next unreachable_code tag_conjunctions truthy_and identity
apply_methods items = or_else (window2 push_pop items) (
    or_else (window2 op_pop items) (
      or_else (window2 double_push items) (
        or_else (window2 double_swap items) (
          or_else (window2 commutative_swap items) (
            or_else (window2 swap_comparison items) (
              or_else (window4 is_zero_is_zero_jump_i items) (
                or_else (window3 jump_to_next items) (
                  or_else (unreachable_code items) (
                    or_else (window3 tag_conjunctions items)
                      (or_else (window3 truthy_and items) (window1 identity items)))))))))))

-- The loop of `optimise`. An `OptimiserState` is the items from position `i` on, and the output so
-- far. `none` is the exception of `applyMethods`, or that the fuel ran out.
unfoldable pub optimise_loop : ℕ → AssemblyItems → AssemblyItems → Option AssemblyItems
optimise_loop fuel [] out = some out
optimise_loop zero (item ∷ rest) out = none
optimise_loop (suc fuel) (item ∷ rest) out = elim (apply_methods (item ∷ rest)) [
  | none ↦ none
  | some r ↦ optimise_loop fuel r.left (out ++ r.emitted)
]

-- The output of the loop, which takes at least one item in each round.
unfoldable pub optimised_items : AssemblyItems → Option AssemblyItems
optimised_items items = optimise_loop (length items) items []

unfoldable pub number_of_pops : AssemblyItems → ℕ
unfolding is_instruction
number_of_pops [] = 0
number_of_pops (item ∷ items) =
    (if is_instruction item Instruction.pop then 1 else 0) + number_of_pops items

-- `PeepholeOptimiser::optimise`: the items afterwards, and whether they were replaced. The sizes
-- are compared only where the lengths are equal; `bytesRequired` may throw, which is `none`.
abbrev pub fewer_bytes : Option ℕ → Option ℕ → Option Bool
fewer_bytes none _ = none
fewer_bytes (some n) none = none
fewer_bytes (some n) (some m) = some (ltb n m)

abbrev pub accept : AssemblyItems → AssemblyItems → Option Bool → Option (AssemblyItems × Bool)
accept new old none = none
accept new old (some better) =
    some (
      if better || ltb (number_of_pops old) (number_of_pops new) then (new, true) else (old, false))

abbrev pub choose : AssemblyItems → Option AssemblyItems → Option (AssemblyItems × Bool)
choose items none = none
choose items (some new) =
    if ltb (length new) (length items)
    then some (new, true)
    else if length new == length items
    then accept new items (fewer_bytes (items_bytes new 3) (items_bytes items 3))
    else some (items, false)

unfoldable pub optimise : AssemblyItems → Option (AssemblyItems × Bool)
unfolding optimised_items number_of_pops items_bytes
optimise items = choose items (optimised_items items)
