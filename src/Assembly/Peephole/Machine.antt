-- ===== src/Assembly/Peephole/Machine.antt =====
-- The stack machine by which the optimiser is judged. What lies outside the items, the other
-- contracts, storage, memory and the layout of the code, is the parameter `Chain`.
use polynomial.Prelude.{
  ℕ, zero, suc, ◌-◌, ◌^◌, ◌<◌, ◌≡◌, false, Option, none, some, List, [], ◌∷◌, ◌++◌, ◌==◌,
  if◌then◌else◌, length, get_elem?, set, All,
}
use polynomial.Instruction
use polynomial.Instruction.{Instruction}
use polynomial.Instruction.Info.{instruction_info}
use polynomial.Instruction.Numbers
use polynomial.Word.{IsWord, evaluate}
use polynomial.Assembly.Item.{AssemblyItem, AssemblyItems, op, undefined_item, push, push_tag, tag}
use polynomial.Assembly.Semantic.{is_case, terminating_instructions}

-- What the machine runs in. `effect` is what an instruction does that `Word.evaluate` does not
-- give: the values it returns for its arguments, and the new state of the world. `address` is the
-- position of a tag in the code, and `value` what the items push whose value is found by the
-- assembler or the linker.
pub record Chain : Type 1 where
  pub World : Type 0
  pub effect : Instruction → List ℕ → World → List ℕ × World
  pub address : ℕ → ℕ
  pub value : AssemblyItem → ℕ
  -- The table's `ret` counts the returned values, and `sideEffects` is false only if the world
  -- stays as it is.
  pub effect_ret :
      (i : Instruction) (args : List ℕ) (w : World)
      → length (effect i args w).0 ≡ (instruction_info i).ret
  pub effect_quiet :
      (i : Instruction) (args : List ℕ) (w : World)
      → (instruction_info i).side_effects ≡ false
      → (effect i args w).1 ≡ w
  pub effect_words :
      (i : Instruction) (args : List ℕ) (w : World)
      → All IsWord args
      → All IsWord (effect i args w).0
  -- The code is shorter than 2^32 bytes.
  pub address_small : (t : ℕ) → address t < 2 ^ 32
  pub value_word : (item : AssemblyItem) → IsWord (value item)

-- The topmost `n` values, and what lies under them.
abbrev pub split_stack : ℕ → List ℕ → Option (List ℕ × List ℕ)
split_stack zero s = some ([], s)
split_stack (suc n) [] = none
split_stack (suc n) (a ∷ s) = elim (split_stack n s) [ none ↦ none | some p ↦ some (a ∷ p.0, p.1) ]

abbrev pub push_copy : Option ℕ → List ℕ → Option (List ℕ)
push_copy none s = none
push_copy (some v) s = some (v ∷ s)

-- DUPn and SWAPn.
abbrev pub dup : ℕ → List ℕ → Option (List ℕ)
dup n s = push_copy (get_elem? s (n - 1)) s

abbrev pub exchange : Option ℕ → ℕ → ℕ → List ℕ → Option (List ℕ)
exchange none a n s = none
exchange (some b) a n s = some (b ∷ set s n a)

abbrev pub swap : ℕ → List ℕ → Option (List ℕ)
swap n [] = none
swap n (a ∷ s) = exchange (get_elem? s (n - 1)) a (n - 1) s

-- The items after the first tag that stands at an address.
unfoldable pub find_tag : (ℕ → ℕ) → ℕ → AssemblyItems → Option AssemblyItems
find_tag address v [] = none
find_tag address v (tag d a ∷ items) =
    if address d == v then some items else find_tag address v items
find_tag address v (item ∷ items) = find_tag address v items

module _ (c : Chain) where
  open c use {World, effect, address, value}

  abbrev pub Memory : Type 0
  Memory = List ℕ × World

  abbrev pub with_world : Option (List ℕ) → World → Option Memory
  with_world none w = none
  with_world (some s) w = some (s, w)

  -- An instruction that is no jump, copy, exchange or end: it takes its arguments off the stack.
  abbrev pub returned : Option ℕ → Instruction → List ℕ → List ℕ → World → Memory
  returned (some v) i args s w = (v ∷ s, w)
  returned none i args s w = ((effect i args w).0 ++ s, (effect i args w).1)

  abbrev pub applied : Instruction → Option (List ℕ × List ℕ) → World → Option Memory
  applied i none w = none
  applied i (some p) w = some (returned (evaluate i p.0) i p.0 p.1 w)

  unfoldable pub operate : Instruction → Memory → Option Memory
  operate i (s, w) =
      if Numbers.is_dup_instruction i
      then with_world (dup (Numbers.get_dup_number i) s) w
      else if Numbers.is_swap_instruction i
      then with_world (swap (Numbers.get_swap_number i) s) w
      else applied i (split_stack (instruction_info i).args s) w

  -- An item that is no jump and no end; `none` is a fault, such as too few values on the stack.
  unfoldable pub perform : AssemblyItem → Memory → Option Memory
  perform (op i _) m = operate i m
  perform (undefined_item _ _) m = none
  perform (push d _) (s, w) = some (d ∷ s, w)
  perform (push_tag d _) (s, w) = some (address d ∷ s, w)
  perform (tag _ _) m = some m
  perform item (s, w) = some (value item ∷ s, w)

  pub data Outcome : Type 0 where
    fault : Outcome
    ended : Memory → Outcome
    halted : Instruction → Memory → Outcome

  pub data Next : Type 0 where
    stop : Outcome → Next
    go : AssemblyItems → Memory → Next

  abbrev pub jumped : Option AssemblyItems → Memory → Next
  jumped none m = stop fault
  jumped (some items) m = go items m

  abbrev pub jump_step : AssemblyItems → Memory → Next
  jump_step program ([], w) = stop fault
  jump_step program (target ∷ s, w) = jumped (find_tag address target program) (s, w)

  abbrev pub jumpi_step : AssemblyItems → AssemblyItems → Memory → Next
  jumpi_step program rest ([], w) = stop fault
  jumpi_step program rest (target ∷ [], w) = stop fault
  jumpi_step program rest (target ∷ cond ∷ s, w) =
      if cond == 0 then go rest (s, w) else jumped (find_tag address target program) (s, w)

  abbrev pub proceed : AssemblyItems → Option Memory → Next
  proceed rest none = stop fault
  proceed rest (some m) = go rest m

  unfoldable pub op_step : AssemblyItems → Instruction → AssemblyItems → Memory → Next
  op_step program i rest m =
      if i == Instruction.jump
      then jump_step program m
      else if i == Instruction.jumpi
      then jumpi_step program rest m
      else if is_case terminating_instructions i
      then stop (halted i m)
      else proceed rest (operate i m)

  -- One item of a program.
  unfoldable pub step : AssemblyItems → AssemblyItem → AssemblyItems → Memory → Next
  step program (op i _) rest m = op_step program i rest m
  step program item rest m = proceed rest (perform item m)

  -- At most `fuel` items; `none` if the program has not come to an end by then.
  unfoldable pub run : AssemblyItems → ℕ → AssemblyItems → Memory → Option Outcome
  run program fuel [] m = some (ended m)
  run program zero (item ∷ rest) m = none
  run program (suc fuel) (item ∷ rest) m = elim (step program item rest m) [
    | stop o ↦ some o
    | go rest' m' ↦ run program fuel rest' m'
  ]
