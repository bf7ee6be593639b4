-- ===== src/Assembly/Constants/Compute.antt =====
-- `ComputeMethod` of libsvmasm/ConstantOptimiser.cpp: how a constant is computed from smaller ones,
-- and the check of the result. `none` is an exception, or that the fuel ran out.
use polynomial.Prelude.{
  ℕ, zero, suc, ◌+◌, ◌-◌, ◌*◌, ◌/◌, ◌%◌, ◌^◌, Bool, true, false, ◌&&◌, ◌||◌, Option, none, some,
  List, [], ◌∷◌, ◌++◌, ◌==◌, ltb, leb, if◌then◌else◌, length,
}
use polynomial.Instruction
use polynomial.Instruction.{Instruction}
use polynomial.Version.{has_bitwise_shifting}
use polynomial.Word
use polynomial.Assembly.Item.{AssemblyItem, AssemblyItems, op, push, bytes_required, arguments}
use polynomial.Assembly.Constants.{Params, of_instruction, of_number, compute_gas}

-- Computations that count down `m_maxSteps`.
abbrev pub Steps : Type 0 → Type 0
Steps A = ℕ → Option (A × ℕ)

infixl 5 ◌>>=◌
abbrev pub ◌>>=◌ : {A B : Type 0} → Steps A → (A → Steps B) → Steps B
◌>>=◌ m f n = elim (m n) [ none ↦ none | some q ↦ f q.0 q.1 ]

abbrev pub pure : {A : Type 0} → A → Steps A
pure a n = some (a, n)

-- A value split at a bit: the upper part, whether the lower part is negative, and its absolute value.
pub record Parts : Type 0 where
  pub upper : ℕ
  pub negative : Bool
  pub lower : ℕ

abbrev pub is_gap : ℕ → Bool
is_gap detector = detector == 0xff || detector == 0x100

-- The nearer of the two multiples of the power of two.
abbrev pub nearer : ℕ → ℕ → ℕ → Parts
nearer power upper lower =
    if ltb (power - lower) lower
    then record { upper = (upper + 1) % 2 ^ 256; negative = true; lower = power - lower }
    else record { upper = upper; negative = false; lower = lower }

abbrev pub if_useful : ℕ → Parts → Option Parts
if_useful power parts =
    if parts.upper == 0 || leb (power / 2 ^ 8) parts.lower then none else some parts

-- The start of a round of the loop: `none` is `continue`.
unfoldable pub decompose : ℕ → ℕ → Option Parts
decompose value bits =
    if is_gap (value / 2 ^ (bits - 8) % 2 ^ 9)
    then if_useful (2 ^ bits) (nearer (2 ^ bits) (value / 2 ^ bits) (value % 2 ^ bits))
    else none

-- The best routine so far, and the steps that are left.
pub record Attempt : Type 0 where
  pub routine : AssemblyItems
  pub best_gas : ℕ
  pub steps : ℕ

module _ (p : Params) (find : ℕ → Steps AssemblyItems) where
  abbrev pub lower_routine : Parts → Steps AssemblyItems
  lower_routine parts = if parts.lower == 0 then pure [] else find parts.lower

  abbrev pub multiplied : Parts → AssemblyItems → Steps AssemblyItems
  multiplied parts items =
      if parts.upper == 1
      then pure items
      else (find parts.upper >>= λ more.
          pure (items ++ (more ++ of_instruction Instruction.mul ∷ [])))

  unfoldable pub upper_routine : ℕ → Parts → Steps AssemblyItems
  unfolding has_bitwise_shifting
  upper_routine bits parts =
      if has_bitwise_shifting p.svm_version
      then (find parts.upper >>= λ items.
          pure (items ++ (of_number bits ∷ of_instruction Instruction.shl ∷ [])))
      else multiplied parts (of_number bits ∷ of_number 2 ∷ of_instruction Instruction.exp ∷ [])

  abbrev pub joining : Parts → AssemblyItems
  joining parts =
      if parts.lower == 0
      then []
      else if parts.negative
      then of_instruction Instruction.sub ∷ []
      else of_instruction Instruction.add ∷ []

  -- The new routine of a round.
  unfoldable pub new_routine : ℕ → Parts → Steps AssemblyItems
  new_routine bits parts = do
    low ← lower_routine parts
    high ← upper_routine bits parts
    pure (low ++ (high ++ joining parts))

  abbrev pub better : AssemblyItems → Attempt → ℕ → Option ℕ → Option Attempt
  better routine a steps none = none
  better routine a steps (some gas) =
      if ltb gas a.best_gas
      then some (record { routine = routine; best_gas = gas; steps = steps - 1 })
      else some (record a { steps = steps - 1 })

  abbrev pub improved : Attempt → Option (AssemblyItems × ℕ) → Option Attempt
  improved a none = none
  improved a (some (routine, steps)) = better routine a steps (compute_gas p routine)

  abbrev pub attempt_with : ℕ → Attempt → Option Parts → Option Attempt
  attempt_with bits a none = some a
  attempt_with bits a (some parts) = improved a (new_routine bits parts a.steps)

  -- A round of the loop. When no steps are left, the loop is over.
  unfoldable pub attempt : ℕ → ℕ → Option Attempt → Option Attempt
  attempt value bits none = none
  attempt value bits (some a) =
      if a.steps == 0 then some a else attempt_with bits a (decompose value bits)

  -- `for (unsigned bits = 255; bits > 8 && m_maxSteps > 0; --bits)`, by the rounds that are left.
  unfoldable pub attempts : ℕ → ℕ → Option Attempt → Option Attempt
  attempts value zero a = a
  attempts value (suc rounds) a = attempts value rounds (attempt value (rounds + 9) a)

  abbrev pub best : Option Attempt → Option (AssemblyItems × ℕ)
  best none = none
  best (some a) = some (a.routine, a.steps)

  abbrev pub first_attempt : AssemblyItems → ℕ → Option ℕ → Option Attempt
  first_attempt routine steps none = none
  first_attempt routine steps (some gas) =
      some (record { routine = routine; best_gas = gas; steps = steps })

  unfoldable pub decomposed : ℕ → Steps AssemblyItems
  decomposed value steps = best (
      attempts value 247
        (first_attempt (of_number value ∷ []) steps (compute_gas p (of_number value ∷ []))))

  -- The body of `findRepresentation`, for what it calls itself with.
  unfoldable pub representation : ℕ → Steps AssemblyItems
  representation value =
      if ltb value 0x10000
      then pure (of_number value ∷ [])
      else if ltb (bytes_required (Word.not value)) (bytes_required value)
      then (find (Word.not value) >>= λ items. pure (items ++ of_instruction Instruction.not ∷ []))
      else decomposed value

unfoldable pub find_on : Params → ℕ → ℕ → Steps AssemblyItems
find_on p zero value = λ steps. none
find_on p (suc fuel) value = representation p (find_on p fuel) value

-- `findRepresentation`, with fuel for a word.
unfoldable pub find_representation : Params → ℕ → Steps AssemblyItems
unfolding find_on representation decomposed attempts attempt new_routine upper_routine decompose
    compute_gas bytes_required Word.not
find_representation p value = find_on p 257 value

-- What the check of a routine comes to: it returns false, it throws, or it goes on with a stack.
pub data Checked : Type 0 where
  refused : Checked
  thrown : Checked
  stack : List ℕ → Checked

abbrev pub binary : (ℕ → ℕ → ℕ) → List ℕ → Checked
binary f (a ∷ b ∷ s) = stack (f a b ∷ s)
binary f s = refused

abbrev pub unary : (ℕ → ℕ) → List ℕ → Checked
unary f (a ∷ s) = stack (f a ∷ s)
unary f s = refused

-- EXP with an exponent of one byte.
abbrev pub checked_power : List ℕ → Checked
checked_power (a ∷ b ∷ s) = if ltb 0xff b then refused else stack (a ^ b % 2 ^ 256 ∷ s)
checked_power s = refused

-- SHL and SHR, for the versions that have them.
abbrev pub checked_shift : Params → (ℕ → ℕ → ℕ) → List ℕ → Checked
checked_shift p shift (a ∷ b ∷ s) =
    if has_bitwise_shifting p.svm_version && leb a 255 then stack (shift a b ∷ s) else thrown
checked_shift p shift s = refused

abbrev pub checked_operation : Params → Instruction → List ℕ → Checked
checked_operation p i s =
    if i == Instruction.mul
    then binary (λ a b. a * b % 2 ^ 256) s
    else if i == Instruction.exp
    then checked_power s
    else if i == Instruction.add
    then binary (λ a b. (a + b) % 2 ^ 256) s
    else if i == Instruction.sub
    then binary (λ a b. (a + 2 ^ 256 - b) % 2 ^ 256) s
    else if i == Instruction.not
    then unary (λ a. 2 ^ 256 - 1 - a) s
    else if i == Instruction.shl
    then checked_shift p (λ a b. b * 2 ^ a % 2 ^ 256) s
    else if i == Instruction.shr
    then checked_shift p (λ a b. b / 2 ^ a) s
    else refused

unfoldable pub checked_item : Params → AssemblyItem → List ℕ → Checked
unfolding has_bitwise_shifting arguments
checked_item p (op i a) s =
    if ltb (length s) (arguments (op i a)) then refused else checked_operation p i s
checked_item p (push d a) s = stack (d ∷ s)
checked_item p item s = refused

abbrev pub and_then : Checked → (List ℕ → Checked) → Checked
and_then refused k = refused
and_then thrown k = thrown
and_then (stack s) k = k s

-- The loop of `checkRepresentation`.
unfoldable pub checked_items : Params → AssemblyItems → List ℕ → Checked
unfolding checked_item
checked_items p [] s = stack s
checked_items p (item ∷ items) s = and_then (checked_item p item s) (checked_items p items)

abbrev pub is_only : ℕ → Checked → Option Bool
is_only value refused = some false
is_only value thrown = none
is_only value (stack (a ∷ [])) = some (a == value)
is_only value (stack _) = some false

unfoldable pub check_representation : Params → ℕ → AssemblyItems → Option Bool
unfolding checked_items
check_representation p value routine = is_only value (checked_items p routine [])

-- The assertion in the constructor of `ComputeMethod`.
abbrev pub asserted : AssemblyItems → Option Bool → Option AssemblyItems
asserted routine (some true) = some routine
asserted routine _ = none

abbrev pub checked_routine : Params → ℕ → Option (AssemblyItems × ℕ) → Option AssemblyItems
checked_routine p value none = none
checked_routine p value (some (routine, steps)) =
    asserted routine (check_representation p value routine)

-- The constructor of `ComputeMethod`: the routine that computes the constant.
unfoldable pub compute_routine : Params → ℕ → Option AssemblyItems
unfolding find_representation check_representation
compute_routine p value = checked_routine p value (find_representation p value 10000)
