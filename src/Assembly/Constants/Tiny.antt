-- ===== src/Assembly/Constants/Tiny.antt =====
-- What the check of a routine does with the items that routines are made of.
use polynomial.Prelude.{
  ℕ, suc, ◌+◌, ◌-◌, ◌*◌, ◌%◌, ◌^◌, ◌≤◌, ◌≡◌, refl, ap, ◌∙◌, true, false, Option, some, List, [],
  ◌∷◌, ◌++◌, ltb, leb, length, All, arith,
}
use polynomial.Instruction
use polynomial.Instruction.{Instruction}
use polynomial.Instruction.Info.{instruction_info}
use polynomial.Version.{has_bitwise_shifting}
use polynomial.Gas.{exp_gas, exp_byte_gas}
use polynomial.Assembly.Item.{
  AssemblyItem, AssemblyItems, arguments, item_bytes, items_bytes, add_sizes,
}
use polynomial.Assembly.Constants.{
  Params, of_instruction, of_number, item_gas, simple_run_gas, compute_gas, count, combine_gas,
  byte_gas,
}
use polynomial.Assembly.Constants.Compute.{
  Checked, refused, thrown, stack, and_then, checked_item, checked_items,
}

-- Items that have a cost and a size.
pub IsPriced : AssemblyItem → Type 0
IsPriced item = ((g : ℕ) × (item_gas item ≡ some g)) × ((b : ℕ) × (item_bytes item 3 ≡ some b))

pub number-IsPriced : (n : ℕ) → IsPriced (of_number n)
unfolding IsPriced item_gas item_bytes
number-IsPriced n = ((3, refl), (_, refl))

sizes_some :
    (o q : Option ℕ)
    → (a : ℕ) × (o ≡ some a)
    → (b : ℕ) × (q ≡ some b)
    → (c : ℕ) × (add_sizes o q ≡ some c)
sizes_some o q (a, h) (b, k) = (a + b, rw (h, k) refl)

gas_some : (items : AssemblyItems) → All IsPriced items → (g : ℕ) × (simple_run_gas items ≡ some g)
unfolding simple_run_gas IsPriced
gas_some [] all = (0, refl)
gas_some (item ∷ items) (one, all) =
    sizes_some (item_gas item) (simple_run_gas items) one.0 (gas_some items all)

bytes_some : (items : AssemblyItems) → All IsPriced items → (b : ℕ) × (items_bytes items 3 ≡ some b)
unfolding items_bytes IsPriced
bytes_some [] all = (0, refl)
bytes_some (item ∷ items) (one, all) =
    sizes_some (item_bytes item 3) (items_bytes items 3) one.1 (bytes_some items all)

pub compute_gas-some :
    (p : Params) (items : AssemblyItems)
    → All IsPriced items
    → (g : ℕ) × (compute_gas p items ≡ some g)
unfolding compute_gas
compute_gas-some p items all =
    let (g, h) = gas_some items all in
    let (b, k) = bytes_some items all in
    let run = g + count items Instruction.exp * (exp_gas + exp_byte_gas p.svm_version) in
    (combine_gas p run (b * byte_gas p) 0, rw (h, k) refl)

module _ (p : Params) where
  and_then_assoc :
      (x : Checked) (f g : List ℕ → Checked) (h : List ℕ → Checked)
      → ((s : List ℕ) → h s ≡ and_then (f s) g)
      → and_then x h ≡ and_then (and_then x f) g
  and_then_assoc refused f g h same = refl
  and_then_assoc thrown f g h same = refl
  and_then_assoc (stack s) f g h same = same s

  pub checked_items-append :
      (front back : AssemblyItems) (s : List ℕ)
      → checked_items p (front ++ back) s
        ≡ and_then (checked_items p front s) (checked_items p back)
  unfolding checked_items
  checked_items-append [] back s = refl
  checked_items-append (item ∷ front) back s =
      and_then_assoc (checked_item p item s) (checked_items p front) (checked_items p back)
        (checked_items p (front ++ back)) (checked_items-append front back)

  -- Items that put a value on the stack, and have a cost.
  pub record IsRoutine (v : ℕ) (items : AssemblyItems) : Type 0 where
    pub puts : (s : List ℕ) → checked_items p items s ≡ stack (v ∷ s)
    pub priced : All IsPriced items

  pub number-IsRoutine : (v : ℕ) → IsRoutine v (of_number v ∷ [])
  unfolding checked_items
  number-IsRoutine v = record { puts = λ s. refl; priced = (number-IsPriced v, tt) }

  -- What follows a routine starts with its value.
  pub IsRoutine-append :
      {v : ℕ} {items : AssemblyItems} (more : AssemblyItems) (s : List ℕ)
      → IsRoutine v items
      → checked_items p (items ++ more) s ≡ checked_items p more (v ∷ s)
  IsRoutine-append {v} {items} more s r =
      checked_items-append items more s ∙ ap (λ x. and_then x (checked_items p more)) (r.puts s)

  two_there : (s : List ℕ) → ltb (suc (suc (length s))) 2 ≡ false
  two_there s = ground arith

  one_there : (s : List ℕ) → ltb (suc (length s)) 1 ≡ false
  one_there s = ground arith

  pub add_step :
      (a b : ℕ) (s : List ℕ)
      → checked_items p (of_instruction Instruction.add ∷ []) (a ∷ b ∷ s)
        ≡ stack ((a + b) % 2 ^ 256 ∷ s)
  unfolding checked_items arguments instruction_info
  add_step a b s = rw (two_there s) refl

  pub sub_step :
      (a b : ℕ) (s : List ℕ)
      → checked_items p (of_instruction Instruction.sub ∷ []) (a ∷ b ∷ s)
        ≡ stack ((a + 2 ^ 256 - b) % 2 ^ 256 ∷ s)
  unfolding checked_items arguments instruction_info
  sub_step a b s = rw (two_there s) refl

  pub mul_step :
      (a b : ℕ) (s : List ℕ)
      → checked_items p (of_instruction Instruction.mul ∷ []) (a ∷ b ∷ s)
        ≡ stack (a * b % 2 ^ 256 ∷ s)
  unfolding checked_items arguments instruction_info
  mul_step a b s = rw (two_there s) refl

  pub not_step :
      (a : ℕ) (s : List ℕ)
      → checked_items p (of_instruction Instruction.not ∷ []) (a ∷ s)
        ≡ stack ((2 ^ 256 - 1 - a) ∷ s)
  unfolding checked_items arguments instruction_info
  not_step a s = rw (one_there s) refl

  -- A power of two, by EXP.
  pub power_step :
      (bits : ℕ) (s : List ℕ)
      → bits ≤ 255
      → checked_items p (of_number bits ∷ of_number 2 ∷ of_instruction Instruction.exp ∷ []) s
        ≡ stack (2 ^ bits % 2 ^ 256 ∷ s)
  unfolding checked_items arguments instruction_info
  power_step bits s h =
      let small : (ltb 0xff bits ≡ false) = ground arith in rw (two_there s, small) refl

  pub shl_step :
      (bits v : ℕ) (s : List ℕ)
      → bits ≤ 255
      → has_bitwise_shifting p.svm_version ≡ true
      → checked_items p (of_number bits ∷ of_instruction Instruction.shl ∷ []) (v ∷ s)
        ≡ stack (v * 2 ^ bits % 2 ^ 256 ∷ s)
  unfolding checked_items arguments instruction_info
  shl_step bits v s h shifts =
      let small : (leb bits 255 ≡ true) = ground arith in rw (two_there s, small, shifts) refl

-- The instructions of routines have a cost.
pub operation-IsPriced :
    (IsPriced (of_instruction Instruction.add))
    × (IsPriced (of_instruction Instruction.sub))
    × (IsPriced (of_instruction Instruction.mul))
    × (IsPriced (of_instruction Instruction.not))
    × (IsPriced (of_instruction Instruction.exp))
    × (IsPriced (of_instruction Instruction.shl))
unfolding IsPriced item_gas item_bytes
operation-IsPriced = (
  ((3, refl), (1, refl)),
  ((3, refl), (1, refl)),
  ((5, refl), (1, refl)),
  ((3, refl), (1, refl)),
  ((10, refl), (1, refl)),
  ((3, refl), (1, refl)),
)
