-- ===== src/Assembly/Constants/Tests.antt =====
-- The constant optimiser on a chain whose world is the first word of memory, and routines for some
-- constants.
use native.Mathlib.Nat.{mod-lt, div-div-eq-div-mul, div-eq_of_lt}
use polynomial.Assembly.Constants.Value.{optimise_constants-value}
use polynomial.Assembly.Peephole.Keeps.{HasWord}
use polynomial.Prelude.{
  ◌-◌, zero, suc, ◌*◌, ◌/◌, ◌∙◌, ap, ◌++◌, [], ℕ, ◌≤◌, ◌<◌, ◌≢◌, ◌%◌, ◌^◌, ◌≡◌, refl, sym, false,
  some, List, [], ◌∷◌, ◌==◌, ==_iff, if◌then◌else◌, Bool-cases, inl, inr, length, length-replicate,
  replicate, All, arith, false_ne_true,
}
use polynomial.Version.{constantinople}
use polynomial.Instruction
use polynomial.Instruction.{Instruction}
use polynomial.Instruction.Info.{instruction_info}
use polynomial.Word.{IsWord}
use polynomial.Word.Join.{eight_more}
use polynomial.Word.Places.{replicate-IsWord}
use native.Mathlib.Bridge.{le_prop}
use mathlib.Core.HLevel.{Σ_prop_path}
use polynomial.Assembly.Item.{
  push_data, located, no_location, AssemblyItems, item_bytes, items_bytes, bytes_required,
  arguments,
}
use polynomial.Assembly.Peephole.Machine.{Chain, ended, run, step, perform}
use polynomial.Assembly.Constants.{
  copy_routine, Params, of_instruction, of_number, to_big_endian, literal_gas, code_copy_gas,
  compute_gas, simple_run_gas, item_gas, to_compact_big_endian,
}
use polynomial.Gas.{run_gas, data_gas}
use polynomial.Assembly.Constants.Compute.{
  check_representation, find_representation, compute_routine, checked_items, stack,
}
use polynomial.Assembly.Constants.Optimise.{
  count_push, count_pushes, consider_all, find_replacement, replace_constants, choose_method,
  literal, computed, copied, Optimised, optimise_constants,
}
use polynomial.Assembly.Constants.Find.{find_representation-value, compute_routine-value}
use polynomial.Assembly.Constants.Total.{cost, choose_method-least}
use polynomial.Assembly.Constants.Sound.{perform_all-checked_items}
use polynomial.Assembly.Peephole.Plain.{perform_all}
use polynomial.Assembly.Constants.Copy.{FirstWord, IsFiled, HasData}
use polynomial.Assembly.Constants.Correct.{run-optimise_constants}

abbrev late : Params
late = record { is_creation = false; runs = 200; multiplicity = 3; svm_version = constantinople }

routine-high :
    find_representation late (2 ^ 200) 10000
    ≡ some (of_number 1 ∷ of_number 200 ∷ of_instruction Instruction.shl ∷ [], 9999)
unfolding find_representation item_bytes
routine-high = refl

find_representation-value_example :
    (routine : AssemblyItems) × (left : ℕ) × (find_representation late (2 ^ 200) 7
      ≡ some (routine, left))
    × ((s : List ℕ) → checked_items late routine s ≡ stack (2 ^ 200 ∷ s))
find_representation-value_example = find_representation-value late (2 ^ 200) 7 (omega arith)

compute_routine-value_example :
    (routine : AssemblyItems) × (compute_routine late (2 ^ 200) ≡ some routine)
    × ((s : List ℕ) → checked_items late routine s ≡ stack (2 ^ 200 ∷ s))
compute_routine-value_example = compute_routine-value late (2 ^ 200) (omega arith)

-- A word without a routine that is cheaper than its bytes.
abbrev stripes : ℕ
stripes = (2 ^ 256 - 1) / 3

abbrev First : Type 0
First = (n : ℕ) × IsWord n

abbrev first_word : ℕ → First
first_word n = (n % 2 ^ 256, mod-lt n (omega arith))

abbrev stored : List ℕ → First → First
stored (a ∷ v ∷ []) w = first_word v
stored _ w = w

-- Memory is one word, and the data of the code holds one word.
abbrev remember : Instruction → List ℕ → First → List ℕ × First
remember i args w =
    if i == Instruction.mload
    then (w.0 ∷ [], w)
    else if i == Instruction.mstore
    then ([], stored args w)
    else if i == Instruction.codecopy
    then ([], first_word stripes)
    else (replicate (instruction_info i).ret 0, w)

remember-ret :
    (i : Instruction) (args : List ℕ) (w : First)
    → length (remember i args w).0 ≡ (instruction_info i).ret
unfolding instruction_info
remember-ret i args w = elim (Bool-cases (i == Instruction.mload)) [
  | inl t ↦ rw (t, (==_iff i Instruction.mload).0 t) refl
  | inr f ↦ elim (Bool-cases (i == Instruction.mstore)) [
    | inl t ↦ rw (f, t, (==_iff i Instruction.mstore).0 t) refl
    | inr g ↦ elim (Bool-cases (i == Instruction.codecopy)) [
      | inl t ↦ rw (f, g, t, (==_iff i Instruction.codecopy).0 t) refl
      | inr h ↦ rw (f, g, h) (length-replicate (instruction_info i).ret 0)
    ]
  ]
]

remember-quiet :
    (i : Instruction) (args : List ℕ) (w : First)
    → (instruction_info i).side_effects ≡ false
    → (remember i args w).1 ≡ w
unfolding instruction_info
remember-quiet i args w e = elim (Bool-cases (i == Instruction.mload)) [
  | inl t ↦ rw t refl
  | inr f ↦ elim (Bool-cases (i == Instruction.mstore)) [
    | inl t ↦ false_ne_true (sym (rw ((==_iff i Instruction.mstore).0 t) at e))
    | inr g ↦ elim (Bool-cases (i == Instruction.codecopy)) [
      | inl t ↦ false_ne_true (sym (rw ((==_iff i Instruction.codecopy).0 t) at e))
      | inr h ↦ rw (f, g, h) refl
    ]
  ]
]

remember-IsWord : (i : Instruction) (args : List ℕ) (w : First) → All IsWord (remember i args w).0
remember-IsWord i args w = elim (Bool-cases (i == Instruction.mload)) [
  | inl t ↦ rw t (w.1, tt)
  | inr f ↦ elim (Bool-cases (i == Instruction.mstore)) [
    | inl t ↦ rw (f, t) tt
    | inr g ↦ elim (Bool-cases (i == Instruction.codecopy)) [
      | inl t ↦ rw (f, g, t) tt
      | inr h ↦ rw (f, g, h) (replicate-IsWord (instruction_info i).ret)
    ]
  ]
]

abbrev small_machine : Chain
small_machine = record {
  World = First;
  effect = remember;
  address = λ t. t % 2 ^ 32;
  value = λ item. 0;
  effect_ret = remember-ret;
  effect_quiet = remember-quiet;
  effect_words = λ i args w h. remember-IsWord i args w;
  address_small = λ t. omega arith;
  value_word = λ item. omega arith;
}

same_word : (w : First) (v : First) → v.0 ≡ w.0 → v ≡ w
same_word w v h = Σ_prop_path (λ n. le_prop) h

abbrev one_word : FirstWord small_machine
one_word = record {
  HasMemory = λ w. Unit;
  effect-HasMemory = λ i args w h. tt;
  read = λ w. w.0;
  write = λ v w. first_word v;
  mload_first = λ w h. refl;
  mstore_first = λ v w h. refl;
  read-write = λ v w h word. omega arith;
  write-read = λ v w h word. same_word w (first_word w.0) (let inside = w.1 in omega arith);
}

literal-cost : literal_gas late (2 ^ 200) ≡ some 16800
unfolding literal_gas simple_run_gas item_gas run_gas instruction_info data_gas
    to_compact_big_endian bytes_required
literal-cost = refl

copy-cost : code_copy_gas late (2 ^ 200) ≡ some 22600
unfolding code_copy_gas simple_run_gas item_gas run_gas instruction_info data_gas to_big_endian
    items_bytes item_bytes bytes_required
copy-cost = refl

routine-cost :
    compute_gas late (of_number 1 ∷ of_number 200 ∷ of_instruction Instruction.shl ∷ []) ≡ some 4800
unfolding compute_gas simple_run_gas item_gas run_gas instruction_info items_bytes item_bytes
    bytes_required
routine-cost = refl

routine-there :
    compute_routine late (2 ^ 200)
    ≡ some (of_number 1 ∷ of_number 200 ∷ of_instruction Instruction.shl ∷ [])
unfolding compute_routine item_bytes check_representation arguments instruction_info
routine-there = refl

method-there :
    choose_method late (2 ^ 200)
    ≡ some (computed (of_number 1 ∷ of_number 200 ∷ of_instruction Instruction.shl ∷ []))
unfolding choose_method
method-there = rw (literal-cost, copy-cost, routine-there, routine-cost) refl

abbrev shift_routine : AssemblyItems
shift_routine = of_number 1 ∷ of_number 200 ∷ of_instruction Instruction.shl ∷ []

choose_method-least_example :
    (cost (computed shift_routine) 16800 22600 4800 ≤ 16800)
    × (cost (computed shift_routine) 16800 22600 4800 ≤ 22600)
    × (cost (computed shift_routine) 16800 22600 4800 ≤ 4800)
    × (computed shift_routine ≢ literal → cost (computed shift_routine) 16800 22600 4800 < 16800)
choose_method-least_example =
    choose_method-least late (2 ^ 200) 16800 22600 4800 shift_routine (computed shift_routine)
      literal-cost copy-cost routine-there routine-cost method-there

shift-checked : checked_items late shift_routine (9 ∷ []) ≡ stack (2 ^ 200 ∷ 9 ∷ [])
unfolding checked_items arguments instruction_info
shift-checked = refl

perform_all-checked_items_example :
    perform_all small_machine shift_routine (9 ∷ [], first_word 0)
    ≡ some (2 ^ 200 ∷ 9 ∷ [], first_word 0)
perform_all-checked_items_example =
    perform_all-checked_items small_machine late shift_routine (9 ∷ []) (2 ^ 200 ∷ 9 ∷ [])
      (first_word 0) shift-checked

head-same : (x y : ℕ) (xs ys : List ℕ) → (x ∷ xs) ≡ (y ∷ ys) → (x ≡ y) × (xs ≡ ys)
head-same x y xs ys h = (cc, cc)

same_parts : (a b : ℕ) → a / 256 ≡ b / 256 → a % 256 ≡ b % 256 → a ≡ b
same_parts a b h k = omega arith

to_big_endian-same :
    (k v u : ℕ) → v / 2 ^ (8 * k) ≡ u / 2 ^ (8 * k) → to_big_endian k v ≡ to_big_endian k u → v ≡ u
unfolding to_big_endian
to_big_endian-same zero v u h e = omega arith
to_big_endian-same (suc k) v u h e =
    let (first, rest) = head-same _ _ _ _ e in
    let high : ((n : ℕ) → n / 2 ^ (8 * suc k) ≡ n / 2 ^ (8 * k) / 256) =
      λ n. ap (λ (t : ℕ). n / t) (eight_more k) ∙ sym (div-div-eq-div-mul n (2 ^ (8 * k)) 256) in
    let whole : (v / 2 ^ (8 * k) / 256 ≡ u / 2 ^ (8 * k) / 256) = sym (high v) ∙ h ∙ high u in
    to_big_endian-same k v u (same_parts (v / 2 ^ (8 * k)) (u / 2 ^ (8 * k)) whole first) rest

abbrev rare : Params
rare = record { is_creation = false; runs = 1; multiplicity = 3; svm_version = constantinople }

stripes-literal : literal_gas rare stripes ≡ some 19803
unfolding literal_gas simple_run_gas item_gas run_gas instruction_info data_gas
    to_compact_big_endian bytes_required
stripes-literal = refl

stripes-copy : code_copy_gas rare stripes ≡ some 16033
unfolding code_copy_gas simple_run_gas item_gas run_gas instruction_info data_gas to_big_endian
    items_bytes item_bytes bytes_required
stripes-copy = refl

stripes-routine : compute_routine rare stripes ≡ some (of_number stripes ∷ [])
unfolding compute_routine item_bytes check_representation arguments instruction_info
stripes-routine = refl

stripes-compute : compute_gas rare (of_number stripes ∷ []) ≡ some 19803
unfolding compute_gas simple_run_gas item_gas run_gas instruction_info items_bytes item_bytes
    bytes_required
stripes-compute = refl

stripes-copied : choose_method rare stripes ≡ some (copied (to_big_endian 32 stripes))
unfolding choose_method
stripes-copied = rw (stripes-literal, stripes-copy, stripes-routine, stripes-compute) refl

abbrev pushed : AssemblyItems
pushed = of_number stripes ∷ of_number stripes ∷ of_number stripes ∷ []

abbrev from_data : AssemblyItems
from_data = copy_routine (push_data 1 (located no_location))

abbrev all_copied : Optimised
all_copied = record {
  items = from_data ++ (from_data ++ from_data);
  optimisations = 1;
  filed = (1, to_big_endian 32 stripes) ∷ [];
}

optimise-pushed : optimise_constants (λ bytes. 1) false 1 constantinople pushed ≡ some all_copied
unfolding optimise_constants count_pushes consider_all replace_constants count_push find_replacement
optimise-pushed = rw stripes-copied refl

pushed-HasWord : All HasWord pushed
pushed-HasWord = (omega arith, (omega arith, (omega arith, tt)))

optimise_constants-value_example :
    (q : Optimised) × (optimise_constants (λ bytes. 1) false 1 constantinople pushed ≡ some q)
optimise_constants-value_example =
    optimise_constants-value (λ bytes. 1) false 1 constantinople pushed pushed-HasWord

stripes-HasData : (v : ℕ) → v ≡ stripes → HasData small_machine one_word 1 v
stripes-HasData v same w there = ap (λ (n : ℕ). ([], first_word n)) (sym same)

stripes-IsFiled : IsFiled small_machine one_word (1, to_big_endian 32 stripes)
stripes-IsFiled v word same = stripes-HasData v (
    to_big_endian-same 32 v stripes
      (div-eq_of_lt word ∙ sym (div-eq_of_lt {n = stripes} {m = 2 ^ 256} (omega arith))) same)

pushed-run :
    run small_machine pushed 3 pushed ([], first_word 0)
    ≡ some (ended (stripes ∷ stripes ∷ stripes ∷ [], first_word 0))
unfolding run step perform
pushed-run = refl

run-optimise_constants_example :
    (k : ℕ) × (run small_machine all_copied.items k all_copied.items ([], first_word 0)
      ≡ some (ended (stripes ∷ stripes ∷ stripes ∷ [], first_word 0)))
run-optimise_constants_example =
    run-optimise_constants small_machine (λ bytes. 1) one_word false 1 constantinople pushed
      all_copied pushed-HasWord optimise-pushed (stripes-IsFiled, tt) 3 ([], first_word 0)
      (ended (stripes ∷ stripes ∷ stripes ∷ [], first_word 0)) tt pushed-run
