-- ===== src/Assembly/Constants/Total.antt =====
-- No exception is thrown where a method is chosen for a constant.
use mathlib.Core.Path.{subst}
use polynomial.Prelude.{
  ◌≢◌, ℕ, ◌-◌, zero, suc, ◌*◌, ◌^◌, ◌≤◌, ◌<◌, ◌≡◌, refl, sym, ap, ◌∙◌, true, false, ◌&&◌, Option,
  some, List, [], ◌∷◌, ◌==◌, ltb, leb, if◌then◌else◌, Bool-cases, inl, inr, length, some_inj, arith,
}
use polynomial.Instruction.Info.{instruction_info}
use polynomial.Word.{IsWord}
use polynomial.Gas.{data_gas, sent_gas, run_gas}
use polynomial.Assembly.Item.{AssemblyItems, bytes_required, item_bytes, items_bytes}
use polynomial.Assembly.Sizes.{bytes_required-least}
use polynomial.Assembly.Constants.{
  ◌>>=◌, Params, to_big_endian, to_compact_big_endian, method_data_gas, literal_gas, code_copy_gas,
  compute_gas, simple_run_gas, item_gas,
}
use polynomial.Assembly.Constants.Compute.{compute_routine}
use polynomial.Assembly.Constants.Find.{compute_routine-some}
use polynomial.Assembly.Constants.Tiny.{IsRoutine, compute_gas-some}
use polynomial.Assembly.Constants.Optimise.{Method, literal, copied, computed, choose_method}

length-to_big_endian : (size value : ℕ) → length (to_big_endian size value) ≡ size
unfolding to_big_endian
length-to_big_endian zero value = refl
length-to_big_endian (suc size) value = omega (arith, length-to_big_endian size value)

sent_gas-le : (bytes : List ℕ) → sent_gas bytes ≤ 68 * length bytes
unfolding sent_gas
sent_gas-le [] = omega arith
sent_gas-le (b ∷ bytes) = ground (arith, sent_gas-le bytes)

-- A result that is computed from one that is there.
mapped :
    {A B : Type 0} (o : Option A) (f : A → B)
    → (a : A) × (o ≡ some a)
    → (b : B) × ((o >>= λ a. some (f a)) ≡ some b)
mapped o f (a, e) = (f a, ap (λ o. o >>= λ a. some (f a)) e)

data_gas-some :
    (p : Params) (bytes : List ℕ)
    → 0 < length bytes
    → length bytes ≤ 32
    → (g : ℕ) × (method_data_gas p bytes ≡ some g)
unfolding data_gas
data_gas-some p bytes some_bytes few =
    let gas = if p.is_creation then sent_gas bytes else 200 * length bytes in
    let bound = sent_gas-le bytes in
    let there : ((length bytes == 0) ≡ false) = ground arith in
    let low : (ltb gas (2 ^ 256 - 1) ≡ true) = ground arith in (gas, rw (there, low) refl)

fitting : (b : ℕ) → b ≤ 32 → (0 < (if ltb b 1 then 1 else b)) × ((if ltb b 1 then 1 else b) ≤ 32)
fitting b h = ground arith

literal_gas-some : (p : Params) (v : ℕ) → IsWord v → (g : ℕ) × (literal_gas p v ≡ some g)
unfolding literal_gas to_compact_big_endian simple_run_gas item_gas run_gas instruction_info
literal_gas-some p v word =
    let (_, all) = bytes_required-least v 32 word in
    let few = all (omega arith) in
    let size = if ltb (bytes_required v) 1 then 1 else bytes_required v in
    let fits = fitting (bytes_required v) few in
    let long = length-to_big_endian size v in
    mapped (method_data_gas p (to_big_endian size v)) _ (
      data_gas-some p (to_big_endian size v) (omega (arith, long, fits.0))
        (omega (arith, long, fits.1)))

code_copy_gas-some : (p : Params) (v : ℕ) → (g : ℕ) × (code_copy_gas p v ≡ some g)
unfolding code_copy_gas simple_run_gas item_gas run_gas instruction_info items_bytes item_bytes
code_copy_gas-some p v =
    let size = length-to_big_endian 32 v in
    mapped (method_data_gas p (to_big_endian 32 v)) _
      (data_gas-some p (to_big_endian 32 v) (omega (arith, size)) (omega (arith, size)))

-- What a method does is to put the value on the stack.
abbrev pub Fits : Params → ℕ → Method → Type 0
Fits p v literal = Unit
Fits p v (copied bytes) = bytes ≡ to_big_endian 32 v
Fits p v (computed routine) = IsRoutine p v routine

pub choose_method-some :
    (p : Params) (v : ℕ) → IsWord v → (m : Method) × (choose_method p v ≡ some m) × Fits p v m
unfolding choose_method
choose_method-some p v word =
    let (gas, e) = literal_gas-some p v word in
    let (copy, e') = code_copy_gas-some p v in
    let (r, found, routine) = compute_routine-some p v word in
    let (compute, e'') = compute_gas-some p r routine.priced in
    elim (Bool-cases (ltb copy gas && ltb copy compute)) [
      | inl t ↦ (copied (to_big_endian 32 v), rw (e, e', found, e'', t) refl, refl)
      | inr f ↦ elim (Bool-cases (ltb compute gas && leb compute copy)) [
        | inl t ↦ (computed r, rw (e, e', found, e'', f, t) refl, routine)
        | inr g ↦ (literal, rw (e, e', found, e'', f, g) refl, tt)
      ]
    ]

-- What a method costs.
abbrev pub cost : Method → ℕ → ℕ → ℕ → ℕ
cost literal gas copy compute = gas
cost (copied _) gas copy compute = copy
cost (computed _) gas copy compute = compute

-- Where the three costs are known, those of a routine that computes the constant among them, the
-- method that is chosen costs no more than any, and less than the literal unless it is the literal.
pub choose_method-least :
    (p : Params) (v gas copy compute : ℕ) (routine : AssemblyItems) (m : Method)
    → literal_gas p v ≡ some gas
    → code_copy_gas p v ≡ some copy
    → compute_routine p v ≡ some routine
    → compute_gas p routine ≡ some compute
    → choose_method p v ≡ some m
    → (cost m gas copy compute ≤ gas)
      × (cost m gas copy compute ≤ copy)
      × (cost m gas copy compute ≤ compute)
      × (m ≢ literal → cost m gas copy compute < gas)
unfolding choose_method
choose_method-least p v gas copy compute routine m e e' found e'' h =
    elim (Bool-cases (ltb copy gas && ltb copy compute)) [
      | inl t ↦
          least m (copied (to_big_endian 32 v)) h (rw (e, e', found, e'', t) refl)
            (ground arith, ground arith, ground arith, λ k. ground arith)
      | inr f ↦ elim (Bool-cases (ltb compute gas && leb compute copy)) [
        | inl t ↦
            least m (computed routine) h (rw (e, e', found, e'', f, t) refl)
              (ground arith, ground arith, ground arith, λ k. ground arith)
        | inr g ↦
            least m literal h (rw (e, e', found, e'', f, g) refl)
              (ground arith, ground arith, ground arith, λ k. absurd (k refl))
      ]
    ]
  where
    Least : Method → Type 0
    Least m =
        (cost m gas copy compute ≤ gas)
        × (cost m gas copy compute ≤ copy)
        × (cost m gas copy compute ≤ compute)
        × (m ≢ literal → cost m gas copy compute < gas)

    least :
        (m m' : Method)
        → choose_method p v ≡ some m
        → choose_method p v ≡ some m'
        → Least m'
        → Least m
    least m m' h k l = subst Least (some_inj (sym k ∙ h)) l
