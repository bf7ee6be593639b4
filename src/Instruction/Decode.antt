-- ===== src/Instruction/Decode.antt =====
-- Reading code back: the calls of `eachInstruction` on the bytes of a list of instructions.
use native.Mathlib.Nat.{div-div-eq-div-mul, div-le_self, div-eq_of_lt}
use polynomial.Prelude.{
  ℕ, zero, suc, ◌*◌, ◌/◌, ◌%◌, ◌^◌, ◌<◌, ◌≤◌, bit_or, ◌≡◌, refl, sym, ap, ap₂, ◌∙◌, List, [], ◌∷◌,
  ◌++◌, length, length-append, All, arith,
}
use polynomial.Instruction.{Instruction}
use polynomial.Instruction.Stream.{additional_bytes, read_data, instruction_loop, each_instruction}
use polynomial.Word.Join.{bit_or-add, eight_more}

-- The lowest bytes of a number, the highest first.
unfoldable pub big_endian : ℕ → ℕ → List ℕ
big_endian zero n = []
big_endian (suc k) n = n / 2 ^ (8 * k) % 256 ∷ big_endian k n

-- The bytes of instructions with their data.
unfoldable pub encode : List (Instruction × ℕ) → List ℕ
unfolding big_endian additional_bytes
encode [] = []
encode ((instr, n) ∷ calls) = instr ∷ (big_endian (additional_bytes instr) n ++ encode calls)

-- Data that has its place behind the instruction.
abbrev pub Fits : Instruction × ℕ → Type 0
Fits (instr, n) = (n < 2 ^ 256) × (n < 2 ^ (8 * additional_bytes instr))

next_byte :
    (k n : ℕ)
    → n < 2 ^ 256
    → bit_or (n / 2 ^ (8 * suc k) * 2 ^ 8 % 2 ^ 256) (n / 2 ^ (8 * k) % 256) ≡ n / 2 ^ (8 * k)
next_byte k n h =
    let high : (n / 2 ^ (8 * suc k) ≡ n / 2 ^ (8 * k) / 2 ^ 8) =
      ap (λ (t : ℕ). n / t) (eight_more k) ∙ sym (div-div-eq-div-mul n (2 ^ (8 * k)) (2 ^ 8)) in
    let bound = div-le_self n (2 ^ (8 * k)) in
    let m = n / 2 ^ (8 * k) in
    let small : (m / 2 ^ 8 * 2 ^ 8 % 2 ^ 256 ≡ m / 2 ^ 8 * 2 ^ 8) = omega (arith, bound) in
    rw high (rw small (bit_or-add 8 (m / 2 ^ 8) (m % 256) (omega arith) ∙ omega arith))

read_data-big_endian :
    (k n : ℕ) (rest : List ℕ)
    → n < 2 ^ 256
    → read_data k (n / 2 ^ (8 * k)) (big_endian k n ++ rest) ≡ (n, rest)
unfolding read_data big_endian
read_data-big_endian zero n rest h = ap (λ (w : ℕ). (w, rest)) (omega arith)
read_data-big_endian (suc k) n rest h =
    ap (λ w. read_data k w (big_endian k n ++ rest)) (next_byte k n h)
    ∙ read_data-big_endian k n rest h

loop-encode :
    (fuel : ℕ) (calls : List (Instruction × ℕ))
    → length (encode calls) ≤ fuel
    → All Fits calls
    → instruction_loop fuel (encode calls) ≡ calls
unfolding instruction_loop encode
loop-encode zero [] h all = refl
loop-encode (suc fuel) [] h all = refl
loop-encode zero ((instr, n) ∷ calls) h all = absurd (omega arith)
loop-encode (suc fuel) ((instr, n) ∷ calls) h ((word, fits), all) =
    let k = additional_bytes instr in
    let read : (read_data k 0 (big_endian k n ++ encode calls) ≡ (n, encode calls)) =
      ap (λ w. read_data k w (big_endian k n ++ encode calls)) (sym (div-eq_of_lt fits))
      ∙ read_data-big_endian k n (encode calls) word in
    let shorter : (length (encode calls) ≤ fuel) =
      omega (arith, length-append (big_endian k n) (encode calls)) in
    ap₂ (λ (w : ℕ) (rest : List (Instruction × ℕ)). (instr, w) ∷ rest)
      (ap (λ (r : ℕ × List ℕ). r.0) read)
      (ap (λ (r : ℕ × List ℕ). instruction_loop fuel r.1) read ∙ loop-encode fuel calls shorter all)

-- For instructions whose data is a word and has its place in as many bytes as the instruction takes
-- behind it, the calls that `eachInstruction` makes on the bytes of the instructions are these
-- instructions with their data, in order.
pub each_instruction-encode :
    (calls : List (Instruction × ℕ)) → All Fits calls → each_instruction (encode calls) ≡ calls
unfolding each_instruction
each_instruction-encode calls all = loop-encode (length (encode calls)) calls (omega arith) all
