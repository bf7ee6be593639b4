-- ===== src/Word.antt =====
-- 256-bit words: the values of the virtual machine's instructions that depend on their arguments
-- alone, as test/tools/yulInterpreter/SVMInstructionInterpreter.cpp evaluates them. A `u256` is a
-- number below 2^256; the arithmetic of that type wraps round, which is written out.
pub mod Bits
pub mod Signed
pub mod Laws
pub mod Places
pub mod Join
pub mod Powers
mod Tests
use polynomial.Prelude.{
  ℕ, zero, suc, ◌+◌, ◌-◌, ◌*◌, ◌/◌, ◌%◌, ◌^◌, ◌<◌, Bool, true, false, bit_and, bit_or, bit_xor,
  Option, none, some, List, [], ◌∷◌, ltb, leb, ◌==◌, if◌then◌else◌,
}
use polynomial.Instruction
use polynomial.Instruction.{Instruction}
use polynomial.Word.Bits.{test_bit}
use polynomial.Word.Signed.{u2s, s2u, quot, rem, ltb_ℤ}

abbrev pub modulus : ℕ
modulus = 2 ^ 256

-- `u256(-1)`.
abbrev pub max_word : ℕ
max_word = 2 ^ 256 - 1

abbrev pub IsWord : ℕ → Type 0
IsWord n = n < modulus

abbrev pub truth : Bool → ℕ
truth b = if b then 1 else 0

unfoldable pub add : ℕ → ℕ → ℕ
add a b = (a + b) % modulus

unfoldable pub mul : ℕ → ℕ → ℕ
mul a b = a * b % modulus

unfoldable pub sub : ℕ → ℕ → ℕ
sub a b = (a + modulus - b) % modulus

unfoldable pub div : ℕ → ℕ → ℕ
div a b = if b == 0 then 0 else a / b

unfoldable pub sdiv : ℕ → ℕ → ℕ
unfolding u2s s2u quot
sdiv a b = if b == 0 then 0 else s2u (quot (u2s a) (u2s b))

unfoldable pub mod_op : ℕ → ℕ → ℕ
mod_op a b = if b == 0 then 0 else a % b

unfoldable pub smod : ℕ → ℕ → ℕ
unfolding u2s s2u rem
smod a b = if b == 0 then 0 else s2u (rem (u2s a) (u2s b))

-- The loop of `exp256` of libdevcore/Common.h; the exponent loses a bit in each round.
unfoldable pub exp_loop : ℕ → ℕ → ℕ → ℕ → ℕ
exp_loop zero result base exponent = result
exp_loop (suc f) result base exponent =
    let product = if exponent % 2 == 1 then result * base % modulus else result in
    let rest = exp_loop f product (base * base % modulus) (exponent / 2) in
    if exponent == 0 then result else rest

unfoldable pub exp : ℕ → ℕ → ℕ
unfolding exp_loop
exp base exponent = exp_loop 256 1 base exponent

unfoldable pub not : ℕ → ℕ
not a = max_word - a

unfoldable pub lt : ℕ → ℕ → ℕ
lt a b = truth (ltb a b)

unfoldable pub gt : ℕ → ℕ → ℕ
gt a b = truth (ltb b a)

unfoldable pub slt : ℕ → ℕ → ℕ
unfolding u2s ltb_ℤ
slt a b = truth (ltb_ℤ (u2s a) (u2s b))

unfoldable pub sgt : ℕ → ℕ → ℕ
unfolding u2s ltb_ℤ
sgt a b = truth (ltb_ℤ (u2s b) (u2s a))

unfoldable pub eq : ℕ → ℕ → ℕ
eq a b = truth (a == b)

unfoldable pub iszero : ℕ → ℕ
iszero a = truth (a == 0)

unfoldable pub and : ℕ → ℕ → ℕ
and a b = bit_and a b

unfoldable pub or : ℕ → ℕ → ℕ
or a b = bit_or a b

unfoldable pub xor : ℕ → ℕ → ℕ
xor a b = bit_xor a b

unfoldable pub byte : ℕ → ℕ → ℕ
byte a b = if leb 32 a then 0 else bit_and (b / 2 ^ (8 * (31 - a))) 0xff

unfoldable pub shl : ℕ → ℕ → ℕ
shl a b = if ltb 255 a then 0 else b * 2 ^ a % modulus

unfoldable pub shr : ℕ → ℕ → ℕ
shr a b = if ltb 255 a then 0 else b / 2 ^ a

abbrev pub sar_amount : ℕ → ℕ → ℕ
sar_amount amount b =
    if bit_and b (2 ^ 255) == 0
    then b / 2 ^ amount
    else bit_or (b / 2 ^ amount) (max_word * 2 ^ (256 - amount) % modulus)

unfoldable pub sar : ℕ → ℕ → ℕ
sar a b = if leb 256 a then (if bit_and b (2 ^ 255) == 0 then 0 else max_word) else sar_amount a b

unfoldable pub addmod : ℕ → ℕ → ℕ → ℕ
addmod a b c = if c == 0 then 0 else (a + b) % c

unfoldable pub mulmod : ℕ → ℕ → ℕ → ℕ
mulmod a b c = if c == 0 then 0 else a * b % c

abbrev pub extend_from : ℕ → ℕ → ℕ
extend_from place b =
    if test_bit place b then bit_or b (max_word - (2 ^ place - 1)) else bit_and b (2 ^ place - 1)

unfoldable pub signextend : ℕ → ℕ → ℕ
unfolding test_bit
signextend a b = if leb 31 a then b else extend_from (a * 8 + 7) b

-- An operation on words, by its number of arguments.
pub data Operator : Type 0 where
  unary : (ℕ → ℕ) → Operator
  binary : (ℕ → ℕ → ℕ) → Operator
  ternary : (ℕ → ℕ → ℕ → ℕ) → Operator

-- The cases of the `switch` that read nothing but the arguments.
abbrev pub operators : List (Instruction × Operator)
operators =
    (Instruction.add, binary add)
    ∷ (Instruction.mul, binary mul)
    ∷ (Instruction.sub, binary sub)
    ∷ (Instruction.div, binary div)
    ∷ (Instruction.sdiv, binary sdiv)
    ∷ (Instruction.mod_op, binary mod_op)
    ∷ (Instruction.smod, binary smod)
    ∷ (Instruction.exp, binary exp)
    ∷ (Instruction.not, unary not)
    ∷ (Instruction.lt, binary lt)
    ∷ (Instruction.gt, binary gt)
    ∷ (Instruction.slt, binary slt)
    ∷ (Instruction.sgt, binary sgt)
    ∷ (Instruction.eq, binary eq)
    ∷ (Instruction.iszero, unary iszero)
    ∷ (Instruction.and, binary and)
    ∷ (Instruction.or, binary or)
    ∷ (Instruction.xor, binary xor)
    ∷ (Instruction.byte, binary byte)
    ∷ (Instruction.shl, binary shl)
    ∷ (Instruction.shr, binary shr)
    ∷ (Instruction.sar, binary sar)
    ∷ (Instruction.addmod, ternary addmod)
    ∷ (Instruction.mulmod, ternary mulmod)
    ∷ (Instruction.signextend, binary signextend)
    ∷ []

unfoldable pub operator_at : List (Instruction × Operator) → Instruction → Option Operator
operator_at [] i = none
operator_at ((j, o) ∷ rest) i = if j == i then some o else operator_at rest i

abbrev pub apply_operator : Operator → List ℕ → Option ℕ
apply_operator (unary f) (a ∷ []) = some (f a)
apply_operator (binary f) (a ∷ b ∷ []) = some (f a b)
apply_operator (ternary f) (a ∷ b ∷ c ∷ []) = some (f a b c)
apply_operator _ _ = none

-- The value of an instruction that depends on its arguments alone; `none` for any other, and for a
-- wrong number of arguments.
unfoldable pub evaluate : Instruction → List ℕ → Option ℕ
unfolding operator_at
evaluate i args = elim (operator_at operators i) [ none ↦ none | some o ↦ apply_operator o args ]
