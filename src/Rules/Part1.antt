-- ===== src/Rules/Part1.antt =====
-- Part 1 of the rule list: arithmetic on constants. The operators of `u256` are those of Word, and
-- `bigint` is exact.
use polynomial.Prelude.{
  ℕ, ◌+◌, ◌-◌, ◌*◌, ◌/◌, ◌%◌, ◌^◌, false, [], ◌∷◌, if◌then◌else◌, ltb, leb, ◌==◌, bit_and, bit_or,
}
use polynomial.Instruction
use polynomial.Instruction.{Instruction}
use polynomial.Word
use polynomial.Word.{modulus, max_word, truth}
use polynomial.Word.Bits.{test_bit}
use polynomial.Word.Signed.{u2s, s2u, quot, rem, ltb_ℤ}
use polynomial.Rules.{
  SimplificationRule, Rules, computed, value, a, b, c, op1, op2, op3, group_a, group_b, group_c,
}

abbrev unary_rule : Instruction → (ℕ → ℕ) → SimplificationRule
unary_rule i f = computed (op1 i a) (λ d. value (f (d group_a))) false

abbrev binary_rule : Instruction → (ℕ → ℕ → ℕ) → SimplificationRule
binary_rule i f = computed (op2 i a b) (λ d. value (f (d group_a) (d group_b))) false

abbrev ternary_rule : Instruction → (ℕ → ℕ → ℕ → ℕ) → SimplificationRule
ternary_rule i f = computed (op3 i a b c) (λ d. value (f (d group_a) (d group_b) (d group_c))) false

-- `divWorkaround` and `modWorkaround` on `u256` and on `s256`.
abbrev pub div_workaround : ℕ → ℕ → ℕ
div_workaround m n = m / n

abbrev pub mod_workaround : ℕ → ℕ → ℕ
mod_workaround m n = m % n

abbrev pub shl_workaround : ℕ → ℕ → ℕ
shl_workaround m amount = m * 2 ^ amount % modulus

abbrev pub byte_value : ℕ → ℕ → ℕ
byte_value m n = if leb 32 m then 0 else bit_and (n / 2 ^ (8 * (31 - m))) 0xff

abbrev pub sign_extended : ℕ → ℕ → ℕ
sign_extended place n =
    if test_bit place n then bit_or n (max_word - (2 ^ place - 1)) else bit_and n (2 ^ place - 1)

abbrev pub simplification_rule_list_part1 : Rules
simplification_rule_list_part1 =
    binary_rule Instruction.add Word.add
    ∷ binary_rule Instruction.mul Word.mul
    ∷ binary_rule Instruction.sub Word.sub
    ∷ binary_rule Instruction.div (λ m n. if n == 0 then 0 else div_workaround m n)
    ∷ binary_rule Instruction.sdiv (λ m n. if n == 0 then 0 else s2u (quot (u2s m) (u2s n)))
    ∷ binary_rule Instruction.mod_op (λ m n. if n == 0 then 0 else mod_workaround m n)
    ∷ binary_rule Instruction.smod (λ m n. if n == 0 then 0 else s2u (rem (u2s m) (u2s n)))
    ∷ binary_rule Instruction.exp (λ m n. m ^ n % 2 ^ 256)
    ∷ unary_rule Instruction.not Word.not
    ∷ binary_rule Instruction.lt (λ m n. if ltb m n then 1 else 0)
    ∷ binary_rule Instruction.gt (λ m n. if ltb n m then 1 else 0)
    ∷ binary_rule Instruction.slt (λ m n. if ltb_ℤ (u2s m) (u2s n) then 1 else 0)
    ∷ binary_rule Instruction.sgt (λ m n. if ltb_ℤ (u2s n) (u2s m) then 1 else 0)
    ∷ binary_rule Instruction.eq (λ m n. if m == n then 1 else 0)
    ∷ unary_rule Instruction.iszero (λ m. if m == 0 then 1 else 0)
    ∷ binary_rule Instruction.and Word.and
    ∷ binary_rule Instruction.or Word.or
    ∷ binary_rule Instruction.xor Word.xor
    ∷ binary_rule Instruction.byte byte_value
    ∷ ternary_rule Instruction.addmod (λ m n k. if k == 0 then 0 else (m + n) % k)
    ∷ ternary_rule Instruction.mulmod (λ m n k. if k == 0 then 0 else m * n % k)
    ∷ ternary_rule Instruction.mulmod (λ m n k. Word.mul m n)
    ∷ binary_rule Instruction.signextend
        (λ m n. if leb 31 m then n else sign_extended (m * 8 + 7) n)
    ∷ binary_rule Instruction.shl (λ m n. if ltb 255 m then 0 else shl_workaround n m)
    ∷ binary_rule Instruction.shr (λ m n. if ltb 255 m then 0 else n / 2 ^ m)
    ∷ []
