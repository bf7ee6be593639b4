-- ===== src/Word/Laws.antt =====
-- Every instruction on words gives a word, and laws of single instructions.
use native.Mathlib.Nat.{mod-lt, mod-le, div-le_self, mul_comm}
use mathlib.Core.Bool.{false≢true}
use mathlib.Core.Path.{subst}
use polynomial.Prelude.{
  ℕ, zero, suc, ◌+◌, ◌-◌, ◌*◌, ◌/◌, ◌%◌, ◌^◌, ◌<◌, ◌≡◌, refl, sym, ap, ◌∙◌, ◌≢◌, Bool, true, false,
  arith, List, [], ◌∷◌, some, ltb, ltb→lt, leb, ◌==◌, if◌then◌else◌, Bool-cases, Option-cases,
  some_inj, none_ne_some, inl, inr, All, Every, ◌&◌, done, bit_and,
}
use polynomial.Instruction.{Instruction}
use polynomial.Word
use polynomial.Word.{
  IsWord, modulus, max_word, truth, Operator, unary, binary, ternary, operators, operator_at,
  apply_operator, evaluate, exp_loop, sar_amount, extend_from,
}
use polynomial.Word.Bits.{
  test_bit, test_bit-zero, bit_and-lt, bit_or-lt, bit_xor-lt, bit_and_comm, bit_or_comm,
  bit_xor_comm, bit_and-ones, bits_ext, test_bit-and, test_bit-ones, test_bit-above,
}
use polynomial.Word.Signed.{ℤ, magnitude, is_negative, differs, signed, u2s, s2u, quot, rem}

s2u-signed : (b : Bool) (n : ℕ) → n < 2 ^ 256 → s2u (signed b n) < 2 ^ 256
unfolding s2u
s2u-signed false n h = h
s2u-signed true zero h = h
s2u-signed true (suc n) h = omega arith

magnitude-signed : (b : Bool) (n : ℕ) → magnitude (signed b n) ≡ n
magnitude-signed false n = refl
magnitude-signed true zero = refl
magnitude-signed true (suc n) = omega arith

nonzero_of_bit : (a : ℕ) → test_bit 255 a ≡ true → a ≢ 0
nonzero_of_bit a h e =
    false≢true (sym (test_bit-zero 255) ∙ ap (λ (n : ℕ). test_bit 255 n) (sym e) ∙ h)

magnitude-u2s : (a : ℕ) → a < 2 ^ 256 → magnitude (u2s a) < 2 ^ 256
unfolding u2s
magnitude-u2s a h = elim (Bool-cases (test_bit 255 a)) [
  | inl high ↦ rw (high, magnitude-signed) (omega (arith, nonzero_of_bit a high))
  | inr low ↦ rw low h
]

s2u-quot : (a b : ℤ) → magnitude a < 2 ^ 256 → s2u (quot a b) < 2 ^ 256
unfolding quot
s2u-quot a b h =
    s2u-signed (differs (is_negative a) (is_negative b)) (magnitude a / magnitude b)
      (omega (arith, div-le_self (magnitude a) (magnitude b)))

s2u-rem : (a b : ℤ) → magnitude a < 2 ^ 256 → s2u (rem a b) < 2 ^ 256
unfolding rem
s2u-rem a b h =
    s2u-signed (is_negative a) (magnitude a % magnitude b)
      (omega (arith, mod-le (magnitude a) (magnitude b)))

-- The result of an operator on words is a word.
abbrev Fits : Operator → Type 0
Fits (unary f) = (a : ℕ) → IsWord a → IsWord (f a)
Fits (binary f) = (a b : ℕ) → IsWord a → IsWord b → IsWord (f a b)
Fits (ternary f) = (a b c : ℕ) → IsWord a → IsWord b → IsWord c → IsWord (f a b c)

truth-IsWord : (b : Bool) → IsWord (truth b)
truth-IsWord true = omega arith
truth-IsWord false = omega arith

if-IsWord : (t : Bool) (x y : ℕ) → IsWord x → IsWord y → IsWord (if t then x else y)
if-IsWord true x y hx hy = hx
if-IsWord false x y hx hy = hy

mod_op-IsWord : Fits (binary Word.mod_op)
unfolding Word.mod_op
mod_op-IsWord a b ha hb = if-IsWord (b == 0) 0 (a % b) (omega arith) (omega (arith, mod-le a b))

div-IsWord : Fits (binary Word.div)
unfolding Word.div
div-IsWord a b ha hb = if-IsWord (b == 0) 0 (a / b) (omega arith) (omega (arith, div-le_self a b))

sdiv-IsWord : Fits (binary Word.sdiv)
unfolding Word.sdiv
sdiv-IsWord a b ha hb =
    if-IsWord (b == 0) 0 _ (omega arith) (s2u-quot (u2s a) (u2s b) (magnitude-u2s a ha))

smod-IsWord : Fits (binary Word.smod)
unfolding Word.smod
smod-IsWord a b ha hb =
    if-IsWord (b == 0) 0 _ (omega arith) (s2u-rem (u2s a) (u2s b) (magnitude-u2s a ha))

exp_loop-IsWord : (f r b e : ℕ) → IsWord r → IsWord (exp_loop f r b e)
unfolding exp_loop
exp_loop-IsWord zero r b e h = h
exp_loop-IsWord (suc f) r b e h = if-IsWord (e == 0) r _ h (
    exp_loop-IsWord f (if e % 2 == 1 then r * b % modulus else r) (b * b % modulus) (e / 2)
      (if-IsWord (e % 2 == 1) (r * b % modulus) r (omega arith) h))

shr-IsWord : Fits (binary Word.shr)
unfolding Word.shr
shr-IsWord a b ha hb =
    if-IsWord (ltb 255 a) 0 (b / 2 ^ a) (omega arith) (omega (arith, div-le_self b (2 ^ a)))

byte-IsWord : Fits (binary Word.byte)
unfolding Word.byte
byte-IsWord a b ha hb =
    if-IsWord (leb 32 a) 0 _ (omega arith)
      (bit_and-lt 256 _ 0xff (omega (arith, div-le_self b (2 ^ (8 * (31 - a))))))

sar-IsWord : Fits (binary Word.sar)
unfolding Word.sar
sar-IsWord a b ha hb =
    let shifted : IsWord (b / 2 ^ a) = omega (arith, div-le_self b (2 ^ a)) in
    if-IsWord (leb 256 a) _ (sar_amount a b)
      (if-IsWord (bit_and b (2 ^ 255) == 0) 0 max_word (omega arith) (omega arith))
      (if-IsWord (bit_and b (2 ^ 255) == 0) (b / 2 ^ a) _ shifted
        (bit_or-lt 256 (b / 2 ^ a) _ shifted (omega arith)))

signextend-IsWord : Fits (binary Word.signextend)
unfolding Word.signextend
signextend-IsWord a b ha hb = if-IsWord (leb 31 a) b (extend_from (a * 8 + 7) b) hb (
    if-IsWord (test_bit (a * 8 + 7) b) _ _ (bit_or-lt 256 b _ hb (omega arith))
      (bit_and-lt 256 b (2 ^ (a * 8 + 7) - 1) hb))

addmod-IsWord : Fits (ternary Word.addmod)
unfolding Word.addmod
addmod-IsWord a b c ha hb hc = elim (Bool-cases (c == 0)) [
  | inl z ↦ rw z (omega arith)
  | inr nz ↦ rw nz (ground (arith, mod-lt (a + b) {m = c}))
]

mulmod-IsWord : Fits (ternary Word.mulmod)
unfolding Word.mulmod
mulmod-IsWord a b c ha hb hc = elim (Bool-cases (c == 0)) [
  | inl z ↦ rw z (omega arith)
  | inr nz ↦ rw nz (ground (arith, mod-lt (a * b) {m = c}))
]

-- All operators of the interpreter give words.
operators-fit : Every (λ (e : Instruction × Operator). Fits e.1) operators
unfolding Word.add Word.mul Word.sub Word.exp Word.not Word.lt Word.gt Word.slt Word.sgt Word.eq
    Word.iszero Word.and Word.or Word.xor Word.shl
operators-fit =
    (λ a b ha hb. omega arith)
    & (λ a b ha hb. omega arith)
    & (λ a b ha hb. omega arith)
    & div-IsWord
    & sdiv-IsWord
    & mod_op-IsWord
    & smod-IsWord
    & (λ a b ha hb. exp_loop-IsWord 256 1 a b (omega arith))
    & (λ a ha. omega arith)
    & (λ a b ha hb. truth-IsWord (ltb a b))
    & (λ a b ha hb. truth-IsWord (ltb b a))
    & (λ a b ha hb. truth-IsWord _)
    & (λ a b ha hb. truth-IsWord _)
    & (λ a b ha hb. truth-IsWord (a == b))
    & (λ a ha. truth-IsWord (a == 0))
    & (λ a b ha hb. bit_and-lt 256 a b ha)
    & (λ a b ha hb. bit_or-lt 256 a b ha hb)
    & (λ a b ha hb. bit_xor-lt 256 a b ha hb)
    & byte-IsWord
    & (λ a b ha hb. if-IsWord (ltb 255 a) 0 (b * 2 ^ a % modulus) (omega arith) (omega arith))
    & shr-IsWord
    & sar-IsWord
    & addmod-IsWord
    & mulmod-IsWord
    & signextend-IsWord
    & done

Every-operator_at :
    (table : List (Instruction × Operator))
    → Every (λ (e : Instruction × Operator). Fits e.1) table
    → (i : Instruction) (o : Operator) → operator_at table i ≡ some o
    → Fits o
unfolding operator_at
Every-operator_at [] done i o h = (none_ne_some h)
Every-operator_at ((j, p) ∷ table) (f & fs) i o h = elim (Bool-cases (j == i)) [
  | inl e ↦ subst Fits (some_inj (sym (rw e) ∙ h)) f
  | inr e ↦ Every-operator_at table fs i o (sym (rw e) ∙ h)
]

apply_operator-IsWord :
    (o : Operator) (args : List ℕ) (v : ℕ)
    → Fits o
    → All IsWord args
    → apply_operator o args ≡ some v
    → IsWord v
apply_operator-IsWord (unary f) [] v fits h e = cc
apply_operator-IsWord (unary f) (a ∷ []) v fits h e = subst IsWord (some_inj e) (fits a h.0)
apply_operator-IsWord (unary f) (a ∷ b ∷ r) v fits h e = cc
apply_operator-IsWord (binary f) [] v fits h e = cc
apply_operator-IsWord (binary f) (a ∷ []) v fits h e = cc
apply_operator-IsWord (binary f) (a ∷ b ∷ []) v fits h e =
    subst IsWord (some_inj e) (fits a b h.0 h.1.0)
apply_operator-IsWord (binary f) (a ∷ b ∷ c ∷ r) v fits h e = cc
apply_operator-IsWord (ternary f) [] v fits h e = cc
apply_operator-IsWord (ternary f) (a ∷ []) v fits h e = cc
apply_operator-IsWord (ternary f) (a ∷ b ∷ []) v fits h e = cc
apply_operator-IsWord (ternary f) (a ∷ b ∷ c ∷ []) v fits h e =
    subst IsWord (some_inj e) (fits a b c h.0 h.1.0 h.1.1.0)
apply_operator-IsWord (ternary f) (a ∷ b ∷ c ∷ d ∷ r) v fits h e = cc

-- An instruction on words gives a word.
pub evaluate-IsWord :
    (i : Instruction) (args : List ℕ) (v : ℕ)
    → All IsWord args
    → evaluate i args ≡ some v
    → IsWord v
unfolding evaluate
evaluate-IsWord i args v h e = elim (Option-cases (operator_at operators i)) [
  | inl missing ↦ (none_ne_some (sym (rw (missing, evaluate)) ∙ e))
  | inr (o, found) ↦
      apply_operator-IsWord o args v (Every-operator_at operators operators-fit i o found) h
        (sym (rw (found, evaluate)) ∙ e)
]

-- Laws of single instructions.

pub add_comm : (a b : ℕ) → Word.add a b ≡ Word.add b a
unfolding Word.add
add_comm a b = omega arith

pub mul_word_comm : (a b : ℕ) → Word.mul a b ≡ Word.mul b a
unfolding Word.mul
mul_word_comm a b = omega (arith, mul_comm a b)

pub eq_comm : (a b : ℕ) → Word.eq a b ≡ Word.eq b a
unfolding Word.eq
eq_comm a b = ground arith

pub and_comm : (a b : ℕ) → Word.and a b ≡ Word.and b a
unfolding Word.and
and_comm a b = bit_and_comm a b

pub or_comm : (a b : ℕ) → Word.or a b ≡ Word.or b a
unfolding Word.or
or_comm a b = bit_or_comm a b

pub xor_comm : (a b : ℕ) → Word.xor a b ≡ Word.xor b a
unfolding Word.xor
xor_comm a b = bit_xor_comm a b

pub lt-eq-gt : (a b : ℕ) → Word.lt a b ≡ Word.gt b a
unfolding Word.lt Word.gt
lt-eq-gt a b = refl

pub slt-eq-sgt : (a b : ℕ) → Word.slt a b ≡ Word.sgt b a
unfolding Word.slt Word.sgt
slt-eq-sgt a b = refl

-- A mask with ones wherever the other number may have them.
pub and-mask : (n d a : ℕ) → bit_and d (2 ^ n - 1) ≡ 2 ^ n - 1 → a < 2 ^ n → Word.and d a ≡ a
unfolding Word.and
and-mask n d a h k = bits_ext _ _ (λ i. elim (Bool-cases (ltb i n)) [
  | inl below ↦
      let one =
        sym (test_bit-and i d (2 ^ n - 1))
        ∙ ap (test_bit i) h
        ∙ test_bit-ones n i (ltb→lt i n below) in
      ground (arith, test_bit-and i d a)
  | inr above ↦ ground (arith, test_bit-and i d a, test_bit-above n i a k)
])

pub and-max_word : (a : ℕ) → IsWord a → Word.and (Word.not 0) a ≡ a
unfolding Word.and Word.not
and-max_word a h = bit_and_comm max_word a ∙ bit_and-ones 256 a h
