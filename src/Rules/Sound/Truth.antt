-- ===== src/Rules/Sound/Truth.antt =====
-- The rules of parts 5 and 6.
use polynomial.Prelude.{
  ℕ, zero, suc, ◌≡◌, ◌<◌, ◌-◌, ◌%◌, ◌^◌, refl, arith, Every, done, ◌&◌, Every-append, Bool, true,
  false, ◌==◌, ==_iff, ltb, leb, ap, inl, inr, Bool-cases, ◌∙◌, [], sym, bit_and,
}
use polynomial.Instruction
use polynomial.Instruction.{Instruction}
use polynomial.Word
use polynomial.Word.{IsWord, truth, evaluate}
use polynomial.Word.Laws.{and_comm}
use polynomial.Word.Bits.{
  bits_ext, test_bit-and, test_bit-mod, test_bit-ones, test_bit-above, one-le-pow_two, bit_and-ones,
}
use polynomial.Assembly.Semantic.{is_case}
use polynomial.Rules.{group_a, group_x, group_y}
use polynomial.Rules.Part5.{
  mod_rules, for_each, address_rules, address_operations, simplification_rule_list_part5,
  simplification_rule_list_part6,
}
use polynomial.Rules.Meaning.{Machine, IsSound, pattern_value, meaning}
use polynomial.Rules.Sound.Bitwise.{xor-xor, xor_self}
use polynomial.Rules.Sound.Identities.{xor_zero}

-- A remainder by a power of two keeps the lowest digits.
bit_and-low : (i x : ℕ) → bit_and x (2 ^ i - 1) ≡ x % 2 ^ i
bit_and-low i x = bits_ext _ _ (λ j. test_bit-and j x (2 ^ i - 1) ∙ elim (Bool-cases (ltb j i)) [
  | inl below ↦ ground (arith, test_bit-ones i j, test_bit-mod i j x)
  | inr above ↦ ground (arith, test_bit-above i j (2 ^ i - 1), test_bit-mod i j x, one-le-pow_two i)
])

mod-and : (i x : ℕ) → Word.mod_op x (2 ^ i) ≡ Word.and x (2 ^ i - 1)
unfolding Word.mod_op Word.and
mod-and i x = ground (arith, one-le-pow_two i, bit_and-low i x)

shl_far : (a x : ℕ) → leb 256 a ≡ true → Word.shl a x ≡ 0
unfolding Word.shl
shl_far a x h = ground arith

shr_far : (a x : ℕ) → leb 256 a ≡ true → Word.shr a x ≡ 0
unfolding Word.shr
shr_far a x h = ground arith

iszero_thrice : (x : ℕ) → Word.iszero (Word.iszero (Word.iszero x)) ≡ Word.iszero x
unfolding Word.iszero
iszero_thrice x = ground arith

iszero-iszero-truth : (t : Bool) → Word.iszero (Word.iszero (truth t)) ≡ truth t
unfolding Word.iszero
iszero-iszero-truth true = refl
iszero-iszero-truth false = refl

iszero-xor : (x y : ℕ) → IsWord x → IsWord y → Word.iszero (Word.xor x y) ≡ Word.eq x y
unfolding Word.iszero Word.eq
iszero-xor x y hx hy = elim (Bool-cases (Word.xor x y == 0)) [
  | inl equal ↦
      let none_left : (Word.xor x y ≡ 0) = (==_iff (Word.xor x y) 0).0 equal in
      let same : (y ≡ x) = sym (xor-xor x hx y hy) ∙ ap (Word.xor x) none_left ∙ xor_zero x hx in
      ground arith
  | inr different ↦ elim (Bool-cases (x == y)) [
    | inl same ↦
        let none_left : (Word.xor x y ≡ 0) =
          ap (Word.xor x) (sym ((==_iff x y).0 same)) ∙ xor_self x hx in
        ground arith
    | inr other ↦ rw (different, other) refl
  ]
]

and-address : (v : ℕ) → v < 2 ^ 160 → Word.and v (2 ^ 160 - 1) ≡ v
unfolding Word.and
and-address v h = bit_and-ones 160 v h

module _ (m : Machine) where
  mod_rules-IsSound : (i n : ℕ) → Every (IsSound m) (mod_rules i n)
  unfolding mod_rules pattern_value
  mod_rules-IsSound i zero = done
  mod_rules-IsSound i (suc n) = (λ s w h. mod-and i (s group_x)) & mod_rules-IsSound (suc i) n

  address_rules-IsSound :
      (op : Instruction) → meaning m op [] < 2 ^ 160 → Every (IsSound m) (address_rules op)
  unfolding pattern_value Word.and
  address_rules-IsSound op h =
      (λ s w f. and-address (meaning m op []) h)
      & (λ s w f. and_comm (2 ^ 160 - 1) (meaning m op []) ∙ and-address (meaning m op []) h)
      & done

  masks-IsSound : Every (IsSound m) (for_each address_rules address_operations)
  unfolding meaning is_case
  masks-IsSound =
      Every-append
        (address_rules-IsSound Instruction.address (m.other_address Instruction.address [] 0 refl))
        (Every-append
          (address_rules-IsSound Instruction.caller (m.other_address Instruction.caller [] 0 refl))
          (Every-append
            (address_rules-IsSound Instruction.origin
              (m.other_address Instruction.origin [] 0 refl))
            (Every-append
              (address_rules-IsSound Instruction.coinbase
                (m.other_address Instruction.coinbase [] 0 refl))
              (Every-append
                (address_rules-IsSound Instruction.create
                  (m.other_address Instruction.create [] 0 refl))
                (Every-append
                  (address_rules-IsSound Instruction.create2
                    (m.other_address Instruction.create2 [] 0 refl))
                  done)))))

  pub part5-IsSound : Every (IsSound m) simplification_rule_list_part5
  unfolding pattern_value
  part5-IsSound = Every-append (mod_rules-IsSound 0 256) (
      (λ s w h. shl_far (s group_a) (s group_x) h)
      & (λ s w h. shr_far (s group_a) (s group_x) h)
      & masks-IsSound)

  pub part6-IsSound : Every (IsSound m) simplification_rule_list_part6
  unfolding pattern_value Word.eq Word.lt Word.slt Word.gt Word.sgt
  part6-IsSound =
      (λ s w h. iszero-iszero-truth _)
      & (λ s w h. iszero-iszero-truth _)
      & (λ s w h. iszero-iszero-truth _)
      & (λ s w h. iszero-iszero-truth _)
      & (λ s w h. iszero-iszero-truth _)
      & (λ s w h. iszero_thrice (s group_x))
      & (λ s w h. iszero-xor (s group_x) (s group_y) (w group_x) (w group_y))
      & done
