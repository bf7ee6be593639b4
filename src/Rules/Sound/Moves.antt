-- ===== src/Rules/Sound/Moves.antt =====
-- The rules of part 7 that move constants to the outside of an associative operation.
use mathlib.Core.Bool.{xor}
use native.Mathlib.Nat.{mul_assoc}
use polynomial.Prelude.{
  ℕ, ◌≡◌, ◌*◌, ◌%◌, refl, arith, Every, done, ◌&◌, Every-append, ap, ◌∙◌, sym, [], ◌∷◌,
}
use polynomial.Instruction
use polynomial.Instruction.{Instruction}
use polynomial.Word
use polynomial.Word.{IsWord, modulus}
use polynomial.Word.Bits.{bits_ext, test_bit-and, test_bit-or, test_bit-xor}
use polynomial.Word.Laws.{and_comm, or_comm, xor_comm, add_comm, mul_word_comm}
use polynomial.Word.Powers.{mul-mod, mul-mod_left}
use polynomial.Rules.{group_a, group_b, group_x, group_y}
use polynomial.Rules.Part5.{for_each}
use polynomial.Rules.Part7.{associative_rules, associative_operations}
use polynomial.Rules.Meaning.{Machine, IsSound, pattern_value, meaning}

abbrev Associative : (ℕ → ℕ → ℕ) → Type 0
Associative f = (x y z : ℕ) → f (f x y) z ≡ f x (f y z)

abbrev Commutative : (ℕ → ℕ → ℕ) → Type 0
Commutative f = (x y : ℕ) → f x y ≡ f y x

add_assoc : Associative Word.add
unfolding Word.add
add_assoc x y z = omega arith

mul_word_assoc : Associative Word.mul
unfolding Word.mul
mul_word_assoc x y z =
    mul-mod (x * y) z modulus
    ∙ ap (λ (n : ℕ). n % modulus) (mul_assoc x y z)
    ∙ sym (mul-mod_left x (y * z) modulus)

and_assoc : Associative Word.and
unfolding Word.and
and_assoc x y z = bits_ext _ _ (λ i. ground (
  arith,
  test_bit-and i (Word.and x y) z,
  test_bit-and i x y,
  test_bit-and i x (Word.and y z),
  test_bit-and i y z,
))

or_assoc : Associative Word.or
unfolding Word.or
or_assoc x y z = bits_ext _ _ (λ i. ground (
  arith,
  test_bit-or i (Word.or x y) z,
  test_bit-or i x y,
  test_bit-or i x (Word.or y z),
  test_bit-or i y z,
))

xor_assoc : Associative Word.xor
unfolding Word.xor xor
xor_assoc x y z = bits_ext _ _ (λ i. ground (
  arith,
  test_bit-xor i (Word.xor x y) z,
  test_bit-xor i x y,
  test_bit-xor i x (Word.xor y z),
  test_bit-xor i y z,
))

module _ (f : ℕ → ℕ → ℕ) (assoc : Associative f) (comm : Commutative f) where
  constant_last : (x a b : ℕ) → f (f x a) b ≡ f x (f a b)
  constant_last x a b = assoc x a b

  other_last : (x a y : ℕ) → f (f x a) y ≡ f (f x y) a
  other_last x a y = assoc x a y ∙ ap (f x) (comm a y) ∙ sym (assoc x y a)

  constant_first : (x a b : ℕ) → f b (f x a) ≡ f x (f a b)
  constant_first x a b = comm b (f x a) ∙ assoc x a b

  other_first : (x a y : ℕ) → f y (f x a) ≡ f (f y x) a
  other_first x a y = sym (assoc y x a)

  module _ (m : Machine) (op : Instruction)
      (gives : (x y : ℕ) → meaning m op (x ∷ y ∷ []) ≡ f x y) where
    moving-IsSound : Every (IsSound m) (associative_rules (op, f))
    unfolding pattern_value
    moving-IsSound =
        (λ s w h. simp gives (constant_last (s group_x) (s group_a) (s group_b)))
        & (λ s w h. simp gives (other_last (s group_x) (s group_a) (s group_y)))
        & (λ s w h. simp gives (constant_first (s group_x) (s group_a) (s group_b)))
        & (λ s w h. simp gives (other_first (s group_x) (s group_a) (s group_y)))
        & (λ s w h. simp gives (
            ap (λ v. f v (s group_b)) (comm (s group_a) (s group_x))
            ∙ constant_last (s group_x) (s group_a) (s group_b)))
        & (λ s w h. simp gives (
            ap (λ v. f v (s group_y)) (comm (s group_a) (s group_x))
            ∙ other_last (s group_x) (s group_a) (s group_y)))
        & (λ s w h. simp gives (
            ap (f (s group_b)) (comm (s group_a) (s group_x))
            ∙ constant_first (s group_x) (s group_a) (s group_b)))
        & (λ s w h. simp gives (
            ap (f (s group_y)) (comm (s group_a) (s group_x))
            ∙ other_first (s group_x) (s group_a) (s group_y)))
        & done

module _ (m : Machine) where
  pub associative-IsSound : Every (IsSound m) (for_each associative_rules associative_operations)
  unfolding meaning
  associative-IsSound =
      Every-append (moving-IsSound Word.add add_assoc add_comm m Instruction.add (λ x y. refl)) (
        Every-append
          (moving-IsSound Word.mul mul_word_assoc mul_word_comm m Instruction.mul (λ x y. refl))
          (Every-append (moving-IsSound Word.and and_assoc and_comm m Instruction.and (λ x y. refl))
            (Every-append (moving-IsSound Word.or or_assoc or_comm m Instruction.or (λ x y. refl)) (
              Every-append
                (moving-IsSound Word.xor xor_assoc xor_comm m Instruction.xor (λ x y. refl))
                done))))
