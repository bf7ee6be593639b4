-- ===== src/Rules/Sound/Bitwise.antt =====
-- The rules of parts 3 and 4, digit by digit.
use mathlib.Core.Bool.{xor}
use native.Mathlib.Nat.{mod_self}
use polynomial.Prelude.{ℕ, ◌≡◌, arith, Every, done, ◌&◌, false, ltb, ap, ◌∙◌}
use polynomial.Word
use polynomial.Word.{IsWord, truth, max_word}
use polynomial.Word.Bits.{test_bit-zero}
use polynomial.Word.Places.{
  word_ext, test_bit-and_word, test_bit-or_word, test_bit-xor_word, test_bit-not_word, and-IsWord,
  or-IsWord, xor-IsWord, not-IsWord, test_bit-max_word,
}
use polynomial.Word.Laws.{and_comm, or_comm, xor_comm}
use polynomial.Word.Signed.{u2s, ltb_ℤ, ℤ, pos, negsuc}
use polynomial.Rules.{group_x, group_y}
use polynomial.Rules.Part3.{simplification_rule_list_part3}
use polynomial.Rules.Part4.{simplification_rule_list_part4}
use polynomial.Rules.Meaning.{Machine, IsSound, pattern_value}

module _ (x : ℕ) (hx : IsWord x) where
  and_self : Word.and x x ≡ x
  and_self = word_ext _ _ (and-IsWord x x hx) hx (λ i h. ground (arith, test_bit-and_word i x x))

  or_self : Word.or x x ≡ x
  or_self = word_ext _ _ (or-IsWord x x hx hx) hx (λ i h. ground (arith, test_bit-or_word i x x))

  not-not : Word.not (Word.not x) ≡ x
  unfolding Word.not
  not-not = omega arith

  and-not : Word.and x (Word.not x) ≡ 0
  and-not = word_ext _ _ (and-IsWord x (Word.not x) hx) (omega arith) (λ i h.
      ground
        (arith, test_bit-and_word i x (Word.not x), test_bit-not_word i x hx h, test_bit-zero i))

  or-not : Word.or x (Word.not x) ≡ Word.not 0
  unfolding Word.not
  or-not = word_ext _ _ (or-IsWord x (Word.not x) hx (not-IsWord x)) (omega arith) (λ i h.
      ground (
        arith,
        test_bit-or_word i x (Word.not x),
        test_bit-not_word i x hx h,
        test_bit-max_word i h,
      ))

  pub xor_self : Word.xor x x ≡ 0
  unfolding xor
  xor_self =
      word_ext _ _ (xor-IsWord x x hx hx) (omega arith)
        (λ i h. ground (arith, test_bit-xor_word i x x, test_bit-zero i))

  module _ (y : ℕ) (hy : IsWord y) where
    pub xor-xor : Word.xor x (Word.xor x y) ≡ y
    unfolding xor
    xor-xor =
        word_ext _ _ (xor-IsWord x (Word.xor x y) hx (xor-IsWord x y hx hy)) hy
          (λ i h. ground (arith, test_bit-xor_word i x (Word.xor x y), test_bit-xor_word i x y))

    or-and : Word.or x (Word.and x y) ≡ x
    or-and =
        word_ext _ _ (or-IsWord x (Word.and x y) hx (and-IsWord x y hx)) hx
          (λ i h. ground (arith, test_bit-or_word i x (Word.and x y), test_bit-and_word i x y))

    and-or : Word.and x (Word.or x y) ≡ x
    and-or =
        word_ext _ _ (and-IsWord x (Word.or x y) hx) hx
          (λ i h. ground (arith, test_bit-and_word i x (Word.or x y), test_bit-or_word i x y))

ltb_self : (x : ℕ) → ltb x x ≡ false
ltb_self x = ground arith

lt_self : (x : ℕ) → Word.lt x x ≡ 0
unfolding Word.lt
lt_self x = ground arith

ltb_ℤ_self : (z : ℤ) → ltb_ℤ z z ≡ false
unfolding ltb_ℤ
ltb_ℤ_self (pos n) = ltb_self n
ltb_ℤ_self (negsuc n) = ltb_self n

slt_self : (x : ℕ) → Word.slt x x ≡ 0
unfolding Word.slt
slt_self x = ap truth (ltb_ℤ_self (u2s x))

gt_self : (x : ℕ) → Word.gt x x ≡ 0
unfolding Word.gt
gt_self x = ground arith

sgt_self : (x : ℕ) → Word.sgt x x ≡ 0
unfolding Word.sgt
sgt_self x = ap truth (ltb_ℤ_self (u2s x))

sub_self : (x : ℕ) → IsWord x → Word.sub x x ≡ 0
unfolding Word.sub
sub_self x h = omega arith

eq_self : (x : ℕ) → Word.eq x x ≡ 1
unfolding Word.eq
eq_self x = ground arith

remainder_self : (x : ℕ) → Word.mod_op x x ≡ 0
unfolding Word.mod_op
remainder_self x = ground (arith, mod_self x)

module _ (m : Machine) where
  pub part3-IsSound : Every (IsSound m) simplification_rule_list_part3
  unfolding pattern_value
  part3-IsSound =
      (λ s w h. and_self (s group_x) (w group_x))
      & (λ s w h. or_self (s group_x) (w group_x))
      & (λ s w h. xor_self (s group_x) (w group_x))
      & (λ s w h. sub_self (s group_x) (w group_x))
      & (λ s w h. eq_self (s group_x))
      & (λ s w h. lt_self (s group_x))
      & (λ s w h. slt_self (s group_x))
      & (λ s w h. gt_self (s group_x))
      & (λ s w h. sgt_self (s group_x))
      & (λ s w h. remainder_self (s group_x))
      & done

  -- The four forms of a rule whose two operations commute.
  abbrev Absorbs : (ℕ → ℕ → ℕ) → (ℕ → ℕ → ℕ) → (ℕ → ℕ → ℕ) → Type 0
  Absorbs f g left = (x y : ℕ) → IsWord x → IsWord y → f x (g x y) ≡ left x y

  swapped_inner :
      (f g r : ℕ → ℕ → ℕ)
      → ((x y : ℕ) → g x y ≡ g y x)
      → Absorbs f g r
      → (x y : ℕ) → IsWord x
      → IsWord y
      → f x (g y x) ≡ r x y
  swapped_inner f g r g_comm law x y hx hy = ap (f x) (g_comm y x) ∙ law x y hx hy

  swapped_outer :
      (f g r : ℕ → ℕ → ℕ)
      → ((x y : ℕ) → f x y ≡ f y x)
      → Absorbs f g r
      → (x y : ℕ) → IsWord x
      → IsWord y
      → f (g x y) x ≡ r x y
  swapped_outer f g r f_comm law x y hx hy = f_comm (g x y) x ∙ law x y hx hy

  swapped_both :
      (f g r : ℕ → ℕ → ℕ)
      → ((x y : ℕ) → f x y ≡ f y x)
      → ((x y : ℕ) → g x y ≡ g y x)
      → Absorbs f g r
      → (x y : ℕ) → IsWord x
      → IsWord y
      → f (g y x) x ≡ r x y
  swapped_both f g r f_comm g_comm law x y hx hy =
      f_comm (g y x) x ∙ swapped_inner f g r g_comm law x y hx hy

  abbrev first : ℕ → ℕ → ℕ
  first x y = x

  abbrev second : ℕ → ℕ → ℕ
  second x y = y

  xors : Absorbs Word.xor Word.xor second
  xors x y hx hy = xor-xor x hx y hy

  ors : Absorbs Word.or Word.and first
  ors x y hx hy = or-and x hx y hy

  ands : Absorbs Word.and Word.or first
  ands x y hx hy = and-or x hx y hy

  pub part4-IsSound : Every (IsSound m) simplification_rule_list_part4
  unfolding pattern_value
  part4-IsSound =
      (λ s w h. not-not (s group_x) (w group_x))
      & (λ s w h. xors (s group_x) (s group_y) (w group_x) (w group_y))
      & (λ s w h.
          swapped_inner Word.xor Word.xor second xor_comm xors (s group_x) (s group_y) (w group_x)
            (w group_y))
      & (λ s w h.
          swapped_outer Word.xor Word.xor second xor_comm xors (s group_x) (s group_y) (w group_x)
            (w group_y))
      & (λ s w h.
          swapped_both Word.xor Word.xor second xor_comm xor_comm xors (s group_x) (s group_y)
            (w group_x) (w group_y))
      & (λ s w h. ors (s group_x) (s group_y) (w group_x) (w group_y))
      & (λ s w h.
          swapped_inner Word.or Word.and first and_comm ors (s group_x) (s group_y) (w group_x)
            (w group_y))
      & (λ s w h.
          swapped_outer Word.or Word.and first or_comm ors (s group_x) (s group_y) (w group_x)
            (w group_y))
      & (λ s w h.
          swapped_both Word.or Word.and first or_comm and_comm ors (s group_x) (s group_y)
            (w group_x) (w group_y))
      & (λ s w h. ands (s group_x) (s group_y) (w group_x) (w group_y))
      & (λ s w h.
          swapped_inner Word.and Word.or first or_comm ands (s group_x) (s group_y) (w group_x)
            (w group_y))
      & (λ s w h.
          swapped_outer Word.and Word.or first and_comm ands (s group_x) (s group_y) (w group_x)
            (w group_y))
      & (λ s w h.
          swapped_both Word.and Word.or first and_comm or_comm ands (s group_x) (s group_y)
            (w group_x) (w group_y))
      & (λ s w h. and-not (s group_x) (w group_x))
      & (λ s w h. and_comm (Word.not (s group_x)) (s group_x) ∙ and-not (s group_x) (w group_x))
      & (λ s w h. or-not (s group_x) (w group_x))
      & (λ s w h. or_comm (Word.not (s group_x)) (s group_x) ∙ or-not (s group_x) (w group_x))
      & done
