-- ===== src/Rules/Sound/Constants.antt =====
-- The rules of parts 1 and 8.
use polynomial.Prelude.{
  ltb, leb, ◌==◌, if◌then◌else◌, ◌+◌, ◌*◌, ◌/◌, ◌%◌, ◌^◌, refl, ℕ, ◌≡◌, arith, Every, done, ◌&◌,
}
use polynomial.Word
use polynomial.Word.{IsWord, evaluate}
use polynomial.Word.Signed.{u2s, s2u, quot, rem, ltb_ℤ}
use polynomial.Word.Powers.{exp-eq-pow}
use polynomial.Rules.Part1.{
  simplification_rule_list_part1, div_workaround, mod_workaround, shl_workaround, byte_value,
  sign_extended,
}
use polynomial.Rules.{group_a, group_b, group_c, group_x, group_y}
use polynomial.Rules.Part7.{simplification_rule_list_part8}
use polynomial.Rules.Meaning.{
  Machine, IsSound, pattern_value, IsChecked, ◌▸◌, shadowed, checked_end,
}

sub-eq-add : (x a : ℕ) → IsWord x → IsWord a → Word.sub x a ≡ Word.add x (Word.sub 0 a)
unfolding Word.sub Word.add
sub-eq-add x a hx ha = omega arith

sub_after_add :
    (x y a : ℕ)
    → IsWord x
    → IsWord y
    → IsWord a
    → Word.sub (Word.add x a) y ≡ Word.add (Word.sub x y) a
unfolding Word.sub Word.add
sub_after_add x y a hx hy ha = omega arith

sub_after_add_left :
    (x y a : ℕ)
    → IsWord x
    → IsWord y
    → IsWord a
    → Word.sub (Word.add a x) y ≡ Word.add (Word.sub x y) a
unfolding Word.sub Word.add
sub_after_add_left x y a hx hy ha = omega arith

sub-add :
    (x y a : ℕ)
    → IsWord x
    → IsWord y
    → IsWord a
    → Word.sub x (Word.add y a) ≡ Word.add (Word.sub x y) (Word.sub 0 a)
unfolding Word.sub Word.add
sub-add x y a hx hy ha = omega arith

sub-add_left :
    (x y a : ℕ)
    → IsWord x
    → IsWord y
    → IsWord a
    → Word.sub x (Word.add a y) ≡ Word.add (Word.sub x y) (Word.sub 0 a)
unfolding Word.sub Word.add
sub-add_left x y a hx hy ha = omega arith

-- What the actions of part 1 compute.
div_lem : (m n : ℕ) → Word.div m n ≡ (if n == 0 then 0 else div_workaround m n)
unfolding Word.div
div_lem m n = refl

sdiv_lem : (m n : ℕ) → Word.sdiv m n ≡ (if n == 0 then 0 else s2u (quot (u2s m) (u2s n)))
unfolding Word.sdiv
sdiv_lem m n = refl

mod_lem : (m n : ℕ) → Word.mod_op m n ≡ (if n == 0 then 0 else mod_workaround m n)
unfolding Word.mod_op
mod_lem m n = refl

smod_lem : (m n : ℕ) → Word.smod m n ≡ (if n == 0 then 0 else s2u (rem (u2s m) (u2s n)))
unfolding Word.smod
smod_lem m n = refl

lt_lem : (m n : ℕ) → Word.lt m n ≡ (if ltb m n then 1 else 0)
unfolding Word.lt
lt_lem m n = refl

gt_lem : (m n : ℕ) → Word.gt m n ≡ (if ltb n m then 1 else 0)
unfolding Word.gt
gt_lem m n = refl

slt_lem : (m n : ℕ) → Word.slt m n ≡ (if ltb_ℤ (u2s m) (u2s n) then 1 else 0)
unfolding Word.slt
slt_lem m n = refl

sgt_lem : (m n : ℕ) → Word.sgt m n ≡ (if ltb_ℤ (u2s n) (u2s m) then 1 else 0)
unfolding Word.sgt
sgt_lem m n = refl

eq_lem : (m n : ℕ) → Word.eq m n ≡ (if m == n then 1 else 0)
unfolding Word.eq
eq_lem m n = refl

iszero_lem : (m : ℕ) → Word.iszero m ≡ (if m == 0 then 1 else 0)
unfolding Word.iszero
iszero_lem m = refl

byte_lem : (m n : ℕ) → Word.byte m n ≡ (byte_value m n)
unfolding Word.byte
byte_lem m n = refl

addmod_lem : (m n k : ℕ) → Word.addmod m n k ≡ (if k == 0 then 0 else (m + n) % k)
unfolding Word.addmod
addmod_lem m n k = refl

mulmod_lem : (m n k : ℕ) → Word.mulmod m n k ≡ (if k == 0 then 0 else m * n % k)
unfolding Word.mulmod
mulmod_lem m n k = refl

signextend_lem :
    (m n : ℕ) → Word.signextend m n ≡ (if leb 31 m then n else sign_extended (m * 8 + 7) n)
unfolding Word.signextend
signextend_lem m n = refl

shl_lem : (m n : ℕ) → Word.shl m n ≡ (if ltb 255 m then 0 else shl_workaround n m)
unfolding Word.shl
shl_lem m n = refl

shr_lem : (m n : ℕ) → Word.shr m n ≡ (if ltb 255 m then 0 else n / 2 ^ m)
unfolding Word.shr
shr_lem m n = refl

module _ (m : Machine) where
  pub part8-IsSound : Every (IsSound m) simplification_rule_list_part8
  unfolding pattern_value
  part8-IsSound =
      (λ s w h. sub-eq-add (s group_x) (s group_a) (w group_x) (w group_a))
      & (λ s w h.
          sub_after_add (s group_x) (s group_y) (s group_a) (w group_x) (w group_y) (w group_a))
      & (λ s w h.
          sub_after_add_left (s group_x) (s group_y) (s group_a) (w group_x) (w group_y)
            (w group_a))
      & (λ s w h. sub-add (s group_x) (s group_y) (s group_a) (w group_x) (w group_y) (w group_a))
      & (λ s w h.
          sub-add_left (s group_x) (s group_y) (s group_a) (w group_x) (w group_y) (w group_a))
      & done

  pub part1-IsChecked : IsChecked m simplification_rule_list_part1
  unfolding pattern_value
  part1-IsChecked =
      (λ s w h. refl)
      ▸ (λ s w h. refl)
      ▸ (λ s w h. refl)
      ▸ (λ s w h. div_lem (s group_a) (s group_b))
      ▸ (λ s w h. sdiv_lem (s group_a) (s group_b))
      ▸ (λ s w h. mod_lem (s group_a) (s group_b))
      ▸ (λ s w h. smod_lem (s group_a) (s group_b))
      ▸ (λ s w h. exp-eq-pow (s group_a) (s group_b) (w group_b))
      ▸ (λ s w h. refl)
      ▸ (λ s w h. lt_lem (s group_a) (s group_b))
      ▸ (λ s w h. gt_lem (s group_a) (s group_b))
      ▸ (λ s w h. slt_lem (s group_a) (s group_b))
      ▸ (λ s w h. sgt_lem (s group_a) (s group_b))
      ▸ (λ s w h. eq_lem (s group_a) (s group_b))
      ▸ (λ s w h. iszero_lem (s group_a))
      ▸ (λ s w h. refl)
      ▸ (λ s w h. refl)
      ▸ (λ s w h. refl)
      ▸ (λ s w h. byte_lem (s group_a) (s group_b))
      ▸ (λ s w h. addmod_lem (s group_a) (s group_b) (s group_c))
      ▸ shadowed (λ s w h. mulmod_lem (s group_a) (s group_b) (s group_c)) refl (λ d. refl)
          ((λ s w h. signextend_lem (s group_a) (s group_b))
            ▸ (λ s w h. shl_lem (s group_a) (s group_b))
            ▸ (λ s w h. shr_lem (s group_a) (s group_b))
            ▸ checked_end)
