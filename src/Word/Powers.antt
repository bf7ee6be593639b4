-- ===== src/Word/Powers.antt =====
-- Products and powers modulo a number, and what `exp256` computes.
use native.Mathlib.Nat.{
  mul_comm, mul_assoc, div-add-mod, add-mul-mod_self_left, pow-succ', mod-eq_of_lt, mul-one,
  two-pow-succ,
}
use native.Mathlib.Numerals.{unary_clauses}
use polynomial.Prelude.{
  ℕ, zero, suc, ◌+◌, ◌*◌, ◌/◌, ◌%◌, ◌^◌, ◌<◌, ◌≡◌, refl, sym, ap, ◌∙◌, arith, ◌==◌, Bool-cases, inl,
  inr,
}
use polynomial.Word
use polynomial.Word.{IsWord, modulus, exp_loop}

-- A factor may be reduced first.
pub mul-mod : (a b k : ℕ) → a % k * b % k ≡ a * b % k
mul-mod a b k =
    let whole : (a * b ≡ a % k * b + k * (a / k * b)) = grind (arith, div-add-mod a k) in
    sym (ap (λ (n : ℕ). n % k) whole ∙ add-mul-mod_self_left (a % k * b) k (a / k * b))

pub mul-mod_left : (a b k : ℕ) → a * (b % k) % k ≡ a * b % k
mul-mod_left a b k =
    ap (λ (n : ℕ). n % k) (omega (arith, mul_comm a (b % k)))
    ∙ mul-mod b a k
    ∙ ap (λ (n : ℕ). n % k) (mul_comm b a)

mul-pow_mod : (r b k n : ℕ) → r * (b % n) ^ k % n ≡ r * b ^ k % n
mul-pow_mod r b zero n = simp unary_clauses refl
mul-pow_mod r b (suc k) n =
    let low : (r * (b % n) ^ suc k ≡ r * (b % n) * (b % n) ^ k) =
      grind (arith, pow-succ' (b % n) k) in
    let turned : (r * (b % n) * b ^ k ≡ r * b ^ k * (b % n)) = grind arith in
    let whole : (r * b ^ k * b ≡ r * b ^ suc k) = grind (arith, pow-succ' b k) in
    ap (λ (t : ℕ). t % n) low
    ∙ mul-pow_mod (r * (b % n)) b k n
    ∙ ap (λ (t : ℕ). t % n) turned
    ∙ mul-mod_left (r * b ^ k) b n
    ∙ ap (λ (t : ℕ). t % n) whole

pow-square : (b k : ℕ) → (b * b) ^ k ≡ b ^ (k + k)
pow-square b zero = simp unary_clauses refl
pow-square b (suc k) =
    let more : (suc k + suc k ≡ suc (suc (k + k))) = omega arith in
    pow-succ' (b * b) k
    ∙ ap (λ (t : ℕ). b * b * t) (pow-square b k)
    ∙ mul_assoc b b (b ^ (k + k))
    ∙ ap (λ (t : ℕ). b * t) (sym (pow-succ' b (k + k)))
    ∙ sym (pow-succ' b (suc (k + k)))
    ∙ ap (λ (t : ℕ). b ^ t) (sym more)

-- The square of the base, reduced, to half the exponent.
half_power : (r b h : ℕ) → r * (b * b % modulus) ^ h % modulus ≡ r * b ^ (h + h) % modulus
half_power r b h =
    mul-pow_mod r (b * b) h modulus ∙ ap (λ (t : ℕ). r * t % modulus) (pow-square b h)

-- The rounds on a factor: the result so far times what is left of the power.
exp_loop-eq : (f r b e : ℕ) → IsWord r → e < 2 ^ f → exp_loop f r b e ≡ r * b ^ e % modulus
unfolding exp_loop
exp_loop-eq zero r b e hr h =
    let finished : (e ≡ 0) = omega arith in
    let one : (r * b ^ 0 ≡ r) = simp unary_clauses (mul-one r) in
    sym (
      ap (λ (t : ℕ). r * b ^ t % modulus) finished
      ∙ ap (λ (t : ℕ). t % modulus) one
      ∙ mod-eq_of_lt hr)
exp_loop-eq (suc f) r b e hr h = elim (Bool-cases (e == 0)) [
  | inl finished ↦
      let nothing : (e ≡ 0) = ground arith in
      let one : (r * b ^ 0 ≡ r) = simp unary_clauses (mul-one r) in
      rw finished (
        sym (
          ap (λ (t : ℕ). r * b ^ t % modulus) nothing
          ∙ ap (λ (t : ℕ). t % modulus) one
          ∙ mod-eq_of_lt hr))
  | inr more ↦ elim (Bool-cases (e % 2 == 1)) [
    | inl odd ↦
        let half = e / 2 in
        let whole : (suc (half + half) ≡ e) = ground arith in
        let front : (r * b * b ^ (half + half) ≡ r * b ^ suc (half + half)) =
          grind (arith, pow-succ' b (half + half)) in
        rw (more, odd)
          (exp_loop-eq f (r * b % modulus) (b * b % modulus) half (omega arith)
              (omega (arith, two-pow-succ f))
            ∙ mul-mod (r * b) ((b * b % modulus) ^ half) modulus
            ∙ half_power (r * b) b half
            ∙ ap (λ (t : ℕ). t % modulus) front
            ∙ ap (λ (t : ℕ). r * b ^ t % modulus) whole)
    | inr even ↦
        let half = e / 2 in
        let whole : (half + half ≡ e) = ground arith in
        rw (more, even)
          (exp_loop-eq f r (b * b % modulus) half hr (omega (arith, two-pow-succ f))
            ∙ half_power r b half
            ∙ ap (λ (t : ℕ). r * b ^ t % modulus) whole)
  ]
]

-- For an exponent that is a word, the instruction EXP computes the power modulo 2 ^ 256: the rounds
-- of the loop are enough.
pub exp-eq-pow : (b e : ℕ) → IsWord e → Word.exp b e ≡ b ^ e % 2 ^ 256
unfolding Word.exp
exp-eq-pow b e h = exp_loop-eq 256 1 b e (omega arith) h ∙ ap (λ (t : ℕ). t % modulus) (omega arith)
