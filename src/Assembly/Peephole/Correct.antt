-- ===== src/Assembly/Peephole/Correct.antt =====
-- The optimised program comes to the outcome of the program.
use polynomial.Prelude.{
  if◌then◌else◌, inl, ℕ, refl, ℕ, ◌≡◌, ◌≢◌, ap, ◌∙◌, sym, refl, Option, none, some, [], Bool, true,
  false, ◌||◌, ◌⊎◌, inl, inr, length, ltb, ◌==◌, arith, Bool-cases, some_inj, none_ne_some, All,
}
use polynomial.Word.{IsWord}
use polynomial.Assembly.Item.{AssemblyItems, items_bytes}
use polynomial.Assembly.Peephole.{
  accept, number_of_pops, optimised_items, optimise, choose, fewer_bytes,
}
use polynomial.Assembly.Peephole.Machine.{Chain, Memory, run, Outcome, fault}
use polynomial.Assembly.Peephole.Keeps.{HasWord}
use polynomial.Assembly.Peephole.Loop.{optimised_items-Optimised}
use polynomial.Assembly.Peephole.Tags.{DistinctTags}
use polynomial.Assembly.Peephole.Simulation.{simulated}

-- For a program whose tags stand at different addresses and whose constants are words, and a stack of
-- words, and each outcome of the items that is no fault, the rounds of the optimiser have a result, and
-- the result comes to that outcome, with the same last instruction, stack and world.
pub run-optimised_items :
    (c : Chain) (items : AssemblyItems) (n : ℕ) (m : Memory c) (o : Outcome c)
    → DistinctTags c.address items
    → All HasWord items
    → All IsWord m.0
    → o ≢ fault
    → run c items n items m ≡ some o
    → (new : AssemblyItems) × (k : ℕ) × (optimised_items items ≡ some new)
      × (run c new k new m ≡ some o)
run-optimised_items c items n m o distinct words wd fine h =
    let (new, e, made) = optimised_items-Optimised c items in
    let (k, reached) =
      simulated c items new made distinct words o fine n n items new m (omega arith) made ([], refl)
        wd h in
    (new, k, e, reached)

-- The result of a choice is one of the two lists.
picked :
    (new items result : AssemblyItems) (t changed : Bool)
    → ◌≡◌ {A = Option (AssemblyItems × Bool)}
        (some (if t then (new, true) else (items, false)))
        (some (result, changed))
    → ((result ≡ new) × (changed ≡ true)) ⊎ ((result ≡ items) × (changed ≡ false))
picked new items result true changed h = inl (
  sym (ap (λ (p : AssemblyItems × Bool). p.0) (some_inj h)),
  sym (ap (λ (p : AssemblyItems × Bool). p.1) (some_inj h)),
)
picked new items result false changed h = inr (
  sym (ap (λ (p : AssemblyItems × Bool). p.0) (some_inj h)),
  sym (ap (λ (p : AssemblyItems × Bool). p.1) (some_inj h)),
)

accept-picked :
    (new items result : AssemblyItems) (changed : Bool) (better : Option Bool)
    → accept new items better ≡ some (result, changed)
    → ((result ≡ new) × (changed ≡ true)) ⊎ ((result ≡ items) × (changed ≡ false))
accept-picked new items result changed none h = none_ne_some h
accept-picked new items result changed (some better) h =
    picked new items result (better || ltb (number_of_pops items) (number_of_pops new)) changed h

choose-picked :
    (new items result : AssemblyItems) (changed : Bool)
    → choose items (some new) ≡ some (result, changed)
    → ((result ≡ new) × (changed ≡ true)) ⊎ ((result ≡ items) × (changed ≡ false))
choose-picked new items result changed h = elim (Bool-cases (ltb (length new) (length items))) [
  | inl t ↦ picked new items result true changed (sym (rw t) ∙ h)
  | inr f ↦ elim (Bool-cases (length new == length items)) [
    | inl t ↦
        accept-picked new items result changed
          (fewer_bytes (items_bytes new 3) (items_bytes items 3)) (sym (rw (f, t)) ∙ h)
    | inr g ↦ picked new items result false changed (sym (rw (f, g)) ∙ h)
  ]
]

-- For a program whose tags stand at different addresses and whose constants are words, and a stack of
-- words, what `optimise` returns, whether it replaced the items or not, comes to every outcome of the
-- items that is no fault.
pub run-optimise :
    (c : Chain) (items result : AssemblyItems) (changed : Bool) (n : ℕ) (m : Memory c)
    (o : Outcome c)
    → optimise items ≡ some (result, changed)
    → DistinctTags c.address items
    → All HasWord items
    → All IsWord m.0
    → o ≢ fault
    → run c items n items m ≡ some o
    → (k : ℕ) × (run c result k result m ≡ some o)
unfolding optimise
run-optimise c items result changed n m o h distinct words wd fine r =
    let (new, k, e, reached) = run-optimised_items c items n m o distinct words wd fine r in
    elim (choose-picked new items result changed (sym (ap (choose items) e) ∙ h)) [
      | inl p ↦ (k, rw p.0 reached)
      | inr p ↦ (n, rw p.0 r)
    ]
