-- ===== src/Assembly/Peephole/Loop.antt =====
-- The loop of `optimise`: it ends, with the output of its rounds in order.
use mathlib.Core.List.{append_assoc, append-nil}
use polynomial.Prelude.{
  ℕ, zero, suc, ◌<◌, ◌≤◌, ◌≡◌, refl, sym, ap, ◌∙◌, Option, none, some, [], ◌∷◌, ◌++◌, length,
  length-append, arith,
}
use polynomial.Assembly.Item.{AssemblyItem, AssemblyItems}
use polynomial.Assembly.Peephole.{
  Rewrite, or_else, apply_methods, optimise_loop, optimised_items, push_pop, op_pop, double_push,
  double_swap, commutative_swap, swap_comparison, is_zero_is_zero_jump_i, jump_to_next,
  unreachable_code, tag_conjunctions, truthy_and, identity, window2, window3, window4,
}
use polynomial.Assembly.Peephole.Machine.{Chain}
use polynomial.Assembly.Peephole.Moves.{
  Move, keeps, same, test_twice, to_next, to_next_if, cut, apply_methods-Move,
}

-- What the rounds make of a list of items.
pub data Optimised : AssemblyItems → AssemblyItems → Type 0 where
  end : Optimised [] []
  round :
      {item : AssemblyItem} {rest out whole : AssemblyItems} (r : Rewrite)
      → apply_methods (item ∷ rest) ≡ some r
      → Optimised r.left out
      → whole ≡ r.emitted ++ out
      → Optimised (item ∷ rest) whole

-- Some method applies to any item: the last one, Identity.
or_else-some :
    (a b : Option Rewrite) → (r : Rewrite) × (b ≡ some r) → (r : Rewrite) × (or_else a b ≡ some r)
or_else-some none b h = h
or_else-some (some a) b h = (a, refl)

apply_methods-some :
    (item : AssemblyItem) (rest : AssemblyItems)
    → (r : Rewrite) × (apply_methods (item ∷ rest) ≡ some r)
unfolding apply_methods identity
apply_methods-some item rest =
    let items = item ∷ rest in
    or_else-some (window2 push_pop items) _ (
      or_else-some (window2 op_pop items) _ (
        or_else-some (window2 double_push items) _ (
          or_else-some (window2 double_swap items) _ (
            or_else-some (window2 commutative_swap items) _ (
              or_else-some (window2 swap_comparison items) _ (
                or_else-some (window4 is_zero_is_zero_jump_i items) _ (
                  or_else-some (window3 jump_to_next items) _ (
                    or_else-some (unreachable_code items) _ (
                      or_else-some (window3 tag_conjunctions items) _ (
                        or_else-some (window3 truthy_and items) _
                          (record { emitted = item ∷ []; left = rest }, refl)))))))))))

module _ (c : Chain) where
  -- A round leaves fewer items than it found.
  Move-shorter :
      (items emitted left : AssemblyItems) → Move c items emitted left → length left < length items
  Move-shorter items emitted left (keeps x window e k) =
      omega (arith, ap length e, length-append window left)
  Move-shorter items emitted left (same x e f) = omega (arith, ap length e)
  Move-shorter items emitted left (test_twice a b p j t e f) = omega (arith, ap length e)
  Move-shorter items emitted left (to_next a b d t e f) = omega (arith, ap length e)
  Move-shorter items emitted left (to_next_if a b d p t e f) = omega (arith, ap length e)
  Move-shorter items emitted left (cut i a skipped g e n f) =
      omega (arith, ap length e, length-append skipped left)

  -- As many rounds as there are items are enough.
  loop_ends :
      (fuel : ℕ) (items out : AssemblyItems)
      → length items ≤ fuel
      → (new : AssemblyItems) × (optimise_loop fuel items out ≡ some (out ++ new))
        × Optimised items new
  unfolding optimise_loop
  loop_ends fuel [] out h = ([], ap some (sym (append-nil out)), end)
  loop_ends zero (item ∷ rest) out h = absurd (omega arith)
  loop_ends (suc fuel) (item ∷ rest) out h =
      let (r, e) = apply_methods-some item rest in
      let shorter =
        Move-shorter (item ∷ rest) r.emitted r.left (apply_methods-Move c (item ∷ rest) r e) in
      let (new, f, o) = loop_ends fuel r.left (out ++ r.emitted) (omega arith) in
      (
        r.emitted ++ new,
        rw (e, optimise_loop) (f ∙ ap some (append_assoc out r.emitted new)),
        round r e o refl,
      )

  -- The optimiser always has a result, and it is what the rounds make of the items.
  pub optimised_items-Optimised :
      (items : AssemblyItems)
      → (new : AssemblyItems) × (optimised_items items ≡ some new) × Optimised items new
  unfolding optimised_items
  optimised_items-Optimised items = loop_ends (length items) items [] (omega arith)
