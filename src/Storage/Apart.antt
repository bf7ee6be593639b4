-- ===== src/Storage/Apart.antt =====
-- The offsets of two members of a layout.
use mathlib.Core.Path.{subst}
use polynomial.Prelude.{
  ◌^◌, ◌∙◌, sym, ℕ, zero, suc, ◌+◌, ◌*◌, ◌≤◌, ◌<◌, ◌≡◌, true, Option, none, some, List, [], ◌∷◌,
  All, get_elem?, some_inj, none_ne_some, arith, ap,
}
use polynomial.Storage.{StoredType, offset, offsets, compute_offsets}
use polynomial.Storage.Layout.{IsStorable, InOrder, end_of, all_slots, compute_offsets-InOrder}

end_of-above :
    (t : StoredType) (slot byte : ℕ)
    → byte + t.storage_bytes ≤ 32
    → 1 ≤ t.storage_size
    → 32 * slot + byte ≤ end_of t slot byte
end_of-above t slot byte inside some_slot = ground arith

-- The place that is read first, and that of a later index.
same_place :
    (s b s' b' : ℕ) → ◌≡◌ {A = Option (ℕ × ℕ)} (some (s, b)) (some (s', b')) → (s ≡ s') × (b ≡ b')
same_place s b s' b' h =
    let e = some_inj h in (ap (λ (p : ℕ × ℕ). p.0) e, ap (λ (p : ℕ × ℕ). p.1) e)

offset-above :
    (size low : ℕ) (types : List StoredType) (places : List (Option (ℕ × ℕ))) (j s b : ℕ)
    → All (λ t. t.can_be_stored ≡ true → IsStorable t) types
    → InOrder size low types places
    → offset places j ≡ some (s, b)
    → low ≤ 32 * s + b
unfolding offset
offset-above size low [] [] j s b all order h = none_ne_some h
offset-above size low [] (o ∷ places) j s b all order h = elim order [ ]
offset-above size low (t ∷ types) [] j s b all order h = elim order [ ]
offset-above size low (t ∷ types) (none ∷ places) zero s b all order h = none_ne_some h
offset-above size low (t ∷ types) (none ∷ places) (suc j) s b all order h =
    offset-above size low types places j s b all.1 order.1 h
offset-above size low (t ∷ types) (some (slot, byte) ∷ places) zero s b all order h =
    let same = same_place slot byte s b h in let first = order.1 in omega arith
offset-above size low (t ∷ types) (some (slot, byte) ∷ places) (suc j) s b all order h =
    let storable = all.0 order.0 in
    let past = end_of-above t slot byte order.2 storable.some_slot in
    let rest = offset-above size (end_of t slot byte) types places j s b all.1 order.4 h in
    let first = order.1 in omega arith

offset-apart :
    (size low : ℕ) (types : List StoredType) (places : List (Option (ℕ × ℕ))) (i j s b s' b' : ℕ)
    (t : StoredType)
    → All (λ u. u.can_be_stored ≡ true → IsStorable u) types
    → InOrder size low types places
    → i < j
    → get_elem? types i ≡ some t
    → offset places i ≡ some (s, b)
    → offset places j ≡ some (s', b')
    → end_of t s b ≤ 32 * s' + b'
unfolding offset
offset-apart size low [] places i j s b s' b' t all order before member first second =
    none_ne_some member
offset-apart size low (u ∷ types) [] i j s b s' b' t all order before member first second =
    elim order [ ]
offset-apart size low (u ∷ types) (o ∷ places) i zero s b s' b' t all order before member first
      second =
    let no : ⊥ = omega arith in elim no [ ]
offset-apart size low (u ∷ types) (none ∷ places) zero (suc j) s b s' b' t all order before member
      first second =
    none_ne_some first
offset-apart size low (u ∷ types) (none ∷ places) (suc i) (suc j) s b s' b' t all order before
      member first second =
    offset-apart size low types places i j s b s' b' t all.1 order.1 (omega arith) member first
      second
offset-apart size low (u ∷ types) (some (slot, byte) ∷ places) zero (suc j) s b s' b' t all order
      before member first second =
    let (slots, bytes) = same_place slot byte s b first in
    let above = offset-above size (end_of u slot byte) types places j s' b' all.1 order.4 second in
    rw (sym (some_inj member), sym slots, sym bytes) above
offset-apart size low (u ∷ types) (some (slot, byte) ∷ places) (suc i) (suc j) s b s' b' t all order
      before member first second =
    offset-apart size (end_of u slot byte) types places i j s b s' b' t all.1 order.4 (omega arith)
      member first second

offsets_inj :
    (places places' : List (Option (ℕ × ℕ))) (size size' : ℕ)
    → offsets places size ≡ offsets places' size'
    → places ≡ places'
offsets_inj places places' size size' h = cc

-- In the layout that `computeOffsets` gives to types that can be stored and do not take 2 ^ 256 slots,
-- a member that stands behind another in the list starts behind its end in storage: the two share
-- no byte.
pub compute_offsets-apart :
    (types : List StoredType) (places : List (Option (ℕ × ℕ))) (size i j s b s' b' : ℕ)
    (t : StoredType)
    → All (λ u. u.can_be_stored ≡ true → IsStorable u) types
    → all_slots types < 2 ^ 256
    → compute_offsets types ≡ offsets places size
    → i < j
    → get_elem? types i ≡ some t
    → offset places i ≡ some (s, b)
    → offset places j ≡ some (s', b')
    → end_of t s b ≤ 32 * s' + b'
compute_offsets-apart types places size i j s b s' b' t all room made before member first second =
    let (places', size', e, order) = compute_offsets-InOrder types all room in
    let same = offsets_inj places' places size' size (sym e ∙ made) in
    offset-apart size' 0 types places i j s b s' b' t all
      (subst (λ (p : List (Option (ℕ × ℕ))). InOrder size' 0 types p) same order) before member
      first second
