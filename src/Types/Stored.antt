-- ===== src/Types/Stored.antt =====
-- Variables of elementary types in storage.
use polynomial.Prelude.{
  ℕ, ◌^◌, ◌≤◌, ◌<◌, ◌≡◌, refl, true, Option, List, [], ◌∷◌, map, length, All, arith,
}
use polynomial.Storage.{offsets, compute_offsets}
use polynomial.Storage.Layout.{IsStorable, InOrder, all_slots, compute_offsets-InOrder}
use polynomial.Types.{
  ElementaryType, address, integer, fixed_point, bool, fixed_bytes, IsValid, storage_bytes,
  stored_type,
}

storage_bytes-bound : (t : ElementaryType) → IsValid t → storage_bytes t ≤ 32
storage_bytes-bound (address m) v = omega arith
storage_bytes-bound (integer bits signed) v = let few = v.1 in omega arith
storage_bytes-bound (fixed_point bits digits signed) v = let few = v.1 in omega arith
storage_bytes-bound bool v = omega arith
storage_bytes-bound (fixed_bytes bytes) v = v.1

stored_type-IsStorable : (t : ElementaryType) → IsValid t → IsStorable (stored_type t)
stored_type-IsStorable t v = record {
  bytes_in_slot = storage_bytes-bound t v;
  some_slot = omega arith;
  whole_slots = λ many. omega arith;
}

All-IsStorable :
    (types : List ElementaryType)
    → All IsValid types
    → All (λ t. t.can_be_stored ≡ true → IsStorable t) (map stored_type types)
All-IsStorable [] v = tt
All-IsStorable (t ∷ types) v = (λ there. stored_type-IsStorable t v.0, All-IsStorable types v.1)

all_slots-stored_type :
    (types : List ElementaryType) → all_slots (map stored_type types) ≡ length types
unfolding all_slots
all_slots-stored_type [] = refl
all_slots-stored_type (t ∷ types) = let rest = all_slots-stored_type types in omega arith

-- Fewer than 2 ^ 256 variables of elementary types that hold what their constructors assert always
-- have places in storage, one behind the other and each within its slot.
pub elementary-InOrder :
    (types : List ElementaryType)
    → All IsValid types
    → length types < 2 ^ 256
    → (places : List (Option (ℕ × ℕ))) × (size : ℕ) × (compute_offsets (map stored_type types)
        ≡ offsets places size)
      × InOrder size 0 (map stored_type types) places
elementary-InOrder types v few =
    let slots = all_slots-stored_type types in
    compute_offsets-InOrder (map stored_type types) (All-IsStorable types v) (omega arith)
