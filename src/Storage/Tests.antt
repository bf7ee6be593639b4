-- ===== src/Storage/Tests.antt =====
-- The layout of an address, a number that shares its slot, a member that is not stored, and an array
-- of two slots.
use polynomial.Prelude.{
  ℕ, ◌^◌, ◌<◌, ◌≤◌, ◌+◌, ◌*◌, ◌≡◌, refl, true, false, Option, none, some, List, [], ◌∷◌, arith, All,
  false_ne_true,
}
use polynomial.Storage.{StoredType, offsets, compute_offsets, offset}
use polynomial.Storage.Apart.{compute_offsets-apart}
use polynomial.Storage.Layout.{IsStorable, InOrder, end_of, all_slots, compute_offsets-InOrder}

abbrev value_type : ℕ → StoredType
value_type bytes = record { can_be_stored = true; storage_bytes = bytes; storage_size = 1 }

abbrev two_slots : StoredType
two_slots = record { can_be_stored = true; storage_bytes = 32; storage_size = 2 }

abbrev not_stored : StoredType
not_stored = record { can_be_stored = false; storage_bytes = 0; storage_size = 0 }

abbrev members : List StoredType
members = value_type 20 ∷ value_type 12 ∷ not_stored ∷ value_type 1 ∷ two_slots ∷ value_type 8 ∷ []

value_type-IsStorable : (bytes : ℕ) → bytes ≤ 32 → IsStorable (value_type bytes)
value_type-IsStorable bytes h = record {
  bytes_in_slot = h;
  some_slot = omega arith;
  whole_slots = λ many. omega arith;
}

two_slots-IsStorable : IsStorable two_slots
two_slots-IsStorable = record {
  bytes_in_slot = omega arith;
  some_slot = omega arith;
  whole_slots = λ many. refl;
}

members-IsStorable : All (λ t. t.can_be_stored ≡ true → IsStorable t) members
members-IsStorable = (
  λ e. value_type-IsStorable 20 (omega arith),
  (
    λ e. value_type-IsStorable 12 (omega arith),
    (
      λ e. false_ne_true e,
      (
        λ e. value_type-IsStorable 1 (omega arith),
        (λ e. two_slots-IsStorable, (λ e. value_type-IsStorable 8 (omega arith), tt)),
      ),
    ),
  ),
)

members-fit : all_slots members < 2 ^ 256
unfolding all_slots
members-fit = omega arith

members-there :
    compute_offsets members
    ≡ offsets (some (0, 0) ∷ some (0, 20) ∷ none ∷ some (1, 0) ∷ some (2, 0) ∷ some (4, 0) ∷ []) 5
unfolding compute_offsets
members-there = refl

compute_offsets-InOrder_example :
    (places : List (Option (ℕ × ℕ))) × (size : ℕ) × (compute_offsets members ≡ offsets places size)
    × InOrder size 0 members places
compute_offsets-InOrder_example = compute_offsets-InOrder members members-IsStorable members-fit

abbrev member_places : List (Option (ℕ × ℕ))
member_places = some (0, 0) ∷ some (0, 20) ∷ none ∷ some (1, 0) ∷ some (2, 0) ∷ some (4, 0) ∷ []

first-there : offset member_places 1 ≡ some (0, 20)
unfolding offset
first-there = refl

second-there : offset member_places 4 ≡ some (2, 0)
unfolding offset
second-there = refl

compute_offsets-apart_example : end_of (value_type 12) 0 20 ≤ 32 * 2 + 0
compute_offsets-apart_example =
    compute_offsets-apart members member_places 5 1 4 0 20 2 0 (value_type 12) members-IsStorable
      members-fit members-there (omega arith) refl first-there second-there
