-- ===== src/Storage/Layout.antt =====
-- Variables in storage do not overlap, and the layout has a result.
use mathlib.Core.Path.{subst}
use polynomial.Prelude.{
  ℕ, ◌+◌, ◌*◌, ◌^◌, ◌≤◌, ◌<◌, ◌≡◌, refl, true, false, Option, none, some, List, [], ◌∷◌, ◌==◌, leb,
  if◌then◌else◌, Bool-cases, inl, inr, All, arith,
}
use polynomial.Storage.{
  StoredType, Offsets, offsets, start_slot, start_byte, end_slot, end_byte, closed, offsets_from,
  compute_offsets,
}

-- What the types that are stored say of themselves: they take at least a slot, and those of several
-- slots take whole slots.
pub record IsStorable (t : StoredType) : Type 0 where
  pub bytes_in_slot : t.storage_bytes ≤ 32
  pub some_slot : 1 ≤ t.storage_size
  pub whole_slots : 1 < t.storage_size → t.storage_bytes ≡ 32

-- The first byte behind a variable, counted through all slots.
abbrev pub end_of : StoredType → ℕ → ℕ → ℕ
end_of t slot byte =
    if t.storage_size == 1 then 32 * slot + byte + t.storage_bytes else 32 * (slot + t.storage_size)

-- The places are one behind the other from a byte on: no variable starts before the end of the one
-- before, one of several slots starts a slot, and the others do not leave theirs. The last ends
-- within the size.
abbrev pub InOrder : ℕ → ℕ → List StoredType → List (Option (ℕ × ℕ)) → Type 0
InOrder size low [] [] = low ≤ 32 * size
InOrder size low [] (o ∷ places) = ⊥
InOrder size low (t ∷ types) [] = ⊥
InOrder size low (t ∷ types) (none ∷ places) =
    (t.can_be_stored ≡ false) × InOrder size low types places
InOrder size low (t ∷ types) (some (slot, byte) ∷ places) =
    (t.can_be_stored ≡ true)
    × (low ≤ 32 * slot + byte)
    × (byte + t.storage_bytes ≤ 32)
    × (1 < t.storage_size → byte ≡ 0)
    × InOrder size (end_of t slot byte) types places

-- The number of slots if nothing shared one.
unfoldable pub all_slots : List StoredType → ℕ
all_slots [] = 0
all_slots (t ∷ types) = (if t.can_be_stored then t.storage_size else 0) + all_slots types

-- A layout with a result whose places are in order.
abbrev pub IsLaidOut : ℕ → List StoredType → Offsets → Type 0
IsLaidOut low types o =
    (places : List (Option (ℕ × ℕ))) × (size : ℕ) × (o ≡ offsets places size)
    × InOrder size low types places

-- The slots that are used so far.
abbrev used : ℕ → ℕ → ℕ
used slot byte = slot + (if byte == 0 then 0 else 1)

module _ (slot byte bytes size : ℕ) (few : byte ≤ 32) (in_slot : bytes ≤ 32) where
  -- The type as it is placed.
  abbrev placed_type : StoredType
  placed_type = record { can_be_stored = true; storage_bytes = bytes; storage_size = size }

  begins_after :
      32 * slot + byte ≤ 32 * start_slot slot byte placed_type + start_byte byte placed_type
  begins_after = ground arith

  stays_inside : start_byte byte placed_type + bytes ≤ 32
  stays_inside = ground arith

  starts_slot : bytes ≡ 32 → start_byte byte placed_type ≡ 0
  starts_slot h = ground arith

  start_few : start_byte byte placed_type ≤ 32
  start_few = ground arith

  start_room : start_slot slot byte placed_type ≤ used slot byte
  start_room = ground arith

module _ (slot byte bytes size : ℕ) (inside : byte + bytes ≤ 32) (some_slot : 1 ≤ size) where
  -- A type that starts in this place.
  abbrev placed_here : StoredType
  placed_here = record { can_be_stored = true; storage_bytes = bytes; storage_size = size }

  end_same :
      32 * end_slot slot byte placed_here + end_byte byte placed_here ≡ end_of placed_here slot byte
  end_same = ground arith

  end_few : end_byte byte placed_here ≤ 32
  end_few = ground arith

  end_used : used (end_slot slot byte placed_here) (end_byte byte placed_here) ≤ slot + size
  end_used = ground arith

closed-IsLaidOut :
    (slot byte : ℕ)
    → byte ≤ 32
    → used slot byte < 2 ^ 256
    → IsLaidOut (32 * slot + byte) [] (closed slot byte)
closed-IsLaidOut slot byte few room =
    let size = if byte == 0 then slot else slot + 1 in
    let fits : (leb (2 ^ 256) size ≡ false) = ground arith in ([], size, rw fits refl, ground arith)

offsets_from_skipped :
    (slot byte : ℕ) (t : StoredType) (types : List StoredType) (places : List (Option (ℕ × ℕ)))
    (size : ℕ)
    → t.can_be_stored ≡ false
    → offsets_from slot byte types ≡ offsets places size
    → offsets_from slot byte (t ∷ types) ≡ offsets (none ∷ places) size
unfolding offsets_from
offsets_from_skipped slot byte t types places size skipped e = rw (skipped, e) refl

offsets_from_placed :
    (slot byte : ℕ) (t : StoredType) (types : List StoredType) (places : List (Option (ℕ × ℕ)))
    (size : ℕ)
    → t.can_be_stored ≡ true
    → leb (2 ^ 256) (start_slot slot byte t) ≡ false
    → (t.storage_size == 0) ≡ false
    → offsets_from
        (end_slot (start_slot slot byte t) (start_byte byte t) t)
        (end_byte (start_byte byte t) t)
        types
      ≡ offsets places size
    → offsets_from slot byte (t ∷ types)
      ≡ offsets (some (start_slot slot byte t, start_byte byte t) ∷ places) size
unfolding offsets_from
offsets_from_placed slot byte t types places size there below valid e =
    rw (there, below, valid, e) refl

all_slots_placed :
    (t : StoredType) (types : List StoredType)
    → t.can_be_stored ≡ true
    → all_slots (t ∷ types) ≡ t.storage_size + all_slots types
unfolding all_slots
all_slots_placed t types there = rw there refl

all_slots_skipped :
    (t : StoredType) (types : List StoredType)
    → t.can_be_stored ≡ false
    → all_slots (t ∷ types) ≡ all_slots types
unfolding all_slots
all_slots_skipped t types skipped = rw skipped (omega arith)

below_limit : (n : ℕ) → n < 2 ^ 256 → leb (2 ^ 256) n ≡ false
below_limit n h = ground arith

not_zero : (n : ℕ) → 1 ≤ n → (n == 0) ≡ false
not_zero n h = ground arith

room_placed :
    (start before size rest all end : ℕ)
    → start ≤ before
    → end ≤ start + size
    → all ≡ size + rest
    → before + all < 2 ^ 256
    → end + rest < 2 ^ 256
room_placed start before size rest all end h1 h2 h3 h4 = omega arith

first_below : (start before all : ℕ) → start ≤ before → before + all < 2 ^ 256 → start < 2 ^ 256
first_below start before all h1 h2 = omega arith

offsets_from-IsLaidOut :
    (slot byte : ℕ) (types : List StoredType)
    → byte ≤ 32
    → used slot byte + all_slots types < 2 ^ 256
    → All (λ t. t.can_be_stored ≡ true → IsStorable t) types
    → IsLaidOut (32 * slot + byte) types (offsets_from slot byte types)
unfolding offsets_from all_slots
offsets_from-IsLaidOut slot byte [] few room all = closed-IsLaidOut slot byte few (omega arith)
offsets_from-IsLaidOut slot byte (t ∷ types) few room (fits, all) =
    elim (Bool-cases t.can_be_stored) [
      | inl there ↦
          let storable = fits there in
          let in_slot = storable.bytes_in_slot in
          let some_slot = storable.some_slot in
          let slot' = start_slot slot byte t in
          let byte' = start_byte byte t in
          let inside = stays_inside slot byte t.storage_bytes t.storage_size few in_slot in
          let start = start_room slot byte t.storage_bytes t.storage_size few in_slot in
          let (places, size, e, order) =
            offsets_from-IsLaidOut (end_slot slot' byte' t) (end_byte byte' t) types
              (end_few slot' byte' t.storage_bytes t.storage_size inside some_slot)
              (room_placed slot' (used slot byte) t.storage_size (all_slots types)
                (all_slots (t ∷ types)) (used (end_slot slot' byte' t) (end_byte byte' t)) start
                (end_used slot' byte' t.storage_bytes t.storage_size inside some_slot)
                (all_slots_placed t types there) room)
              all in
          (
            some (slot', byte') ∷ places,
            size,
            offsets_from_placed slot byte t types places size there
                (below_limit slot'
                  (first_below slot' (used slot byte) (all_slots (t ∷ types)) start room))
                (not_zero t.storage_size some_slot) e,
            (
              there,
              begins_after slot byte t.storage_bytes t.storage_size few in_slot,
              inside,
              λ many.
                  starts_slot slot byte t.storage_bytes t.storage_size few in_slot
                    (storable.whole_slots many),
              subst (λ (low : ℕ). InOrder size low types places)
                  (end_same slot' byte' t.storage_bytes t.storage_size inside some_slot) order,
            ),
          )
      | inr skipped ↦
          let (places, size, e, order) =
            offsets_from-IsLaidOut slot byte types few
              (subst (λ (n : ℕ). used slot byte + n < 2 ^ 256) (all_slots_skipped t types skipped)
                room)
              all in
          (
            none ∷ places,
            size,
            offsets_from_skipped slot byte t types places size skipped e,
            (skipped, order),
          )
    ]

-- Where the types that can be stored take at least a slot and at most 32 bytes of a shared one,
-- those of several slots take whole slots, and fewer than 2 ^ 256 slots would be taken if none were
-- shared, the layout has a result: there is no error. Its places are one behind the other, so that
-- no two variables overlap, all end within the size, and exactly the types that cannot be stored
-- have no place.
pub compute_offsets-InOrder :
    (types : List StoredType)
    → All (λ t. t.can_be_stored ≡ true → IsStorable t) types
    → all_slots types < 2 ^ 256
    → (places : List (Option (ℕ × ℕ))) × (size : ℕ) × (compute_offsets types ≡ offsets places size)
      × InOrder size 0 types places
unfolding compute_offsets
compute_offsets-InOrder types all room =
    offsets_from-IsLaidOut 0 0 types (omega arith) (omega arith) all
