-- ===== src/Storage.antt =====
-- The places of variables in storage, `StorageOffsets` of libpolynomial/ast/Types.h and
-- libpolynomial/ast/Types.cpp.
pub mod Layout
pub mod Apart
mod Tests
use polynomial.Prelude.{
  ℕ, zero, suc, ◌+◌, ◌%◌, ◌^◌, Bool, true, false, Option, none, some, List, [], ◌∷◌, ◌==◌, ltb, leb,
  if◌then◌else◌, get_elem?,
}

-- What the layout asks of a type: whether it can be stored, and its size in bytes and in slots.
pub record StoredType : Type 0 where
  pub can_be_stored : Bool
  pub storage_bytes : ℕ
  pub storage_size : ℕ

-- The offset of each type in slots and bytes, `none` where the type is not stored. `too_large` is the
-- TypeError, and `invalid_size` the failing assertion.
pub data Offsets : Type 0 where
  too_large : Offsets
  invalid_size : Offsets
  offsets : List (Option (ℕ × ℕ)) → ℕ → Offsets

-- The slot and the byte at which a type starts: in the next slot if it does not fit.
abbrev pub overflows : ℕ → StoredType → Bool
overflows byte t = ltb 32 ((byte + t.storage_bytes) % 2 ^ 32)

abbrev pub start_slot : ℕ → ℕ → StoredType → ℕ
start_slot slot byte t = if overflows byte t then slot + 1 else slot

abbrev pub start_byte : ℕ → StoredType → ℕ
start_byte byte t = if overflows byte t then 0 else byte

-- Whether the next type may share the slot.
abbrev pub shares : ℕ → StoredType → Bool
shares byte t = if t.storage_size == 1 then leb ((byte + t.storage_bytes) % 2 ^ 32) 32 else false

abbrev pub end_slot : ℕ → ℕ → StoredType → ℕ
end_slot slot byte t = if shares byte t then slot else slot + t.storage_size

abbrev pub end_byte : ℕ → StoredType → ℕ
end_byte byte t = if shares byte t then (byte + t.storage_bytes) % 2 ^ 32 else 0

abbrev pub placed : Option (ℕ × ℕ) → Offsets → Offsets
placed o too_large = too_large
placed o invalid_size = invalid_size
placed o (offsets rest size) = offsets (o ∷ rest) size

-- The end of `computeOffsets`.
abbrev pub closed : ℕ → ℕ → Offsets
closed slot byte =
    let size = if byte == 0 then slot else slot + 1 in
    if leb (2 ^ 256) size then too_large else offsets [] size

-- The loop of `computeOffsets`.
unfoldable pub offsets_from : ℕ → ℕ → List StoredType → Offsets
offsets_from slot byte [] = closed slot byte
offsets_from slot byte (t ∷ types) =
    let skipped = placed none (offsets_from slot byte types) in
    let first_slot = start_slot slot byte t in
    let first_byte = start_byte byte t in
    let rest = offsets_from (end_slot first_slot first_byte t) (end_byte first_byte t) types in
    if t.can_be_stored
    then (if leb (2 ^ 256) first_slot
        then too_large
        else if t.storage_size == 0
        then invalid_size
        else placed (some (first_slot, first_byte)) rest)
    else skipped

unfoldable pub compute_offsets : List StoredType → Offsets
unfolding offsets_from
compute_offsets types = offsets_from 0 0 types

-- `StorageOffsets::offset`: the offset of a member, if it is stored.
abbrev pub stored : Option (Option (ℕ × ℕ)) → Option (ℕ × ℕ)
stored none = none
stored (some o) = o

unfoldable pub offset : List (Option (ℕ × ℕ)) → ℕ → Option (ℕ × ℕ)
offset places index = stored (get_elem? places index)
