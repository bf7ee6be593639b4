-- ===== src/Rules/Sound.antt =====
-- Every rule of the list is sound.
pub mod Constants
pub mod Bitwise
pub mod Identities
pub mod Truth
pub mod Moves
pub mod Shifts
pub mod Opposite
pub mod Masks
