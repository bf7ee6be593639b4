-- ===== src/Assembly.antt =====
-- libsvmasm: assembly items, what the optimiser knows of them, and the optimiser's passes over
-- lists of items.
pub mod Item
pub mod Sizes
pub mod SubTags
pub mod Semantic
pub mod Effects
mod Tests
pub mod Constants
pub mod Jumpdest
pub mod Peephole
