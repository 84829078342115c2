-- ===== src/Tes.antt =====
-- The tile exchange format: what the updater and the tile writer emit, and what the reader takes in.
pub mod Tags
pub mod Wire
pub mod Access
pub mod Index
