-- ===== src/Tile.antt =====
-- The tile compiler: the elements of a tile, their layout, and the tile's spatial indexes.
pub mod Element
pub mod Queues
pub mod Layout
pub mod HilbertIndex
pub mod KeyIndex
