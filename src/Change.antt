-- ===== src/Change.antt =====
-- The change model of the updater: references to features and tag tables.
pub mod CRef
pub mod TagTable
