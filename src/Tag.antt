-- ===== src/Tag.antt =====
-- Modules for the code of tag/.
pub mod AreaClassifier
pub mod TagTableModel
