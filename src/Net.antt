-- ===== src/Net.antt =====
-- The network helpers.
pub mod Url
