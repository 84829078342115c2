-- ===== src/Build.antt =====
-- Modules for the code of build/.
pub mod TileIndexBuilder
pub mod FeatureIndex
pub mod StringStatistics
pub mod Analyzer
pub mod StringCatalog
pub mod NodeCountTable
pub mod SuperRelation
pub mod SuperRelationResolver
