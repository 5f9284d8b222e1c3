-- ===== src/Consolidate.antt =====
-- The consolidator's decisions (crates/vault-consolidator/src).
pub mod Stale
pub mod Cold
pub mod Clusters
pub mod Dedup
