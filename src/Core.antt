-- ===== src/Core.antt =====
-- The domain types that every other part uses (crates/vault-core).
pub mod Text
pub mod Trim
pub mod Float
pub mod Json
pub mod Error
pub mod Boundary
pub mod Memory
