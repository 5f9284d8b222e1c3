-- ===== src/App.antt =====
-- What an agent's tool call passes through on its way to storage (crates/vault-mcp and
-- crates/vault-app).
pub mod Normalize
pub mod Adapter
pub mod Mcp
