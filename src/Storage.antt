-- ===== src/Storage.antt =====
-- The storage layer (crates/vault-storage): the retry queue and its schedule, the dead letters, the
-- overflow table, the audit chain, the cascading writes over them, and the retry worker.
pub mod Truncate
pub mod Backoff
pub mod Queue
pub mod PendingSync
pub mod DeadLetter
pub mod Audit
pub mod Cascade
pub mod Worker
pub mod Listing
pub mod Reading
pub mod Tokens
