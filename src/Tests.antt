-- ===== src/Tests.antt =====
-- The theorems at concrete inputs.
mod App
mod Float64
mod Queues
mod Samples
mod Vaults
mod Consolidation
mod Clustering
mod Retrieval
mod Access
