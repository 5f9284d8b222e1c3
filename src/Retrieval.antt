-- ===== src/Retrieval.antt =====
-- The retrieval strategies (crates/vault-retrieval/src).
pub mod Query
pub mod Ranking
pub mod Contract
pub mod Graph
pub mod Keyword
pub mod Semantic
pub mod Hybrid
pub mod Abstain
pub mod Reranked
pub mod Stack
