-- ===== src/Lib.antt =====
-- Verification of the core of Memory Vault: what happens to a memory between the call that writes it to
-- SQLite and the vector store that has to follow, the tamper-evident log of it, the consolidator's
-- decisions about stale, cold, similar and duplicate memories, the retrieval that answers a query within
-- the boundaries of its caller, the tokens that give a caller its boundaries, and the tool handlers that
-- check them.
--
-- The parts and their files (paths of the Rust code from the repository's root):
--   Base       lists, tables with a key, a stable sort, Boolean tests
--   Core       crates/vault-core: texts, f32, JSON values, `VaultError`, `Boundary`, `Memory`
--   Storage    crates/vault-storage/src
--     Truncate     `truncate_utf8` (retry_queue.rs, dead_letter.rs)
--     Backoff      the retry schedule and `is_permanent` (retry_queue.rs)
--     Queue        the table `retry_queue` (retry_queue.rs)
--     PendingSync  the overflow table (pending_sync.rs)
--     DeadLetter   the operations that were given up (dead_letter.rs)
--     Audit        the audit events and their hash chain (audit.rs, metadata_store.rs)
--     Cascade      the calls of `StorageBackend` and their transactions (cascading.rs)
--     Worker       one step of the retry worker, and its drain at shutdown (retry_worker.rs)
--     Listing      `tx_list_memories` and its filter (metadata_store.rs)
--     Reading      `get_memory`, which records each read (metadata_store.rs)
--     Tokens       the capability tokens of agents (agent_token_store.rs)
--   Consolidate  crates/vault-consolidator/src
--     Stale        `resolve_stale_ids` (consolidator.rs)
--     Cold         the archive and decay plans (phases/archive.rs, phases/decay.rs)
--     Clusters     the candidate clusters and their union-find (phases/cluster.rs)
--     Dedup        the plan for near-identical memories (phases/dedup.rs)
--   Retrieval  crates/vault-retrieval/src
--     Query        queries, results and their validation (retriever.rs)
--     Ranking      the order of results
--     Contract     what every retriever promises, and that each strategy keeps it
--     Keyword, Semantic, Graph, Hybrid, Abstain   the strategies (strategies/*.rs)
--     Reranked     the reranked search (reranked_retriever.rs)
--     Stack        how `memory_search` is put together (crates/vault-app/src/application.rs)
--   App        crates/vault-mcp/src and crates/vault-app/src
--     Normalize    the canonical shape of a memory's text (vault-app/src/normalization.rs)
--     Adapter      `write`, `update`, `delete` and `lookup_boundary` (vault-app/src/adapter.rs)
--     Mcp          the handlers of the tools that write (vault-mcp/src/server.rs)
--   Tests      the theorems at concrete inputs
-- A change of a memory commits its row, an audit event and a cascade row in one transaction; the cascade
-- row goes into the retry queue, or into `pending_sync` while the queue is at its cap. The worker polls
-- the queue, calls the vector store, and reschedules or gives up what fails. A search asks the vector
-- store and the keyword index, reads the rows of what they find, fuses the two rankings and reranks them.
--
-- How the state corresponds: a table is the list of its rows in the order of insertion, an operation is
-- a function on the tables with the method's name, and the result of a call is `Result`, where
-- `panicked` stands for a panic. `with_transaction` gives the old tables back where the body fails; the
-- flag `in_cap_overflow` is outside the transaction, as in the source. Time is a number of nanoseconds
-- from a fixed origin, so that SQLite's comparison of RFC 3339 texts is that of the numbers; a UUID is a
-- number; a string is the list of its bytes; the message of an error is its constant text. An `f32` is
-- its bit pattern. A retriever is a function from a query to a result, over the rows of the moment. What
-- a call draws from the clock and the id generator is an argument, and so are the arithmetic of `f64`
-- (`F64`, with the laws `IsIeee`) and of `f32`, JSON, BLAKE3, the vector store, the models, the index of
-- Tantivy, and the order in which a hash map is walked.
--
-- Bounds: the cap of the retry queue is 10,000 rows, the limit of attempts is 8, `LIMIT` is an `i64`, and
-- `attempts_made` is a saturating `u32`. The recursions are structural but for three loops on fuel: the
-- `find` of the union-find, where the id is enough, since a parent is never above its child; `trim`, where
-- the length is enough; and the drain of the worker, where the rounds that are waited and one for each
-- entry are enough.
--
-- Not modelled: input and output errors of SQLite other than the violation of a constraint, the decoding
-- of malformed rows of memories, the exhaustion of AUTOINCREMENT, logging, LanceDB, DuckDB and Tantivy,
-- encryption, opening a vault, the worker's loop around its step, the consolidator's other phases, the
-- graph store and the structured read pipeline, the daemon and the transport of MCP, the command line and
-- the desktop application.
pub mod Base
pub mod Core
pub mod Storage
pub mod Consolidate
pub mod Retrieval
pub mod App
pub mod Tests
