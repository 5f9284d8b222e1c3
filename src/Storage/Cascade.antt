-- ===== src/Storage/Cascade.antt =====
-- The state of the storage backend (crates/vault-storage/src/cascading.rs), its transactions, and
-- the statements that they share. What is outside SQLite is a parameter: the clock and the ids that a
-- call draws (`Draws`), and the JSON and number printing (`Codec`, `Encoding`).
pub mod Write
pub mod Metadata
pub mod Drain
pub mod Rows
pub mod Invariant
pub mod Durable
pub mod Atomic
pub mod Kept
use agent_memory_vault.Base.{
  ℕ, Bool, true, false, Option, none, some, List, [], ◌∷◌, ◌++◌, ltb, leb, ◌==◌, if◌then◌else◌,
  length, any,
}
use agent_memory_vault.Base.Table
use agent_memory_vault.Core.Text.{Text, codes}
use agent_memory_vault.Core.Float.{F32}
use agent_memory_vault.Core.Error.{VaultError, Result, ok, err, panicked, ◌>>=◌, storage}
use agent_memory_vault.Core.Memory.{Memory, MemoryId, Time}
use agent_memory_vault.Storage.Backoff.{F64, compute_next_attempt}
use agent_memory_vault.Storage.Queue.{
  CascadeOperation, Queue, NewRetry, RetryEntry, insert_row, new_entry,
}
use agent_memory_vault.Storage.PendingSync.{Pending, upsert_with_payload}
use agent_memory_vault.Storage.Audit.{
  Log, AuditEvent, PendingAuditEvent, successful, failed, with_details_json, cascade_queue_overflow,
  system,
}
use agent_memory_vault.Storage.Audit.Chain.{Encoding, tx_append_audit}

abbrev pub max_retry_queue_depth : ℕ
max_retry_queue_depth = 10_000

pub record Ack : Type 0 where
  pub memory_id : MemoryId
  pub sqlite_committed_at : Time

pub record CascadePayload : Type 0 where
  pub embedding : List F32
  pub boundary : Text

-- `serde_json` on the payload, and what the details of an audit event are printed with.
pub record Codec : Type 0 where
  pub encode : CascadePayload → Text
  pub decode : Text → Option CascadePayload
  pub json_string : Text → Text
  pub f32_text : F32 → Text
  pub u32_text : ℕ → Text

-- The n-th id and the n-th time that a call draws.
pub record Draws : Type 0 where
  pub uuid : ℕ → ℕ
  pub clock : ℕ → Time

pub record Tables : Type 0 where
  pub memories : List Memory
  pub log : Log
  pub queue : Queue
  pub pending : Pending

-- The tables, and the flag `in_cap_overflow`, which no rollback undoes.
pub record Vault : Type 0 where
  pub tables : Tables
  pub in_cap_overflow : Bool

-- What the body of a transaction gives: the flag as it left it, and its result with the tables.
abbrev pub Outcome {ℓ} : Type ℓ → Type ℓ
Outcome A = Bool × Result (A × Tables)

-- The `?` of the source in the body of a transaction.
infixl 5 ◌>=>◌
abbrev pub ◌>=>◌ {ℓ} : {A : Type 0} {B : Type ℓ} → Bool × Result A → (A → Outcome B) → Outcome B
(overflow, ok a) >=> f = f a
(overflow, err e) >=> f = (overflow, err e)
(overflow, panicked) >=> f = (overflow, panicked)

-- The end of `with_transaction`: the commit, or the rollback to the old tables.
unfoldable pub commit : MemoryId → Vault → Bool → Result (Time × Tables) → Result Ack × Vault
commit id v overflow (ok r) = (
  ok (record { memory_id = id; sqlite_committed_at = r.0 }),
  record { tables = r.1; in_cap_overflow = overflow },
)
commit id v overflow (err e) = (err e, record v { in_cap_overflow = overflow })
commit id v overflow panicked = (panicked, record v { in_cap_overflow = overflow })

unfoldable pub with_transaction :
    (Bool → Tables → Outcome Time) → MemoryId → Vault → Result Ack × Vault
unfolding commit
with_transaction body id v = let o = body v.in_cap_overflow v.tables in commit id v o.0 o.1

abbrev pub memory_key : Memory → MemoryId
memory_key m = m.id

-- The columns of a memory: the embedding is not among them.
abbrev pub as_row : Memory → Memory
as_row m = record m { embedding = none }

unfoldable pub tx_insert_memory : Memory → List Memory → Result (List Memory)
tx_insert_memory m ms =
    if any (λ r. r.id == m.id) ms
    then err (storage (codes "insert memory"))
    else ok (ms ++ (as_row m ∷ []))

unfoldable pub tx_get_memory : MemoryId → List Memory → Option Memory
tx_get_memory id ms = Table.select memory_key id ms

-- `UPDATE memories SET … WHERE id = ?1`, and whether it found a row.
unfoldable pub tx_update_memory : Memory → List Memory → Bool × List Memory
tx_update_memory m ms =
    (any (λ r. r.id == m.id) ms, Table.update memory_key m.id (λ _. as_row m) ms)

module _ (F : F64) (E : Encoding) (D : Draws) where
  -- `now` is drawn first, then the id; the jitter is 0.
  unfoldable pub tx_insert_retry_queue :
      ℕ → MemoryId → CascadeOperation → ℕ → Text → Queue → Result Queue
  unfolding insert_row
  tx_insert_retry_queue draw memory_id operation sequence_id payload q =
      let now = D.clock draw in
      let new : NewRetry = record {
        memory_id = memory_id;
        operation = operation;
        sequence_id = sequence_id;
        payload = payload;
      } in
      elim (compute_next_attempt F 0 now (F.of_nat 0)) [
        | none ↦ panicked
        | some next_at ↦ insert_row (new_entry (D.uuid draw) new now next_at) q
      ]

  -- `tx_append_audit` on the tables, with the draws of this number.
  abbrev pub append : ℕ → PendingAuditEvent → Tables → Result (AuditEvent × Tables)
  append draw p t = tx_append_audit E (D.uuid draw) (D.clock draw) p t.log >>= λ r.
      ok (r.0, record t { log = r.1 })

  abbrev pub overflow_event : PendingAuditEvent
  overflow_event =
      with_details_json (codes "{\"cap\":10000,\"action\":\"pending_sync_fallback\"}")
        (failed (successful cascade_queue_overflow system))

  -- The cascade row of a change: into the retry queue while that is below its cap, else into
  -- `pending_sync`, with an audit event where the vault was not in overflow before.
  unfoldable pub enqueue_cascade :
      MemoryId → CascadeOperation → Time → ℕ → Text → Bool → Tables → Outcome Time
  enqueue_cascade memory_id op committed_at audit_seq payload overflow t =
      if ltb (length t.queue) max_retry_queue_depth
      then (overflow, tx_insert_retry_queue 1 memory_id op audit_seq payload t.queue)
        >=> (λ q. (false, ok (committed_at, record t { queue = q })))
      else let t' : Tables = record t {
        pending = upsert_with_payload memory_id op committed_at audit_seq payload t.pending;
      } in
        if overflow
        then (true, ok (committed_at, t'))
        else (true, append 1 overflow_event t') >=> λ r. (true, ok (committed_at, r.1))
