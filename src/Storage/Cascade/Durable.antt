-- ===== src/Storage/Cascade/Durable.antt =====
-- What a successful call leaves durably in the tables.
use agent_memory_vault.Base.{
  ℕ, ◌<◌, ◌≤◌, ◌≡◌, ◌⊎◌, inl, inr, refl, sym, Bool, [], ◌∷◌, ◌++◌, arith, ltb, length, Bool-cases,
  append_nil,
}
use agent_memory_vault.Core.Text.{Text}
use agent_memory_vault.Core.Error.{VaultError, ok, err}
use agent_memory_vault.Core.Memory.{MemoryId, Time}
use agent_memory_vault.Storage.Backoff.{F64}
use agent_memory_vault.Storage.Queue.{CascadeOperation, RetryEntry}
use agent_memory_vault.Storage.PendingSync.{upsert_with_payload}
use agent_memory_vault.Storage.Audit
use agent_memory_vault.Storage.Audit.{Log, AuditEventType, AuditEvent, PendingAuditEvent}
use agent_memory_vault.Storage.Audit.Chain.{Encoding}
use agent_memory_vault.Storage.Cascade.{
  Draws, Tables, overflow_event, enqueue_cascade, max_retry_queue_depth,
}
use agent_memory_vault.Storage.Cascade.Rows.{append-cases, Inserted, tx_insert_retry_queue-cases}

module _ (F : F64) (E : Encoding) (D : Draws) where
  -- Where a change of this memory goes that has the number `s`: to the end of the retry queue while
  -- that is below its cap, and into `pending_sync` otherwise. The other tables stay, except for an
  -- event that may tell of the overflow.
  pub data Cascaded (m : MemoryId) (op : CascadeOperation) (at : Time) (s : ℕ) (payload : Text)
      (t : Tables) : Tables → Type 0 where
    queued :
        (row : RetryEntry)
        → length t.queue < max_retry_queue_depth
        → Inserted F E D m op s payload t.queue row
        → Cascaded m op at s payload t (record t { queue = t.queue ++ (row ∷ []) })
    pended :
        max_retry_queue_depth ≤ length t.queue
        → Cascaded m op at s payload t
            (record t { pending = upsert_with_payload m op at s payload t.pending })
    pended_first :
        (e : AuditEvent)
        → max_retry_queue_depth ≤ length t.queue
        → e.event_type ≡ Audit.cascade_queue_overflow
        → Cascaded m op at s payload t (record t {
          log = t.log ++ (e ∷ []);
          pending = upsert_with_payload m op at s payload t.pending;
        })

  pub enqueue_cascade-cases :
      (m : MemoryId) (op : CascadeOperation) (at : Time) (s : ℕ) (payload : Text) (overflow : Bool)
      (t : Tables)
      → ((why : VaultError) × ((enqueue_cascade F E D m op at s payload overflow t).1 ≡ err why))
        ⊎ ((t' : Tables) × ((enqueue_cascade F E D m op at s payload overflow t).1 ≡ ok (at, t'))
            × Cascaded m op at s payload t t')
  unfolding enqueue_cascade
  enqueue_cascade-cases m op at s payload overflow t =
      let t' : Tables = record t { pending = upsert_with_payload m op at s payload t.pending } in
      elim (Bool-cases (ltb (length t.queue) max_retry_queue_depth)) [
        | inl room ↦ elim (tx_insert_retry_queue-cases F E D 1 m op s payload t.queue) [
          | inl (why, h) ↦ inl (why, rw (room, h) refl)
          | inr (row, h, made, _) ↦ inr (
            record t { queue = t.queue ++ (row ∷ []) },
            rw (room, h) refl,
            queued row (ground arith) made,
          )
        ]
        | inr full ↦ elim (Bool-cases overflow) [
          | inl was ↦ inr (t', rw (full, was) refl, pended (ground arith))
          | inr first ↦ elim (append-cases F E D 1 (overflow_event F E D) t') [
            | inl (why, h) ↦ inl (why, rw (full, first, h) refl)
            | inr (e, h, a) ↦ inr (
              record t' { log = t.log ++ (e ∷ []) },
              rw (full, first, h) refl,
              pended_first e (ground arith) a.kind,
            )
          ]
        ]
      ]

  -- The memories stay, and the log only grows.
  pub Cascaded-frame :
      (m : MemoryId) (op : CascadeOperation) (at : Time) (s : ℕ) (payload : Text) (t t' : Tables)
      → Cascaded m op at s payload t t'
      → (t'.memories ≡ t.memories) × (events : Log) × (t'.log ≡ t.log ++ events)
  Cascaded-frame m op at s payload t t' (queued row room made) = (refl, [], sym (append_nil t.log))
  Cascaded-frame m op at s payload t t' (pended full) = (refl, [], sym (append_nil t.log))
  Cascaded-frame m op at s payload t t' (pended_first e full k) = (refl, e ∷ [], refl)
