-- ===== src/Storage/Cascade/Invariant.antt =====
-- What holds of the backend's tables between two calls, and that every call keeps it.
pub mod Calls
pub mod Draining
pub mod MetadataOnly
use agent_memory_vault.Base.{
  ℕ, suc, ◌+◌, ◌<◌, ◌≤◌, ◌≡◌, ◌≢◌, ◌⊎◌, inl, inr, refl, sym, ap, ◌∙◌, subst, Bool, true, false,
  Option, none, some, List, [], ◌∷◌, ◌++◌, arith, ltb, leb, ◌==◌, if◌then◌else◌, length, any, All,
  All-map, Bool-cases, Option-cases, ltb→lt,
}
use agent_memory_vault.Base.Table
use agent_memory_vault.Base.Table.{IsKeyed}
use agent_memory_vault.Base.Table.Rows.{
  All-snoc, All-delete, length-snoc, snoc-IsKeyed, select-none, All-update,
}
use agent_memory_vault.Core.Text.{Text, codes}
use agent_memory_vault.Core.Float.{F32}
use agent_memory_vault.Core.Error.{VaultError, Result, ok, err, panicked, ◌>>=◌}
use agent_memory_vault.Core.Memory.{Memory, MemoryId, Time}
use agent_memory_vault.Storage.Backoff.{F64}
use agent_memory_vault.Storage.Queue
use agent_memory_vault.Storage.Queue.{CascadeOperation, RetryEntry}
use agent_memory_vault.Storage.Queue.Invariant as Queued
use agent_memory_vault.Storage.PendingSync.{
  PendingSyncEntry, Pending, memory_of, upsert_row, upsert_with_payload,
}
use agent_memory_vault.Storage.PendingSync.Latest.{upsert_row-IsKeyed, upsert_with_payload-All}
use agent_memory_vault.Storage.Audit.{Log, AuditEvent, PendingAuditEvent}
use agent_memory_vault.Storage.Audit.Chain.{Encoding, verify_chain}
use agent_memory_vault.Storage.Cascade.{
  Ack, Codec, Draws, Tables, Vault, Outcome, ◌>=>◌, commit, with_transaction, memory_key, as_row,
  tx_insert_memory, tx_get_memory, tx_update_memory, append, overflow_event, enqueue_cascade,
  tx_insert_retry_queue, max_retry_queue_depth,
}
use agent_memory_vault.Storage.Cascade.Rows.{
  next_seq, Appended, append-cases, Inserted, tx_insert_retry_queue-cases,
}

-- The keys are keys, the audit chain verifies, the queue is within its cap, and every cascade row
-- has the number of an event of the log.
pub record IsValid (E : Encoding) (t : Tables) : Type 0 where
  pub memories_keyed : IsKeyed memory_key t.memories
  pub chain : verify_chain E t.log ≡ ok tt
  pub queue_ok : Queued.IsValid t.queue
  pub bounded : length t.queue ≤ max_retry_queue_depth
  pub queue_numbered : All (λ e. e.sequence_id < next_seq t.log) t.queue
  pub pending_keyed : IsKeyed memory_of t.pending
  pub pending_numbered : All (λ e. e.sequence_id < next_seq t.log) t.pending

-- What holds of the tables that the body of a transaction leaves, where it does not fail.
abbrev pub Leaves {ℓ} : {A : Type ℓ} → (Tables → Type 0) → Result (A × Tables) → Type 0
Leaves P (ok r) = P r.1
Leaves P (err _) = Unit
Leaves P panicked = ⊥

module _ (F : F64) (E : Encoding) (D : Draws) where
  commit-IsValid :
      (id : MemoryId) (v : Vault) (overflow : Bool) (r : Result (Time × Tables))
      → Leaves (IsValid E) r
      → IsValid E v.tables
      → IsValid E (commit id v overflow r).1.tables × ((commit id v overflow r).0 ≢ panicked)
  unfolding commit
  commit-IsValid id v overflow (ok r) h i = (h, λ e. cc)
  commit-IsValid id v overflow (err _) h i = (i, λ e. cc)
  commit-IsValid id v overflow panicked h i = absurd h

  -- A call whose body keeps the tables valid keeps them valid, whether it commits or rolls back.
  pub with_transaction-IsValid :
      (body : Bool → Tables → Outcome Time) (id : MemoryId) (v : Vault)
      → ((overflow : Bool) (t : Tables) → IsValid E t → Leaves (IsValid E) (body overflow t).1)
      → IsValid E v.tables
      → IsValid E (with_transaction body id v).1.tables
        × ((with_transaction body id v).0 ≢ panicked)
  unfolding with_transaction
  with_transaction-IsValid body id v keeps i =
      commit-IsValid id v _ _ (keeps v.in_cap_overflow v.tables i) i

  pub appended-IsValid :
      (p : PendingAuditEvent) (t : Tables) (e : AuditEvent)
      → Appended F E D p t e
      → IsValid E t
      → IsValid E (record t { log = t.log ++ (e ∷ []) })
  appended-IsValid p t e a i = record {
    memories_keyed = i.memories_keyed;
    chain = a.verifies i.chain;
    queue_ok = i.queue_ok;
    bounded = i.bounded;
    queue_numbered =
        All-map (λ x. x.sequence_id < next_seq t.log) _ t.queue (λ x h. omega (arith, a.next))
          i.queue_numbered;
    pending_keyed = i.pending_keyed;
    pending_numbered =
        All-map (λ x. x.sequence_id < next_seq t.log) _ t.pending (λ x h. omega (arith, a.next))
          i.pending_numbered;
  }

  pub append-IsValid :
      (draw : ℕ) (p : PendingAuditEvent) (t : Tables)
      → IsValid E t
      → Leaves (IsValid E) (append F E D draw p t)
  append-IsValid draw p t i = elim (append-cases F E D draw p t) [
    | inl (why, h) ↦ subst (Leaves (IsValid E)) (sym h) tt
    | inr (e, h, a) ↦ subst (Leaves (IsValid E)) (sym h) (appended-IsValid p t e a i)
  ]

  -- A row at the end of the queue, where there is room, with the number of an event.
  pub inserted-IsValid :
      (t : Tables) {m : MemoryId} {op : CascadeOperation} {s : ℕ} {payload : Text}
      (row : RetryEntry)
      → Inserted F E D m op s payload t.queue row
      → (Queued.IsValid t.queue → Queued.IsValid (t.queue ++ (row ∷ [])))
      → s < next_seq t.log
      → length t.queue < max_retry_queue_depth
      → IsValid E t
      → IsValid E (record t { queue = t.queue ++ (row ∷ []) })
  inserted-IsValid t {m} {op} {s} {payload} row made keeps n room i = record {
    memories_keyed = i.memories_keyed;
    chain = i.chain;
    queue_ok = keeps i.queue_ok;
    bounded = omega (arith, length-snoc t.queue row);
    queue_numbered =
        All-snoc (λ x. x.sequence_id < next_seq t.log) t.queue row i.queue_numbered
          (omega (arith, made.sequence));
    pending_keyed = i.pending_keyed;
    pending_numbered = i.pending_numbered;
  }

  pended-IsValid :
      (t : Tables) (m : MemoryId) (op : CascadeOperation) (at : Time) (s : ℕ) (payload : Text)
      → s < next_seq t.log
      → IsValid E t
      → IsValid E (record t { pending = upsert_with_payload m op at s payload t.pending })
  unfolding upsert_with_payload
  pended-IsValid t m op at s payload n i = record {
    memories_keyed = i.memories_keyed;
    chain = i.chain;
    queue_ok = i.queue_ok;
    bounded = i.bounded;
    queue_numbered = i.queue_numbered;
    pending_keyed = upsert_row-IsKeyed _ _ (λ e. refl) t.pending i.pending_keyed;
    pending_numbered =
        upsert_with_payload-All (λ k. k < next_seq t.log) m op at s payload t.pending n
          i.pending_numbered;
  }

  enqueue_room :
      (m : MemoryId) (op : CascadeOperation) (at : Time) (s : ℕ) (payload : Text) (overflow : Bool)
      (t : Tables)
      → ltb (length t.queue) max_retry_queue_depth ≡ true
      → s < next_seq t.log
      → IsValid E t
      → Leaves (IsValid E) (enqueue_cascade F E D m op at s payload overflow t).1
  unfolding enqueue_cascade
  enqueue_room m op at s payload overflow t room n i =
      elim (tx_insert_retry_queue-cases F E D 1 m op s payload t.queue) [
        | inl (why, h) ↦ rw (room, h) tt
        | inr (row, h, made, keeps) ↦
            rw (room, h) (inserted-IsValid t row made keeps n (ltb→lt _ _ room) i)
      ]

  pub enqueue_cascade-IsValid :
      (m : MemoryId) (op : CascadeOperation) (at : Time) (s : ℕ) (payload : Text) (overflow : Bool)
      (t : Tables)
      → s < next_seq t.log
      → IsValid E t
      → Leaves (IsValid E) (enqueue_cascade F E D m op at s payload overflow t).1
  unfolding enqueue_cascade
  enqueue_cascade-IsValid m op at s payload overflow t n i =
      let t' : Tables = record t { pending = upsert_with_payload m op at s payload t.pending } in
      let i' : IsValid E t' = pended-IsValid t m op at s payload n i in
      elim (Bool-cases (ltb (length t.queue) max_retry_queue_depth)) [
        | inl room ↦ enqueue_room m op at s payload overflow t room n i
        | inr full ↦ elim (Bool-cases overflow) [
          | inl was ↦ rw (full, was) i'
          | inr first ↦ elim (append-cases F E D 1 (overflow_event F E D) t') [
            | inl (why, h) ↦ rw (full, first, h) tt
            | inr (e, h, a) ↦ rw (full, first, h) (appended-IsValid _ t' e a i')
          ]
        ]
      ]
