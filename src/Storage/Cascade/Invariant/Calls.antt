-- ===== src/Storage/Cascade/Invariant/Calls.antt =====
-- The calls of the storage backend keep its tables valid.
use agent_memory_vault.Base.{
  ℕ, ◌≢◌, inl, inr, refl, Bool, not, Option, none, some, List, [], arith, ◌==◌, length, Bool-cases,
}
use agent_memory_vault.Base.Table
use agent_memory_vault.Base.Table.{IsKeyed}
use agent_memory_vault.Base.Table.Rows.{snoc-IsKeyed, select-none, update_const-IsKeyed}
use agent_memory_vault.Core.Text.{Text}
use agent_memory_vault.Core.Float.{F32}
use agent_memory_vault.Core.Error.{Result, ok, err, panicked, then-safe, Result-cases}
use agent_memory_vault.Core.Memory
use agent_memory_vault.Core.Memory.{Memory, MemoryId, Time}
use agent_memory_vault.Storage.Backoff.{F64}
use agent_memory_vault.Storage.Queue
use agent_memory_vault.Storage.Queue.{CascadeOperation}
use agent_memory_vault.Storage.Audit.{AuditEventType, PendingAuditEvent}
use agent_memory_vault.Storage.Audit.Chain.{Encoding}
use agent_memory_vault.Storage.Cascade.{
  Ack, Codec, Draws, Tables, Vault, ◌>=>◌, memory_key, as_row, tx_get_memory, tx_update_memory,
  append, enqueue_cascade,
}
use agent_memory_vault.Storage.Cascade.Write.{
  eager_validate, write_row, change_event, write_body, cascading_write, write_memory, update_memory,
  delete_event, delete_rest, delete_body, delete_memory,
}
use agent_memory_vault.Storage.Cascade.Rows.{append-cases, tx_insert_memory-cases}
use agent_memory_vault.Storage.Cascade.Invariant.{
  IsValid, Leaves, with_transaction-IsValid, appended-IsValid, enqueue_cascade-IsValid,
}

module _ (E : Encoding) where
  with_memories :
      (t : Tables) (ms : List Memory)
      → IsKeyed memory_key ms
      → IsValid E t
      → IsValid E (record t { memories = ms })
  with_memories t ms k i = record {
    memories_keyed = k;
    chain = i.chain;
    queue_ok = i.queue_ok;
    bounded = i.bounded;
    queue_numbered = i.queue_numbered;
    pending_keyed = i.pending_keyed;
    pending_numbered = i.pending_numbered;
  }

  pub updated-IsValid :
      (t : Tables) (m : Memory)
      → IsValid E t
      → IsValid E (record t { memories = (tx_update_memory m t.memories).1 })
  unfolding tx_update_memory
  updated-IsValid t m i =
      with_memories t _ (update_const-IsKeyed memory_key (as_row m) t.memories i.memories_keyed) i

  write_row-IsValid :
      (op : CascadeOperation) (m : Memory) (t : Tables)
      → op ≢ Queue.delete
      → IsValid E t
      → Leaves (IsValid E) (write_row op m t)
  unfolding write_row
  write_row-IsValid Queue.write m t n i = elim (tx_insert_memory-cases m t.memories) [
    | inl (why, h) ↦ rw (h, write_row) tt
    | inr (h, new) ↦
        rw (h, write_row)
          (with_memories t _
            (snoc-IsKeyed memory_key t.memories (as_row m) i.memories_keyed
              (select-none memory_key m.id t.memories new))
            i)
  ]
  write_row-IsValid Queue.update m t n i = elim (Bool-cases (tx_update_memory m t.memories).0) [
    | inl there ↦ rw (there, write_row) (updated-IsValid t m i)
    | inr gone ↦ rw (gone, write_row) tt
  ]
  write_row-IsValid Queue.delete m t n i = absurd (n refl)

module _ (F : F64) (E : Encoding) (K : Codec) (D : Draws) where
  -- The rest of a body after its audit event: the cascade row takes the number of that event.
  event_then_cascade :
      (p : PendingAuditEvent) (m : MemoryId) (op : CascadeOperation) (payload : Text)
      (overflow : Bool) (t : Tables)
      → IsValid E t
      → Leaves
          (IsValid E)
          ((overflow, append F E D 0 p t) >=> λ a.
            enqueue_cascade F E D m op a.0.timestamp a.0.seq payload overflow a.1).1
  event_then_cascade p m op payload overflow t i = elim (append-cases F E D 0 p t) [
    | inl (why, h) ↦ rw h tt
    | inr (e, h, a) ↦ rw h (
        enqueue_cascade-IsValid F E D m op e.timestamp e.seq payload overflow _
          (omega (arith, a.numbered, a.next)) (appended-IsValid F E D p t e a i))
  ]

  after_row :
      (op : CascadeOperation) (m : Memory) (payload : Text) (overflow : Bool)
      (w : Result (AuditEventType × Tables))
      → Leaves (IsValid E) w
      → Leaves
          (IsValid E)
          ((overflow, w) >=> λ r.
            (overflow, append F E D 0 (change_event F E K D r.0 m) r.1) >=> λ a.
            enqueue_cascade F E D m.id op a.0.timestamp a.0.seq payload overflow a.1).1
  after_row op m payload overflow (ok r) i =
      event_then_cascade (change_event F E K D r.0 m) m.id op payload overflow r.1 i
  after_row op m payload overflow (err e) i = tt
  after_row op m payload overflow panicked i = i

  pub write_body-IsValid :
      (op : CascadeOperation) (m : Memory) (payload : Text) (overflow : Bool) (t : Tables)
      → op ≢ Queue.delete
      → IsValid E t
      → Leaves (IsValid E) (write_body F E K D op m payload overflow t).1
  unfolding write_body
  write_body-IsValid op m payload overflow t n i =
      after_row op m payload overflow (write_row op m t) (write_row-IsValid E op m t n i)

  after_delete :
      (existing : Option Memory) (id : MemoryId) (overflow : Bool) (t : Tables)
      → IsValid E t
      → Leaves
          (IsValid E)
          ((overflow, append F E D 0 (delete_event F E K D id existing) t)
            >=> delete_rest F E K D existing id overflow).1
  unfolding delete_rest
  after_delete none id overflow t i = elim (append-cases F E D 0 (delete_event F E K D id none) t) [
    | inl (why, h) ↦ rw h tt
    | inr (e, h, a) ↦ rw h (appended-IsValid F E D (delete_event F E K D id none) t e a i)
  ]
  after_delete (some m) id overflow t i =
      event_then_cascade (delete_event F E K D id (some m)) id Queue.delete
        (K.encode (record { embedding = []; boundary = m.boundary })) overflow t i

  pub delete_body-IsValid :
      (id : MemoryId) (overflow : Bool) (t : Tables)
      → IsValid E t
      → Leaves (IsValid E) (delete_body F E K D id overflow t).1
  unfolding delete_body
  delete_body-IsValid id overflow t i =
      after_delete (tx_get_memory id t.memories) id overflow _
        (with_memories E t _ (Table.delete-IsKeyed memory_key id t.memories i.memories_keyed) i)

  cascading_write-IsValid :
      (m : Memory) (embedding : List F32) (op : CascadeOperation) (v : Vault)
      → op ≢ Queue.delete
      → IsValid E v.tables
      → IsValid E (cascading_write F E K D m embedding op v).1.tables
        × ((cascading_write F E K D m embedding op v).0 ≢ panicked)
  unfolding cascading_write
  cascading_write-IsValid m embedding op v n i =
      with_transaction-IsValid F E D
        (write_body F E K D op m
          (K.encode (record { embedding = embedding; boundary = m.boundary })))
        m.id v (λ overflow t. write_body-IsValid op m _ overflow t n) i

  -- A call of `delete_memory` does not panic and keeps the tables valid, whether it succeeds or not.
  pub delete_memory-IsValid :
      (id : MemoryId) (v : Vault)
      → IsValid E v.tables
      → IsValid E (delete_memory F E K D id v).1.tables
        × ((delete_memory F E K D id v).0 ≢ panicked)
  unfolding delete_memory
  delete_memory-IsValid id v i =
      with_transaction-IsValid F E D (delete_body F E K D id) id v (delete_body-IsValid id) i

  pub eager_validate-safe :
      (dimension : ℕ) (m : Memory) (embedding : List F32)
      → eager_validate dimension m embedding ≢ panicked
  unfolding eager_validate
  eager_validate-safe dimension m embedding =
      then-safe _ _ (Memory.validate-safe m) (elim (Bool-cases (length embedding == dimension)) [
        | inr other ↦ rw (other, not) (λ p. cc)
        | inl same ↦ elim (Bool-cases (length embedding == 0)) [
          | inl empty ↦ rw (same, not, empty) (λ p. cc)
          | inr more ↦ rw (same, not, more) (Memory.reject_if-safe _ _)
        ]
      ])

  checked-IsValid :
      (dimension : ℕ) (m : Memory) (embedding : List F32) (op : CascadeOperation) (v : Vault)
      → op ≢ Queue.delete
      → IsValid E v.tables
      → let r : Result Ack × Vault = elim (eager_validate dimension m embedding) [
        | ok _ ↦ cascading_write F E K D m embedding op v
        | err e ↦ (err e, v)
        | panicked ↦ (panicked, v)
      ] in
        IsValid E r.1.tables × (r.0 ≢ panicked)
  checked-IsValid dimension m embedding op v n i =
      elim (Result-cases (eager_validate dimension m embedding)) [
        | inl (_, h) ↦ rw h (cascading_write-IsValid m embedding op v n i)
        | inr (inl (e, h)) ↦ rw h (i, λ p. cc)
        | inr (inr h) ↦ absurd (eager_validate-safe dimension m embedding h)
      ]

  -- Calls of `write_memory` and `update_memory` do not panic and keep the tables valid, whether they
  -- succeed or not.
  pub write_memory-IsValid :
      (dimension : ℕ) (m : Memory) (embedding : List F32) (v : Vault)
      → IsValid E v.tables
      → (IsValid E (write_memory F E K D dimension m embedding v).1.tables
          × ((write_memory F E K D dimension m embedding v).0 ≢ panicked))
        × (IsValid E (update_memory F E K D dimension m embedding v).1.tables
            × ((update_memory F E K D dimension m embedding v).0 ≢ panicked))
  unfolding write_memory update_memory
  write_memory-IsValid dimension m embedding v i = (
    checked-IsValid dimension m embedding Queue.write v (λ p. cc) i,
    checked-IsValid dimension m embedding Queue.update v (λ p. cc) i,
  )
