-- ===== src/Storage/Cascade/Kept.antt =====
-- What the cascading calls do to the rows of memories, whatever becomes of the rest of the
-- transaction.
use agent_memory_vault.Base.{
  ℕ, ◌≡◌, inl, inr, refl, Bool, false, Option, none, some, List, [], ◌∷◌, ◌++◌, arith, keep,
}
use agent_memory_vault.Base.Table
use agent_memory_vault.Base.Table.{IsKeyed, delete-eq_self}
use agent_memory_vault.Core.Text.{Text}
use agent_memory_vault.Core.Float.{F32}
use agent_memory_vault.Core.Error.{Result, ok, err, panicked, IfOk, Result-cases}
use agent_memory_vault.Core.Memory.{Memory, MemoryId, Time}
use agent_memory_vault.Storage.Backoff.{F64}
use agent_memory_vault.Storage.Queue
use agent_memory_vault.Storage.Queue.{CascadeOperation}
use agent_memory_vault.Storage.Audit.{AuditEventType, PendingAuditEvent}
use agent_memory_vault.Storage.Audit.Chain.{Encoding}
use agent_memory_vault.Storage.Cascade.{
  Ack, Codec, Draws, Tables, Vault, ◌>=>◌, commit, with_transaction, memory_key, tx_get_memory,
  tx_insert_memory, append, enqueue_cascade,
}
use agent_memory_vault.Storage.Cascade.Write.{
  eager_validate, write_row, write_body, change_event, cascading_write, write_memory, delete_event,
  delete_rest, delete_body, delete_memory,
}
use agent_memory_vault.Storage.Cascade.Rows.{append-cases, tx_insert_memory-cases}
use agent_memory_vault.Storage.Cascade.Durable.{Cascaded-frame, enqueue_cascade-cases}

-- A row that does not pass the test is deleted without a trace among those that do.
pub keep-delete {ℓ} :
    {R : Type ℓ} (key : R → ℕ) (p : R → Bool) (k : ℕ) (t : List R) {x : R}
    → IsKeyed key t
    → Table.select key k t ≡ some x
    → p x ≡ false
    → keep p (Table.delete key k t) ≡ keep p t
keep-delete key p k [] {x = x} i h n = refl
keep-delete key p k (r ∷ t) {x = x} i h n =
    ground (arith, keep-delete key p k t {x = x} i.1, delete-eq_self key (key r) t i.0)

pub keep-snoc {ℓ} :
    {A : Type ℓ} (p : A → Bool) (xs : List A) (x : A)
    → p x ≡ false
    → keep p (xs ++ (x ∷ [])) ≡ keep p xs
keep-snoc p [] x h = ground arith
keep-snoc p (y ∷ xs) x h = ground (arith, keep-snoc p xs x h)

module _ (P : List Memory → Type 0) where
  commit-Kept :
      (id : MemoryId) (v : Vault) (overflow : Bool) (r : Result (Time × Tables))
      → P v.tables.memories
      → IfOk (λ o. P o.1.memories) r
      → P (commit id v overflow r).1.tables.memories
  unfolding commit
  commit-Kept id v overflow (ok r) h k = k
  commit-Kept id v overflow (err e) h k = h
  commit-Kept id v overflow panicked h k = h

  module _ (F : F64) (E : Encoding) (K : Codec) (D : Draws) where
    -- An event and a cascade row leave the memories as they are.
    after_event :
        (p : PendingAuditEvent) (id : MemoryId) (op : CascadeOperation) (payload : Text)
        (overflow : Bool) (t : Tables)
        → P t.memories
        → IfOk
            (λ o. P o.1.memories)
            ((overflow, append F E D 0 p t) >=> λ a.
              enqueue_cascade F E D id op a.0.timestamp a.0.seq payload overflow a.1).1
    after_event p id op payload overflow t h = elim (append-cases F E D 0 p t) [
      | inl (why, j) ↦ rw j tt
      | inr (e, j, a) ↦
          elim (enqueue_cascade-cases F E D id op e.timestamp e.seq payload overflow
            (record t { log = t.log ++ (e ∷ []) })) [
              | inl (why, k) ↦ rw (j, k) tt
              | inr (t', k, c) ↦
                  rw
                    (
                      j,
                      k,
                      (Cascaded-frame F E D id op e.timestamp e.seq payload
                          (record t { log = t.log ++ (e ∷ []) }) t' c).0,
                    )
                    h
            ]
    ]

    write_row-Kept :
        (m : Memory) (t : Tables)
        → ((ms : List Memory) → tx_insert_memory m t.memories ≡ ok ms → P ms)
        → IfOk (λ r. P r.1.memories) (write_row Queue.write m t)
    unfolding write_row
    write_row-Kept m t k = elim (tx_insert_memory-cases m t.memories) [
      | inl (e, j) ↦ rw (j, write_row) tt
      | inr (j, _) ↦ rw (j, write_row) (k _ j)
    ]

    after_row :
        (m : Memory) (payload : Text) (overflow : Bool) (r : Result (AuditEventType × Tables))
        → IfOk (λ o. P o.1.memories) r
        → IfOk
            (λ o. P o.1.memories)
            ((overflow, r) >=> λ w.
              (overflow, append F E D 0 (change_event F E K D w.0 m) w.1) >=> λ a.
              enqueue_cascade F E D m.id Queue.write a.0.timestamp a.0.seq payload overflow a.1).1
    after_row m payload overflow (ok w) h =
        after_event (change_event F E K D w.0 m) m.id Queue.write payload overflow w.1 h
    after_row m payload overflow (err e) h = tt
    after_row m payload overflow panicked h = tt

    write_body-Kept :
        (m : Memory) (payload : Text) (overflow : Bool) (t : Tables)
        → ((ms : List Memory) → tx_insert_memory m t.memories ≡ ok ms → P ms)
        → IfOk (λ o. P o.1.memories) (write_body F E K D Queue.write m payload overflow t).1
    unfolding write_body
    write_body-Kept m payload overflow t k =
        after_row m payload overflow (write_row Queue.write m t) (write_row-Kept m t k)

    checked-Kept :
        (dimension : ℕ) (m : Memory) (embedding : List F32) (v : Vault)
        → P v.tables.memories
        → ((ms : List Memory) → tx_insert_memory m v.tables.memories ≡ ok ms → P ms)
        → P
            (elim (eager_validate dimension m embedding) as (λ _. Result Ack × Vault) [
              | ok _ ↦ cascading_write F E K D m embedding Queue.write v
              | err e ↦ (err e, v)
              | panicked ↦ (panicked, v)
            ]).1.tables.memories
    unfolding cascading_write with_transaction
    checked-Kept dimension m embedding v h k =
        elim (Result-cases (eager_validate dimension m embedding)) [
          | inl (_, j) ↦
              rw j (commit-Kept m.id v _ _ h (write_body-Kept m _ v.in_cap_overflow v.tables k))
          | inr (inl (e, j)) ↦ rw j h
          | inr (inr j) ↦ rw j h
        ]

    -- After `write_memory` the rows are as they were, or as its insertion has left them.
    pub write_memory-Kept :
        (dimension : ℕ) (m : Memory) (embedding : List F32) (v : Vault)
        → P v.tables.memories
        → ((ms : List Memory) → tx_insert_memory m v.tables.memories ≡ ok ms → P ms)
        → P (write_memory F E K D dimension m embedding v).1.tables.memories
    unfolding write_memory
    write_memory-Kept dimension m embedding v h k = checked-Kept dimension m embedding v h k

    after_delete :
        (existing : Option Memory) (id : MemoryId) (overflow : Bool) (t : Tables)
        → P t.memories
        → IfOk
            (λ o. P o.1.memories)
            ((overflow, append F E D 0 (delete_event F E K D id existing) t)
              >=> delete_rest F E K D existing id overflow).1
    unfolding delete_rest
    after_delete none id overflow t h =
        elim (append-cases F E D 0 (delete_event F E K D id none) t) [
          | inl (why, j) ↦ rw j tt
          | inr (e, j, a) ↦ rw j h
        ]
    after_delete (some m) id overflow t h =
        after_event (delete_event F E K D id (some m)) id Queue.delete _ overflow t h

    -- After `delete_memory` the rows are as they were, or without those of the id.
    pub delete_memory-Kept :
        (id : MemoryId) (v : Vault)
        → P v.tables.memories
        → P (Table.delete memory_key id v.tables.memories)
        → P (delete_memory F E K D id v).1.tables.memories
    unfolding delete_memory delete_body with_transaction
    delete_memory-Kept id v h k =
        commit-Kept id v _ _ h
          (after_delete (tx_get_memory id v.tables.memories) id v.in_cap_overflow _ k)
