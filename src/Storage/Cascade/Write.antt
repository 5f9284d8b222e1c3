-- ===== src/Storage/Cascade/Write.antt =====
-- The cascading calls of the storage backend: `write_memory`, `update_memory` and `delete_memory`
-- (crates/vault-storage/src/cascading.rs).
use agent_memory_vault.Base.{
  ℕ, Bool, not, Option, none, some, List, [], ◌==◌, if◌then◌else◌, length, any,
}
use agent_memory_vault.Base.Table
use agent_memory_vault.Core.Text.{Text, codes}
use agent_memory_vault.Core.Float.{F32, is_finite}
use agent_memory_vault.Core.Error.{
  Result, ok, err, panicked, ◌>>◌, dimension_mismatch, invalid_input, not_found,
}
use agent_memory_vault.Core.Memory
use agent_memory_vault.Core.Memory.{Memory, MemoryId, Time, reject_if}
use agent_memory_vault.Storage.Backoff.{F64}
use agent_memory_vault.Storage.Queue
use agent_memory_vault.Storage.Queue.{CascadeOperation}
use agent_memory_vault.Storage.Audit.{
  AuditEventType, AuditEvent, PendingAuditEvent, successful, with_resource, with_boundary,
  with_details_json, memory_create, memory_update, memory_delete, system,
}
use agent_memory_vault.Storage.Audit.Chain.{Encoding}
use agent_memory_vault.Storage.Cascade.{
  Ack, Codec, Draws, Tables, Vault, Outcome, ◌>=>◌, with_transaction, memory_key, tx_insert_memory,
  tx_get_memory, tx_update_memory, append, enqueue_cascade,
}

-- `dimension` is that of the vector store.
unfoldable pub eager_validate : ℕ → Memory → List F32 → Result (Unit {0})
eager_validate dimension memory embedding =
    Memory.validate memory
    >> (if not (length embedding == dimension)
        then err (dimension_mismatch dimension (length embedding))
        else if length embedding == 0
        then err (invalid_input (codes "embedding is empty"))
        else reject_if (any (λ x. not (is_finite x)) embedding)
            (codes "embedding contains non-finite values"))

-- The statement on the memory row and the kind of the event.
unfoldable pub write_row : CascadeOperation → Memory → Tables → Result (AuditEventType × Tables)
unfolding tx_insert_memory tx_update_memory
write_row Queue.write m t = elim (tx_insert_memory m t.memories) [
  | ok ms ↦ ok (memory_create, record t { memories = ms })
  | err e ↦ err e
  | panicked ↦ panicked
]
write_row Queue.update m t =
    if (tx_update_memory m t.memories).0
    then ok (memory_update, record t { memories = (tx_update_memory m t.memories).1 })
    else err (not_found (codes "memory does not exist"))
write_row Queue.delete m t = panicked

module _ (F : F64) (E : Encoding) (K : Codec) (D : Draws) where
  abbrev pub change_event : AuditEventType → Memory → PendingAuditEvent
  change_event kind m =
      with_boundary m.boundary
        (with_resource (codes "memory") (E.uuid_text m.id) (successful kind system))

  -- The body of the transaction of `cascading_write`.
  unfoldable pub write_body : CascadeOperation → Memory → Text → Bool → Tables → Outcome Time
  unfolding write_row enqueue_cascade
  write_body op m payload overflow t = (overflow, write_row op m t) >=> λ w.
      (overflow, append F E D 0 (change_event w.0 m) w.1) >=> λ a.
      enqueue_cascade F E D m.id op a.0.timestamp a.0.seq payload overflow a.1

  unfoldable pub cascading_write : Memory → List F32 → CascadeOperation → Vault → Result Ack × Vault
  unfolding write_body with_transaction
  cascading_write m embedding op v =
      let payload = K.encode (record { embedding = embedding; boundary = m.boundary }) in
      with_transaction (write_body op m payload) m.id v

  unfoldable pub write_memory : ℕ → Memory → List F32 → Vault → Result Ack × Vault
  unfolding cascading_write eager_validate
  write_memory dimension m embedding v = elim (eager_validate dimension m embedding) [
    | ok _ ↦ cascading_write m embedding Queue.write v
    | err e ↦ (err e, v)
    | panicked ↦ (panicked, v)
  ]

  unfoldable pub update_memory : ℕ → Memory → List F32 → Vault → Result Ack × Vault
  unfolding cascading_write eager_validate
  update_memory dimension m embedding v = elim (eager_validate dimension m embedding) [
    | ok _ ↦ cascading_write m embedding Queue.update v
    | err e ↦ (err e, v)
    | panicked ↦ (panicked, v)
  ]

  abbrev pub boundary_of : Option Memory → PendingAuditEvent → PendingAuditEvent
  boundary_of none p = p
  boundary_of (some m) p = with_boundary m.boundary p

  abbrev pub delete_event : MemoryId → Option Memory → PendingAuditEvent
  delete_event id existing =
      with_details_json
        (elim existing [ none ↦ codes "{\"deleted\":false}" | some _ ↦ codes "{\"deleted\":true}" ])
        (boundary_of existing
          (with_resource (codes "memory") (E.uuid_text id) (successful memory_delete system)))

  -- What follows the audit event, by the row that was there: a cascade row only for a row that was
  -- deleted.
  unfoldable pub delete_rest : Option Memory → MemoryId → Bool → AuditEvent × Tables → Outcome Time
  unfolding enqueue_cascade
  delete_rest none id overflow a = (overflow, ok (a.0.timestamp, a.1))
  delete_rest (some m) id overflow a =
      enqueue_cascade F E D id Queue.delete a.0.timestamp a.0.seq
        (K.encode (record { embedding = []; boundary = m.boundary })) overflow a.1

  -- The body of the transaction of `delete_memory`; the statement deletes a row exactly where the
  -- lookup before it has found one.
  unfoldable pub delete_body : MemoryId → Bool → Tables → Outcome Time
  unfolding tx_get_memory delete_rest
  delete_body id overflow t =
      let existing = tx_get_memory id t.memories in
      let t' : Tables = record t { memories = Table.delete memory_key id t.memories } in
      (overflow, append F E D 0 (delete_event id existing) t') >=> delete_rest existing id overflow

  unfoldable pub delete_memory : MemoryId → Vault → Result Ack × Vault
  unfolding delete_body with_transaction
  delete_memory id v = with_transaction (delete_body id) id v
