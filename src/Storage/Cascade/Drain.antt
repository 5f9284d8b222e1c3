-- ===== src/Storage/Cascade/Drain.antt =====
-- `drain_pending_sync` (crates/vault-storage/src/cascading.rs): the overflow table goes back into the
-- retry queue while that has room.
use agent_memory_vault.Base.{ℕ, suc, true, false, none, some, List, [], ◌∷◌, leb, length}
use agent_memory_vault.Base.Table
use agent_memory_vault.Core.Error.{Result, ok, err, panicked}
use agent_memory_vault.Storage.Backoff.{F64}
use agent_memory_vault.Storage.Audit.Chain.{Encoding}
use agent_memory_vault.Storage.PendingSync.{PendingSyncEntry, memory_of, oldest_first}
use agent_memory_vault.Storage.Cascade.{
  Draws, Tables, Vault, max_retry_queue_depth, tx_insert_retry_queue,
}

module _ (F : F64) (E : Encoding) (D : Draws) where
  -- The loop, from the draw with this number and the count so far. Each entry has a transaction of its
  -- own, so an error leaves what was drained before it.
  unfoldable pub drain_entries : ℕ → ℕ → List PendingSyncEntry → Tables → Result ℕ × Tables
  unfolding tx_insert_retry_queue
  drain_entries draw drained [] t = (ok drained, t)
  drain_entries draw drained (e ∷ es) t = elim e.payload [
    | none ↦ drain_entries (suc draw) drained es t
    | some payload ↦ elim (leb max_retry_queue_depth (length t.queue)) [
      | true ↦ (ok drained, t)
      | false ↦
          elim (tx_insert_retry_queue F E D draw e.memory_id e.operation e.sequence_id payload
            t.queue) [
              | ok q ↦
                  drain_entries (suc draw) (suc drained) es
                    (record t { queue = q; pending = Table.delete memory_of e.memory_id t.pending })
              | err why ↦ (err why, t)
              | panicked ↦ (panicked, t)
            ]
    ]
  ]

  unfoldable pub drain_pending_sync : ℕ → Vault → Result ℕ × Vault
  unfolding drain_entries oldest_first
  drain_pending_sync limit v =
      let r = drain_entries 0 0 (oldest_first limit v.tables.pending) v.tables in
      (r.0, record v { tables = r.1 })
