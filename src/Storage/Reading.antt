-- ===== src/Storage/Reading.antt =====
-- `MetadataStore::get_memory` (crates/vault-storage/src/metadata_store.rs): a read of one row, which
-- commits an audit event.
use agent_memory_vault.Base.{◌≡◌, inl, inr, refl, Option, none, some}
use agent_memory_vault.Core.Text.{codes}
use agent_memory_vault.Core.Error.{VaultError, Result, ok, err, panicked}
use agent_memory_vault.Core.Memory.{Memory, MemoryId}
use agent_memory_vault.Storage.Backoff.{F64}
use agent_memory_vault.Storage.Audit.{
  PendingAuditEvent, successful, with_resource, with_details_json, memory_read, system,
}
use agent_memory_vault.Storage.Audit.Chain.{Encoding}
use agent_memory_vault.Storage.Cascade.{Draws, Tables, Vault, tx_get_memory, append}
use agent_memory_vault.Storage.Cascade.Rows.{append-cases}
use agent_memory_vault.Storage.Cascade.Invariant.{IsValid, appended-IsValid}

module _ (F : F64) (E : Encoding) (D : Draws) where
  abbrev pub read_event : MemoryId → Option Memory → PendingAuditEvent
  read_event id found =
      with_details_json
        (elim found [ none ↦ codes "{\"found\":false}" | some _ ↦ codes "{\"found\":true}" ])
        (with_resource (codes "memory") (E.uuid_text id) (successful memory_read system))

  unfoldable pub get_memory : MemoryId → Vault → Result (Option Memory) × Vault
  unfolding tx_get_memory
  get_memory id v =
      let memory = tx_get_memory id v.tables.memories in
      elim (append F E D 0 (read_event id memory) v.tables) [
        | ok r ↦ (ok memory, record v { tables = r.1 })
        | err e ↦ (err e, v)
        | panicked ↦ (panicked, v)
      ]

  -- A read either fails and leaves the vault as it was, or finds what is there and adds its event.
  pub data Read (id : MemoryId) (v : Vault) : Result (Option Memory) × Vault → Type 0 where
    failed : (why : VaultError) → Read id v (err why, v)
    read :
        (t : Tables)
        → t.memories ≡ v.tables.memories
        → (IsValid E v.tables → IsValid E t)
        → Read id v (ok (tx_get_memory id v.tables.memories), record v { tables = t })

  pub get_memory-Read : (id : MemoryId) (v : Vault) → Read id v (get_memory id v)
  unfolding get_memory
  get_memory-Read id v =
      let event = read_event id (tx_get_memory id v.tables.memories) in
      elim (append-cases F E D 0 event v.tables) [
        | inl (why, h) ↦ rw (get_memory, h) (failed why)
        | inr (e, h, a) ↦
            rw (get_memory, h) (read _ refl (appended-IsValid F E D event v.tables e a))
      ]
