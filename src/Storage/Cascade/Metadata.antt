-- ===== src/Storage/Cascade/Metadata.antt =====
-- The calls that change only the memory's row and the audit log: `mark_superseded`, `invalidate`,
-- `apply_dedup`, `apply_decay` and `apply_archive` (crates/vault-storage/src/cascading.rs).
use agent_memory_vault.Base.{
  ℕ, suc, none, some, List, [], ◌∷◌, ◌++◌, ltb, ◌==◌, if◌then◌else◌, length, any,
}
use agent_memory_vault.Core.Text.{Text, codes}
use agent_memory_vault.Core.Float.{F32}
use agent_memory_vault.Core.Json.{Value}
use agent_memory_vault.Core.Error.{Result, ok, err, ◌>>=◌, ◌>>◌, invalid_input, not_found}
use agent_memory_vault.Core.Memory
use agent_memory_vault.Core.Memory.{Memory, MemoryId, Time}
use agent_memory_vault.Storage.Backoff.{F64}
use agent_memory_vault.Storage.Audit.{
  AuditEventType, AuditEvent, PendingAuditEvent, successful, with_resource, with_boundary,
  with_details_json, memory_superseded, memory_invalidated, memory_deduped, memory_decayed,
  memory_archived, system,
}
use agent_memory_vault.Storage.Audit.Chain.{Encoding}
use agent_memory_vault.Storage.Cascade.{
  Ack, Codec, Draws, Tables, Vault, with_transaction, tx_get_memory, tx_update_memory, append,
}

module _ (F : F64) (E : Encoding) (K : Codec) (D : Draws) where
  -- The event for a row that was read as `m`.
  abbrev pub row_event : AuditEventType → MemoryId → Text → Memory → PendingAuditEvent
  row_event kind id details m = with_details_json details (
      with_boundary m.boundary
        (with_resource (codes "memory") (E.uuid_text id) (successful kind system)))

  -- What the five calls have in common: read the row, compute the new one, update, append an event.
  unfoldable pub change_row :
      ℕ
      → MemoryId
      → (Memory → Result Memory)
      → (Memory → PendingAuditEvent)
      → Tables
      → Result (AuditEvent × Tables)
  unfolding tx_get_memory tx_update_memory
  change_row draw id change event t = elim (tx_get_memory id t.memories) [
    | none ↦ err (not_found (codes "memory does not exist"))
    | some m ↦ change m >>= λ m'.
        append F E D draw (event m) (record t { memories = (tx_update_memory m' t.memories).1 })
  ]

  -- A call whose body is one `change_row`.
  unfoldable pub change_memory :
      MemoryId
      → (Memory → Result Memory)
      → (Memory → PendingAuditEvent)
      → Vault
      → Result Ack × Vault
  unfolding change_row with_transaction
  change_memory id change event v =
      with_transaction
        (λ overflow t. (overflow, change_row 0 id change event t >>= λ r. ok (r.0.timestamp, r.1)))
        id v

  -- `json_string(&id.to_string())`
  abbrev quoted_id : MemoryId → Text
  quoted_id id = K.json_string (E.uuid_text id)

  unfoldable pub superseded_details : MemoryId → Text
  superseded_details id = codes "{\"superseded_by\":" ++ quoted_id id ++ codes "}"

  abbrev pub superseding : MemoryId → Memory → Result Memory
  superseding new_id m = ok (record m { superseded_by = some new_id })

  abbrev pub superseded_event : MemoryId → MemoryId → Memory → PendingAuditEvent
  superseded_event old_id new_id = row_event memory_superseded old_id (superseded_details new_id)

  unfoldable pub mark_superseded : MemoryId → MemoryId → Vault → Result Ack × Vault
  unfolding change_memory superseded_details
  mark_superseded old_id new_id v =
      change_memory old_id (superseding new_id) (superseded_event old_id new_id) v

  abbrev pub invalidating : Time → Memory → Result Memory
  invalidating valid_until_at m =
      if ltb valid_until_at m.valid_from
      then err (invalid_input (codes "valid_until_at precedes valid_from"))
      else let m' : Memory = record m { valid_until = some valid_until_at } in
        Memory.validate m' >> ok m'

  abbrev pub invalidated_event : MemoryId → Time → Text → Memory → PendingAuditEvent
  invalidated_event id valid_until_at reason = row_event memory_invalidated id (
      codes "{\"valid_until\":"
      ++ K.json_string (E.rfc3339 valid_until_at)
      ++ codes ",\"reason\":"
      ++ K.json_string reason
      ++ codes "}")

  unfoldable pub invalidate : MemoryId → Time → Text → Vault → Result Ack × Vault
  unfolding change_memory
  invalidate id valid_until_at reason v =
      change_memory id (invalidating valid_until_at) (invalidated_event id valid_until_at reason) v

  abbrev pub decaying : F32 → Value → Memory → Result Memory
  decaying new_confidence new_metadata m =
      let m' : Memory = record m { confidence = new_confidence; metadata = new_metadata } in
      Memory.validate m' >> ok m'

  abbrev pub decayed_event : MemoryId → F32 → Memory → PendingAuditEvent
  decayed_event id new_confidence m =
      row_event memory_decayed id
        (codes "{\"old_confidence\":"
          ++ K.f32_text m.confidence
          ++ codes ",\"new_confidence\":"
          ++ K.f32_text new_confidence
          ++ codes "}")
        m

  unfoldable pub apply_decay : MemoryId → F32 → Value → Vault → Result Ack × Vault
  unfolding change_memory
  apply_decay id new_confidence new_metadata v =
      change_memory id (decaying new_confidence new_metadata) (decayed_event id new_confidence) v

  abbrev pub archiving : Time → Memory → Result Memory
  archiving archived_at m =
      let m' : Memory = record m { archived_at = some archived_at } in Memory.validate m' >> ok m'

  abbrev pub archived_event : MemoryId → Time → Memory → PendingAuditEvent
  archived_event id archived_at =
      row_event memory_archived id
        (codes "{\"archived_at\":" ++ K.json_string (E.rfc3339 archived_at) ++ codes "}")

  unfoldable pub apply_archive : MemoryId → Time → Vault → Result Ack × Vault
  unfolding change_memory
  apply_archive id archived_at v =
      change_memory id (archiving archived_at) (archived_event id archived_at) v

  -- The loop over the losers, from the draw with this number.
  unfoldable pub supersede_all : ℕ → MemoryId → List MemoryId → Tables → Result Tables
  unfolding change_row superseded_details
  supersede_all draw survivor [] t = ok t
  supersede_all draw survivor (loser ∷ losers) t =
      change_row draw loser (superseding survivor) (superseded_event loser survivor) t >>= λ r.
      supersede_all (suc draw) survivor losers r.1

  -- `.collect().join(",")`
  unfoldable pub joined : List MemoryId → Text
  joined [] = []
  joined (id ∷ []) = quoted_id id
  joined (id ∷ (j ∷ ids)) = quoted_id id ++ codes "," ++ joined (j ∷ ids)

  abbrev pub absorbing : ℕ → F32 → Memory → Result Memory
  absorbing summed_access_count max_confidence m =
      let m' : Memory = record m {
        access_count = summed_access_count;
        confidence = max_confidence;
      } in
      Memory.validate m' >> ok m'

  abbrev pub deduped_event : MemoryId → List MemoryId → ℕ → F32 → Memory → PendingAuditEvent
  deduped_event survivor losers summed_access_count max_confidence =
      row_event memory_deduped survivor (
        codes "{\"absorbed\":["
        ++ joined losers
        ++ codes "],\"summed_access_count\":"
        ++ K.u32_text summed_access_count
        ++ codes ",\"max_confidence\":"
        ++ K.f32_text max_confidence
        ++ codes "}")

  unfoldable pub dedup_body : MemoryId → List MemoryId → ℕ → F32 → Tables → Result (Time × Tables)
  unfolding supersede_all joined change_row
  dedup_body survivor losers summed_access_count max_confidence t =
      supersede_all 0 survivor losers t >>= λ t'.
      change_row (length losers) survivor (absorbing summed_access_count max_confidence)
        (deduped_event survivor losers summed_access_count max_confidence) t'
      >>= λ r. ok (r.0.timestamp, r.1)

  unfoldable pub apply_dedup : MemoryId → List MemoryId → ℕ → F32 → Vault → Result Ack × Vault
  unfolding dedup_body with_transaction
  apply_dedup survivor losers summed_access_count max_confidence v =
      if length losers == 0
      then (err (invalid_input (codes "apply_dedup requires at least one loser")), v)
      else if any (λ id. id == survivor) losers
      then (err (invalid_input (codes "apply_dedup survivor cannot also be a loser")), v)
      else with_transaction
          (λ overflow t.
            (overflow, dedup_body survivor losers summed_access_count max_confidence t))
          survivor v
