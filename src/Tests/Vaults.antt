-- ===== src/Tests/Vaults.antt =====
-- The theorems on the vault's tables, the audit chain and the worker at concrete inputs.
use agent_memory_vault.Base.{ℕ, ◌≡◌, ◌≢◌, ◌⊎◌, refl, none, some, [], ◌∷◌, map}
use agent_memory_vault.Base.Table.{IsKeyed}
use agent_memory_vault.Core.Text.{codes}
use agent_memory_vault.Core.Json
use agent_memory_vault.Core.Error.{ok, err, panicked, storage}
use agent_memory_vault.Storage.Queue
use agent_memory_vault.Storage.Queue.{RetryEntry}
use agent_memory_vault.Storage.PendingSync
use agent_memory_vault.Storage.PendingSync.{PendingSyncEntry, upsert_with_payload, memory_of}
use agent_memory_vault.Storage.PendingSync.Latest.{upsert_with_payload-get}
use agent_memory_vault.Storage.DeadLetter
use agent_memory_vault.Storage.DeadLetter.{resolve, acknowledged, DeadLetterEntry}
use agent_memory_vault.Storage.DeadLetter.Terminal.{Resolved, resolve-Resolved}
use agent_memory_vault.Storage.Audit.{
  AuditEvent, successful, memory_read, memory_deduped, agent, denied, system, event_type_str,
  event_type_parse, actor_kind_str, actor_kind_parse, result_str, result_parse,
}
use agent_memory_vault.Storage.Audit.Names.{parse-as_str}
use agent_memory_vault.Storage.Audit.Chain.{
  tx_append_audit, new_event, verify_chain, seal, canonical_bytes,
}
use agent_memory_vault.Storage.Audit.Tamper.{
  Collision, sealed, verify_chain-tip, tx_append_audit-verify_chain, new_event-verify_chain,
}
use agent_memory_vault.Storage.Cascade.Write.{write_memory, update_memory, delete_memory}
use agent_memory_vault.Storage.Cascade.Drain.{drain_pending_sync}
use agent_memory_vault.Storage.Cascade.Invariant.{IsValid}
use agent_memory_vault.Storage.Cascade.Invariant.Calls.{write_memory-IsValid, delete_memory-IsValid}
use agent_memory_vault.Storage.Cascade.Invariant.Draining.{Drained, drain_pending_sync-Drained}
use agent_memory_vault.Storage.Cascade.Metadata.{
  mark_superseded, invalidate, apply_decay, apply_archive, apply_dedup,
}
use agent_memory_vault.Storage.Cascade.Invariant.MetadataOnly.{
  MetadataOnly, apply_archive-MetadataOnly,
}
use agent_memory_vault.Storage.Cascade.Atomic.{Atomic, write_memory-Atomic}
use agent_memory_vault.Storage.Worker.{World, VectorStore, Reading, step_at}
use agent_memory_vault.Storage.Worker.Accounted.{Accounted, step_at-Accounted}
use agent_memory_vault.Tests.Float64.{pos, fixed}
use agent_memory_vault.Tests.Samples.{
  encoding, codec, draws, memory, first_event, second_event, overflowed, tables, vault,
  queue-IsValid, tables-IsValid, no_events-verify,
}

write_memory-Atomic_example :
    Atomic fixed encoding codec draws Queue.write
      (memory 5)
      (0 ∷ [])
      vault
      (write_memory fixed encoding codec draws 1 (memory 5) (0 ∷ []) vault)
    × Atomic fixed encoding codec draws Queue.update
        (memory 5)
        (0 ∷ [])
        vault
        (update_memory fixed encoding codec draws 1 (memory 5) (0 ∷ []) vault)
write_memory-Atomic_example =
    write_memory-Atomic fixed encoding codec draws 1 (memory 5) (0 ∷ []) vault tables-IsValid

write_memory-IsValid_example :
    (IsValid encoding (write_memory fixed encoding codec draws 1 (memory 5) (0 ∷ []) vault).1.tables
      × ((write_memory fixed encoding codec draws 1 (memory 5) (0 ∷ []) vault).0 ≢ panicked))
    × (IsValid encoding
          (update_memory fixed encoding codec draws 1 (memory 5) (0 ∷ []) vault).1.tables
        × ((update_memory fixed encoding codec draws 1 (memory 5) (0 ∷ []) vault).0 ≢ panicked))
write_memory-IsValid_example =
    write_memory-IsValid fixed encoding codec draws 1 (memory 5) (0 ∷ []) vault tables-IsValid

delete_memory-IsValid_example :
    IsValid encoding (delete_memory fixed encoding codec draws 4 vault).1.tables
    × ((delete_memory fixed encoding codec draws 4 vault).0 ≢ panicked)
delete_memory-IsValid_example =
    delete_memory-IsValid fixed encoding codec draws 4 vault tables-IsValid

drain_pending_sync-Drained_example : Drained encoding 1 0 (
  (drain_pending_sync fixed encoding draws 10 vault).0,
  (drain_pending_sync fixed encoding draws 10 vault).1.tables,
)
drain_pending_sync-Drained_example =
    drain_pending_sync-Drained fixed encoding draws 10 vault tables-IsValid

apply_archive-MetadataOnly_example :
    MetadataOnly fixed encoding codec draws vault
      (mark_superseded fixed encoding codec draws 4 5 vault)
    × MetadataOnly fixed encoding codec draws vault
        (invalidate fixed encoding codec draws 4 8 (codes "moved") vault)
    × MetadataOnly fixed encoding codec draws vault
        (apply_decay fixed encoding codec draws 4 0 Json.null vault)
    × MetadataOnly fixed encoding codec draws vault
        (apply_archive fixed encoding codec draws 4 8 vault)
    × MetadataOnly fixed encoding codec draws vault
        (apply_dedup fixed encoding codec draws 4 (6 ∷ []) 3 0 vault)
apply_archive-MetadataOnly_example =
    apply_archive-MetadataOnly fixed encoding codec draws 4 5 8 (codes "moved") 0 Json.null (6 ∷ [])
      3 vault tables-IsValid

tx_append_audit-verify_chain_example :
    (e : AuditEvent) × (tx_append_audit encoding 2 6
        (successful memory_read system)
        (first_event ∷ [])
      ≡ ok (e, first_event ∷ e ∷ []))
    × (verify_chain encoding (first_event ∷ e ∷ []) ≡ ok tt)
unfolding new_event
tx_append_audit-verify_chain_example =
    tx_append_audit-verify_chain encoding 2 6 (successful memory_read system) (first_event ∷ [])
      refl (new_event-verify_chain encoding 1 5 (successful memory_read agent) [] no_events-verify)

verify_chain-tip_example :
    Collision encoding
    ⊎ (map (sealed encoding) (first_event ∷ []) ≡ map (sealed encoding) (second_event ∷ []))
unfolding new_event seal canonical_bytes
verify_chain-tip_example =
    verify_chain-tip encoding (λ s. refl) (first_event ∷ []) (second_event ∷ [])
      (new_event-verify_chain encoding 1 5 (successful memory_read agent) [] no_events-verify)
      (new_event-verify_chain encoding 2 6 (successful memory_read system) [] no_events-verify) refl
      refl

parse-as_str_example :
    (event_type_parse (event_type_str memory_deduped) ≡ some memory_deduped)
    × (actor_kind_parse (actor_kind_str agent) ≡ some agent)
    × (result_parse (result_str denied) ≡ some denied)
parse-as_str_example = parse-as_str memory_deduped agent denied

upsert_with_payload-get_example :
    IsKeyed memory_of (upsert_with_payload 4 Queue.update 8 2 [] (overflowed ∷ []))
    × (PendingSync.get 4 (upsert_with_payload 4 Queue.update 8 2 [] (overflowed ∷ []))
        ≡ some (record {
          memory_id = 4;
          operation = Queue.update;
          queued_at = 8;
          sequence_id = 2;
          payload = some [];
        }))
upsert_with_payload-get_example =
    upsert_with_payload-get 4 Queue.update 8 2 [] (overflowed ∷ []) 4 (refl, tt)

abbrev letter : DeadLetterEntry
letter = record {
  id = 3;
  memory_id = 4;
  failed_operation = Queue.write;
  failure_reason = [];
  attempts_made = 8;
  first_failed_at = 1;
  last_attempted_at = 2;
  payload_format_version = 1;
  payload = Json.null;
  resolution = none;
  resolved_at = none;
}

resolve-Resolved_example :
    Resolved 3 acknowledged 7
      (letter ∷ [])
      (DeadLetter.get 3 (letter ∷ []))
      (resolve 3 acknowledged 7 (letter ∷ []))
resolve-Resolved_example = resolve-Resolved 3 acknowledged 7 (letter ∷ [])

-- A vector store that is down.
abbrev unreachable : VectorStore ℕ
unreachable = record { upsert = λ id e b s. err (storage []); delete = λ id s. err (storage []) }

abbrev world : World ℕ
world = record { tables = tables; letters = letter ∷ []; vectors = 0 }

abbrev reading : Reading
reading = record { error_text = λ e. codes "down"; payload_value = λ s. Json.string s }

step_at-Accounted_example :
    Accounted fixed encoding codec reading unreachable 10 world
      (step_at fixed encoding codec reading unreachable 10 draws 11 (pos 0) world).1
step_at-Accounted_example =
    step_at-Accounted fixed encoding codec reading unreachable 10 draws 11 (pos 0) world
      queue-IsValid refl
