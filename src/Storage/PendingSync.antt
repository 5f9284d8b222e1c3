-- ===== src/Storage/PendingSync.antt =====
-- The overflow table `pending_sync` (crates/vault-storage/src/pending_sync.rs): one row for each
-- memory, which a later operation on the memory overwrites.
pub mod Latest
use agent_memory_vault.Base.{
  ℕ, Bool, true, false, ◌&&◌, ◌||◌, Option, none, some, List, [], ◌∷◌, ◌++◌, ltb, leb, ◌==◌,
  if◌then◌else◌, length, any,
}
use agent_memory_vault.Base.Sort.{sort_by}
use agent_memory_vault.Base.Table
use agent_memory_vault.Core.Text.{Text}
use agent_memory_vault.Core.Memory.{MemoryId, Time}
use agent_memory_vault.Storage.Queue.{CascadeOperation, limit_rows}

pub record PendingSyncEntry : Type 0 where
  pub memory_id : MemoryId
  pub operation : CascadeOperation
  pub queued_at : Time
  pub sequence_id : ℕ
  pub payload : Option Text

abbrev pub Pending : Type 0
Pending = List PendingSyncEntry

abbrev pub memory_of : PendingSyncEntry → MemoryId
memory_of e = e.memory_id

-- `INSERT … ON CONFLICT(memory_id) DO UPDATE SET …`.
unfoldable pub upsert_row :
    PendingSyncEntry → (PendingSyncEntry → PendingSyncEntry) → Pending → Pending
upsert_row row on_conflict p =
    if any (λ e. e.memory_id == row.memory_id) p
    then Table.update memory_of row.memory_id on_conflict p
    else p ++ (row ∷ [])

-- A new row has the columns' defaults, sequence number 0 and no payload.
unfoldable pub upsert : MemoryId → CascadeOperation → Time → Pending → Pending
unfolding upsert_row
upsert memory_id operation queued_at p =
    upsert_row
      (record {
        memory_id = memory_id;
        operation = operation;
        queued_at = queued_at;
        sequence_id = 0;
        payload = none;
      })
      (λ e. record e { operation = operation; queued_at = queued_at }) p

unfoldable pub upsert_with_payload :
    MemoryId → CascadeOperation → Time → ℕ → Text → Pending → Pending
unfolding upsert_row
upsert_with_payload memory_id operation queued_at sequence_id payload p =
    upsert_row
      (record {
        memory_id = memory_id;
        operation = operation;
        queued_at = queued_at;
        sequence_id = sequence_id;
        payload = some payload;
      })
      (λ e. record e {
        operation = operation;
        queued_at = queued_at;
        sequence_id = sequence_id;
        payload = some payload;
      })
      p

-- `ORDER BY queued_at ASC, memory_id ASC`.
abbrev pub older : PendingSyncEntry → PendingSyncEntry → Bool
older a b =
    ltb a.queued_at b.queued_at || (a.queued_at == b.queued_at && leb a.memory_id b.memory_id)

unfoldable pub oldest_first : ℕ → Pending → List PendingSyncEntry
oldest_first limit p = limit_rows limit (sort_by older p)

unfoldable pub remove : MemoryId → Pending → Bool × Pending
remove memory_id p = (any (λ e. e.memory_id == memory_id) p, Table.delete memory_of memory_id p)

unfoldable pub get : MemoryId → Pending → Option PendingSyncEntry
get memory_id p = Table.select memory_of memory_id p

unfoldable pub len : Pending → ℕ
len p = length p
