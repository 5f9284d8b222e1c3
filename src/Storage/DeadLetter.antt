-- ===== src/Storage/DeadLetter.antt =====
-- The dead letters (crates/vault-storage/src/dead_letter.rs): cascade operations that were given up,
-- until somebody resolves them.

pub mod Terminal
use agent_memory_vault.Base.{
  ℕ, Bool, true, false, Option, none, some, List, [], ◌∷◌, ◌++◌, leb, ◌==◌, if◌then◌else◌, length,
  any, keep, not,
}
use agent_memory_vault.Base.Sort.{sort_by}
use agent_memory_vault.Base.Table
use agent_memory_vault.Core.Text.{Text, codes, text_eq}
use agent_memory_vault.Core.Json.{Value}
use agent_memory_vault.Core.Error.{Result, ok, err, not_found, invalid_input, storage}
use agent_memory_vault.Core.Memory.{MemoryId, Time, is_some}
use agent_memory_vault.Storage.Queue.{CascadeOperation, limit_rows}
use agent_memory_vault.Storage.Truncate.{truncate_utf8}

abbrev pub failure_reason_max_bytes : ℕ
failure_reason_max_bytes = 4096

pub data Resolution : Type 0 where
  retried_succeeded retried_failed acknowledged auto_recovered : Resolution

unfoldable pub as_str : Resolution → Text
as_str retried_succeeded = codes "retried_succeeded"
as_str retried_failed = codes "retried_failed"
as_str acknowledged = codes "acknowledged"
as_str auto_recovered = codes "auto_recovered"

unfoldable pub from_str : Text → Result Resolution
from_str s =
    if text_eq s (codes "retried_succeeded")
    then ok retried_succeeded
    else if text_eq s (codes "retried_failed")
    then ok retried_failed
    else if text_eq s (codes "acknowledged")
    then ok acknowledged
    else if text_eq s (codes "auto_recovered")
    then ok auto_recovered
    else err (storage (codes "unknown dead_letter resolution"))

pub record NewDeadLetter : Type 0 where
  pub memory_id : MemoryId
  pub failed_operation : CascadeOperation
  pub failure_reason : Text
  pub attempts_made : ℕ
  pub first_failed_at : Time
  pub last_attempted_at : Time
  pub payload_format_version : ℕ
  pub payload : Value

pub record DeadLetterEntry : Type 0 where
  pub id : ℕ
  pub memory_id : MemoryId
  pub failed_operation : CascadeOperation
  pub failure_reason : Text
  pub attempts_made : ℕ
  pub first_failed_at : Time
  pub last_attempted_at : Time
  pub payload_format_version : ℕ
  pub payload : Value
  pub resolution : Option Resolution
  pub resolved_at : Option Time

abbrev pub Letters : Type 0
Letters = List DeadLetterEntry

abbrev pub letter_id : DeadLetterEntry → ℕ
letter_id e = e.id

-- The primary key refuses an id that is in use; `fresh` stands for `Uuid::now_v7()`.
unfoldable pub insert : ℕ → NewDeadLetter → Letters → Result (ℕ × Letters)
unfolding truncate_utf8
insert fresh new d =
    if any (λ e. e.id == fresh) d
    then err (storage (codes "insert dead_letter"))
    else let e : DeadLetterEntry = record {
      id = fresh;
      memory_id = new.memory_id;
      failed_operation = new.failed_operation;
      failure_reason = truncate_utf8 new.failure_reason failure_reason_max_bytes;
      attempts_made = new.attempts_made;
      first_failed_at = new.first_failed_at;
      last_attempted_at = new.last_attempted_at;
      payload_format_version = new.payload_format_version;
      payload = new.payload;
      resolution = none;
      resolved_at = none;
    } in
      ok (fresh, d ++ (e ∷ []))

unfoldable pub list_unresolved : ℕ → Letters → List DeadLetterEntry
list_unresolved limit d =
    limit_rows limit (sort_by (λ a b. leb a.id b.id) (keep (λ e. not (is_some e.resolution)) d))

unfoldable pub get : ℕ → Letters → Option DeadLetterEntry
get id d = Table.select letter_id id d

-- What `UPDATE … WHERE id = ?1 AND resolution IS NULL` sets.
abbrev pub resolve_row : Resolution → Time → DeadLetterEntry → DeadLetterEntry
resolve_row resolution now e = elim e.resolution [
  | none ↦ record e { resolution = some resolution; resolved_at = some now }
  | some _ ↦ e
]

-- The resolution that was read, and what `resolve` does with it.
unfoldable pub resolve_current :
    Option Resolution → ℕ → Resolution → Time → Letters → Result Letters
unfolding as_str text_eq
resolve_current (some existing) id resolution now d =
    if text_eq (as_str existing) (as_str resolution)
    then ok d
    else err (invalid_input (codes "dead_letter already resolved"))
resolve_current none id resolution now d =
    ok (Table.update letter_id id (resolve_row resolution now) d)

unfoldable pub resolve : ℕ → Resolution → Time → Letters → Result Letters
unfolding resolve_current
resolve id resolution now d = elim (Table.select letter_id id d) [
  | none ↦ err (not_found (codes "dead_letter entry not found"))
  | some e ↦ resolve_current e.resolution id resolution now d
]

unfoldable pub len : Letters → ℕ
len d = length d
