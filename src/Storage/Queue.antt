-- ===== src/Storage/Queue.antt =====
-- The persistent retry queue (crates/vault-storage/src/retry_queue.rs) over the table that
-- crates/vault-storage/src/migrations/0002_cascade_infra.sql declares. The payload is the BLOB.
pub mod Invariant
pub mod Success
pub mod Polling
pub mod Retries
use agent_memory_vault.Base.{
  ℕ, ◌+◌, ◌-◌, ◌^◌, Bool, true, false, ◌&&◌, ◌||◌, Option, none, some, List, [], ◌∷◌, ◌++◌, ltb,
  leb, ◌==◌, if◌then◌else◌, length, take, keep, any, min,
}
use agent_memory_vault.Base.Sort.{sort_by}
use agent_memory_vault.Base.Table
use agent_memory_vault.Core.Text.{Text, codes, text_eq}
use agent_memory_vault.Core.Error.{Result, ok, err, panicked, ◌>>=◌, not_found, storage}
use agent_memory_vault.Core.Memory.{MemoryId, Time}
use agent_memory_vault.Storage.Backoff.{F64, compute_next_attempt, max_attempts}
use agent_memory_vault.Storage.Truncate.{truncate_utf8}

pub data CascadeOperation : Type 0 where
  write update delete : CascadeOperation

unfoldable pub as_str : CascadeOperation → Text
as_str CascadeOperation.write = codes "write"
as_str CascadeOperation.update = codes "update"
as_str CascadeOperation.delete = codes "delete"

unfoldable pub from_str : Text → Result CascadeOperation
from_str s =
    if text_eq s (codes "write")
    then ok CascadeOperation.write
    else if text_eq s (codes "update")
    then ok CascadeOperation.update
    else if text_eq s (codes "delete")
    then ok CascadeOperation.delete
    else err (storage (codes "unknown cascade operation"))

abbrev pub payload_format_version : ℕ
payload_format_version = 1

abbrev pub last_error_max_bytes : ℕ
last_error_max_bytes = 4096

pub record NewRetry : Type 0 where
  pub memory_id : MemoryId
  pub operation : CascadeOperation
  pub sequence_id : ℕ
  pub payload : Text

pub record RetryEntry : Type 0 where
  pub id : ℕ
  pub memory_id : MemoryId
  pub operation : CascadeOperation
  pub payload_format_version : ℕ
  pub payload : Text
  pub sequence_id : ℕ
  pub attempts_made : ℕ
  pub next_attempt_at : Time
  pub created_at : Time
  pub last_error : Option Text

pub data DeadLetterReason : Type 0 where
  attempts_exhausted permanent : DeadLetterReason

pub data FailureOutcome : Type 0 where
  rescheduled : ℕ → Time → FailureOutcome
  dead_letter : RetryEntry → Text → DeadLetterReason → FailureOutcome

-- The rows of `retry_queue`, in the order in which they were inserted.
abbrev pub Queue : Type 0
Queue = List RetryEntry

abbrev pub entry_id : RetryEntry → ℕ
entry_id e = e.id

-- The columns of the unique index `idx_retry_queue_mem_seq`.
abbrev pub same_anchor : MemoryId → ℕ → RetryEntry → Bool
same_anchor m s e = e.memory_id == m && e.sequence_id == s

-- The row of an `INSERT`, for the caller's clock and the next attempt that it has computed.
abbrev pub new_entry : ℕ → NewRetry → Time → Time → RetryEntry
new_entry fresh new now next_at = record {
  id = fresh;
  memory_id = new.memory_id;
  operation = new.operation;
  payload_format_version = payload_format_version;
  payload = new.payload;
  sequence_id = new.sequence_id;
  attempts_made = 0;
  next_attempt_at = next_at;
  created_at = now;
  last_error = none;
}

-- `INSERT INTO retry_queue`: the primary key and the unique index refuse a row.
unfoldable pub insert_row : RetryEntry → Queue → Result Queue
insert_row e q =
    if any (λ r. r.id == e.id || same_anchor e.memory_id e.sequence_id r) q
    then err (storage (codes "enqueue retry"))
    else ok (q ++ (e ∷ []))

-- `u32::saturating_add`.
abbrev pub saturating_add32 : ℕ → ℕ → ℕ
saturating_add32 a b = min (a + b) (2 ^ 32 - 1)

-- `LIMIT n` with `n as i64`: from 2 ^ 63 on the number is negative, and SQLite returns all rows.
abbrev pub limit_rows {ℓ} : {A : Type ℓ} → ℕ → List A → List A
limit_rows n xs = if ltb n (2 ^ 63) then take n xs else xs

-- `ORDER BY sequence_id ASC, next_attempt_at ASC`.
abbrev pub poll_le : RetryEntry → RetryEntry → Bool
poll_le a b =
    ltb a.sequence_id b.sequence_id
    || (a.sequence_id == b.sequence_id && leb a.next_attempt_at b.next_attempt_at)

unfoldable pub poll_due : Time → ℕ → Queue → List RetryEntry
poll_due now limit q = limit_rows limit (sort_by poll_le (keep (λ e. leb e.next_attempt_at now) q))

unfoldable pub record_success : ℕ → Queue → Bool × Queue
record_success id q = (any (λ e. e.id == id) q, Table.delete entry_id id q)

unfoldable pub len : Queue → ℕ
len q = length q

unfoldable pub get : ℕ → Queue → Option RetryEntry
get id q = Table.select entry_id id q

module _ (F : F64) where
  unfoldable pub enqueue : ℕ → Time → F.Carrier → NewRetry → Queue → Result (ℕ × Queue)
  enqueue fresh now factor new q = elim (compute_next_attempt F 0 now factor) [
    | none ↦ panicked
    | some next_at ↦ insert_row (new_entry fresh new now next_at) q >>= λ q'. ok (fresh, q')
  ]

  -- What the two branches of `record_failure` do with the entry that was read.
  unfoldable pub fail_entry :
      RetryEntry → Text → Bool → Time → F.Carrier → Queue → Result (FailureOutcome × Queue)
  fail_entry e truncated is_permanent now factor q =
      let new_attempts = saturating_add32 e.attempts_made 1 in
      if is_permanent || leb max_attempts new_attempts
      then ok (
        dead_letter (record e { attempts_made = new_attempts; last_error = some truncated })
            truncated (if is_permanent then permanent else attempts_exhausted),
        Table.delete entry_id e.id q,
      )
      else elim (compute_next_attempt F new_attempts now factor) [
        | none ↦ panicked
        | some next_at ↦ ok (
          rescheduled new_attempts next_at,
          Table.update entry_id e.id
              (λ r. record r {
                attempts_made = new_attempts;
                next_attempt_at = next_at;
                last_error = some truncated;
              })
              q,
        )
      ]

  -- `id` is the id that was asked for, and so that of the entry.
  unfoldable pub record_failure :
      ℕ → Text → Bool → Time → F.Carrier → Queue → Result (FailureOutcome × Queue)
  unfolding fail_entry truncate_utf8
  record_failure id error is_permanent now factor q =
      let truncated = truncate_utf8 error last_error_max_bytes in
      elim (Table.select entry_id id q) [
        | none ↦ err (not_found (codes "retry_queue entry not found"))
        | some e ↦ fail_entry e truncated is_permanent now factor q
      ]
