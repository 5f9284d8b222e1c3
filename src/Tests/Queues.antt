-- ===== src/Tests/Queues.antt =====
-- The retry queue's theorems at concrete inputs.
use agent_memory_vault.Base.{
  ℕ, ◌+◌, ◌*◌, ◌≤◌, ◌<◌, ◌≡◌, ◌≢◌, ◌↔◌, ◌⊎◌, refl, false, none, some, [], ◌∷◌, arith, All, length,
  keep, leb,
}
use mathlib.Core.List.{Perm}
use agent_memory_vault.Base.Sort.{IsSorted}
use agent_memory_vault.Base.Table
use agent_memory_vault.Core.Text.{Text, codes}
use agent_memory_vault.Core.Memory.{Time, milliseconds}
use agent_memory_vault.Storage.Backoff.{base_backoff_secs, compute_next_attempt, max_attempts}
use agent_memory_vault.Storage.Backoff.Bounds.{
  compute_next_attempt_jitter, compute_next_attempt_iff,
}
use agent_memory_vault.Storage.Queue
use agent_memory_vault.Storage.Queue.{
  Queue, RetryEntry, NewRetry, poll_due, poll_le, record_success, record_failure, entry_id, enqueue,
}
use agent_memory_vault.Storage.Queue.Invariant.{
  IsValid, Leaves, enqueue-IsValid, record_failure-IsValid,
}
use agent_memory_vault.Storage.Queue.Success.{Removed, record_success-Removed}
use agent_memory_vault.Storage.Queue.Polling.{poll_due-IsSorted, poll_due-perm, poll_due-least}
use agent_memory_vault.Storage.Queue.Retries.{
  Recorded, record_failure-Recorded, Failure, fail_all, failures_end,
}
use agent_memory_vault.Tests.Float64.{pos, neg, fixed, fixed-IsIeee, fixed-IsNumber}

-- "aé" and U+1F600: one byte, two and four.
abbrev short_text : Text
short_text = 97 ∷ 0xc3 ∷ 0xa9 ∷ 0xf0 ∷ 0x9f ∷ 0x98 ∷ 0x80 ∷ []

compute_next_attempt_jitter_example :
    (t : Time) × (compute_next_attempt fixed 2 500 (pos 2) ≡ some t)
    × (500 + milliseconds (750 * 4) ≤ t)
    × (t ≤ 500 + milliseconds (1250 * 4))
unfolding base_backoff_secs
compute_next_attempt_jitter_example =
    compute_next_attempt_jitter fixed fixed-IsIeee 2 4 500 (pos 2) refl (fixed-IsNumber (pos 2))

compute_next_attempt_iff_example :
    (compute_next_attempt fixed 7 0 (neg 1) ≢ none) ↔ (7 < max_attempts)
compute_next_attempt_iff_example = compute_next_attempt_iff fixed 7 0 (neg 1)

abbrev entry : ℕ → ℕ → ℕ → Time → RetryEntry
entry id sequence_id attempts_made next_attempt_at = record {
  id = id;
  memory_id = 7;
  operation = Queue.write;
  payload_format_version = 1;
  payload = codes "{}";
  sequence_id = sequence_id;
  attempts_made = attempts_made;
  next_attempt_at = next_attempt_at;
  created_at = 0;
  last_error = none;
}

abbrev two_entries : Queue
two_entries = entry 1 10 0 50 ∷ entry 2 11 7 20 ∷ []

abbrev two_entries-IsValid : IsValid two_entries
two_entries-IsValid = record {
  keyed = (refl, (refl, tt));
  anchored = (refl, (refl, tt));
  counted = (omega arith, (omega arith, tt));
}

abbrev new_retry : NewRetry
new_retry = record {
  memory_id = 7;
  operation = Queue.update;
  sequence_id = 12;
  payload = codes "{}";
}

enqueue-IsValid_example : Leaves IsValid (enqueue fixed 3 100 (pos 0) new_retry two_entries)
enqueue-IsValid_example =
    enqueue-IsValid fixed 3 100 (pos 0) new_retry two_entries two_entries-IsValid

record_failure-IsValid_example :
    Leaves IsValid (record_failure fixed 1 (codes "down") false 100 (pos 0) two_entries)
record_failure-IsValid_example =
    record_failure-IsValid fixed 1 (codes "down") false 100 (pos 0) two_entries two_entries-IsValid

record_success-Removed_example :
    Removed 1 two_entries (record_success 1 two_entries)
    × IsValid (record_success 1 two_entries).1
    × ((◌≡◌ {A = ℕ} 2 1)
        ⊎ (Table.select entry_id 2 (record_success 1 two_entries).1
            ≡ Table.select entry_id 2 two_entries))
record_success-Removed_example = record_success-Removed 1 2 two_entries two_entries-IsValid

poll_due-IsSorted_example :
    All (λ e. e.next_attempt_at ≤ 60) (poll_due 60 5 two_entries)
    × IsSorted poll_le (poll_due 60 5 two_entries)
    × (length (poll_due 60 5 two_entries) ≤ 5)
poll_due-IsSorted_example = poll_due-IsSorted 60 5 two_entries (omega arith)

poll_due-perm_example :
    Perm (poll_due 60 2 two_entries) (keep (λ e. leb e.next_attempt_at 60) two_entries)
poll_due-perm_example = poll_due-perm 60 2 two_entries (omega arith) (omega arith)

poll_due-least_example :
    All (λ x. 10 ≤ x.sequence_id) (keep (λ x. leb x.next_attempt_at 60) two_entries)
unfolding poll_due
poll_due-least_example = poll_due-least 60 1 two_entries {e = entry 1 10 0 50} {rest = []} refl

record_failure-Recorded_example :
    Recorded fixed
      (entry 2 11 7 20)
      (codes "down")
      false
      two_entries
      (record_failure fixed 2 (codes "down") false 100 (pos 0) two_entries)
record_failure-Recorded_example =
    record_failure-Recorded fixed (entry 2 11 7 20) (codes "down") false 100 (pos 0) two_entries
      two_entries-IsValid refl

abbrev failure : Failure fixed
failure = record { why = codes "down"; is_permanent = false; now = 100; factor = pos 0 }

failures_end_example : Table.select entry_id 2 (fail_all fixed 2 (failure ∷ []) two_entries) ≡ none
failures_end_example =
    failures_end fixed (failure ∷ []) 2 two_entries {e = entry 2 11 7 20} two_entries-IsValid refl
      (omega arith)
