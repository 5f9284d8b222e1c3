-- ===== src/Storage/Worker.antt =====
-- The retry worker (crates/vault-storage/src/retry_worker.rs). The vector store is a parameter: its
-- `upsert` and `delete` as functions on its state. The fault injector of the tests is left out.
pub mod Accounted
pub mod Drain
use agent_memory_vault.Base.{
  ℕ, suc, ◌+◌, Bool, true, false, Option, none, some, List, [], ◌∷◌, ◌++◌, leb, ◌==◌, if◌then◌else◌,
  length,
}
use agent_memory_vault.Core.Text.{Text, codes}
use agent_memory_vault.Core.Float.{F32}
use agent_memory_vault.Core.Json.{Value}
use agent_memory_vault.Core.Error.{VaultError, Result, ok, err, panicked, ◌>>=◌, storage}
use agent_memory_vault.Core.Boundary
use agent_memory_vault.Core.Memory.{MemoryId, Time}
use agent_memory_vault.Storage.Backoff.{F64, is_permanent}
use agent_memory_vault.Storage.Queue
use agent_memory_vault.Storage.Queue.{
  RetryEntry, FailureOutcome, rescheduled, dead_letter, DeadLetterReason, permanent,
  attempts_exhausted, poll_due, record_success, record_failure,
}
use agent_memory_vault.Storage.DeadLetter
use agent_memory_vault.Storage.DeadLetter.{Letters, NewDeadLetter}
use agent_memory_vault.Storage.Audit.{
  PendingAuditEvent, successful, failed, with_resource, with_details_json, cascade_dead_letter,
  system,
}
use agent_memory_vault.Storage.Audit.Chain.{Encoding}
use agent_memory_vault.Storage.Cascade.{Codec, CascadePayload, Draws, Tables, append}

-- The vector store as the worker calls it.
pub record VectorStore (S : Type 0) : Type 0 where
  pub upsert : MemoryId → List F32 → Text → S → Result S
  pub delete : MemoryId → S → Result S

-- What the worker changes: the tables of the backend, the dead letters and the vector store.
pub record World (S : Type 0) : Type 0 where
  pub tables : Tables
  pub letters : Letters
  pub vectors : S

pub data StepResult : Type 0 where
  idle : StepResult
  succeeded_entry : ℕ → ℕ → StepResult
  rescheduled_entry : ℕ → Time → StepResult
  dead_lettered : ℕ → DeadLetterReason → StepResult

-- `error_text` is what `err.to_string()` gives; `payload_value` reads the BLOB of a row as JSON.
pub record Reading : Type 0 where
  pub error_text : VaultError → Text
  pub payload_value : Text → Value

module _ (F : F64) (E : Encoding) (K : Codec) (R : Reading) {S : Type 0} (V : VectorStore S) where
  unfoldable pub run_cascade : RetryEntry → S → Result S
  run_cascade entry s = elim (K.decode entry.payload) [
    | none ↦ err (storage (codes "decode cascade payload"))
    | some payload ↦ elim entry.operation [
      | Queue.delete ↦ V.delete entry.memory_id s
      | _ ↦ elim (Boundary.new payload.boundary) [
        | ok boundary ↦ V.upsert entry.memory_id payload.embedding boundary s
        | err _ ↦ err (storage (codes "payload boundary invalid"))
        | panicked ↦ panicked
      ]
    ]
  ]

  abbrev pub reason_str : DeadLetterReason → Text
  reason_str attempts_exhausted = codes "attempts_exhausted"
  reason_str permanent = codes "permanent"

  abbrev pub dead_letter_event : RetryEntry → Text → DeadLetterReason → PendingAuditEvent
  dead_letter_event entry last_error reason =
      with_details_json
        (codes "{\"reason\":\""
          ++ reason_str reason
          ++ codes "\",\"operation\":\""
          ++ Queue.as_str entry.operation
          ++ codes "\",\"attempts_made\":"
          ++ K.u32_text entry.attempts_made
          ++ codes ",\"last_error\":"
          ++ K.json_string last_error
          ++ codes "}")
        (with_resource (codes "memory") (E.uuid_text entry.memory_id)
          (failed (successful cascade_dead_letter system)))

  -- The row, and then the event; each is a transaction of its own. `D` draws the time and the ids.
  unfoldable pub write_dead_letter :
      Draws → RetryEntry → Text → DeadLetterReason → World S → Result (Unit {0}) × World S
  write_dead_letter D entry last_error reason w =
      let new : NewDeadLetter = record {
        memory_id = entry.memory_id;
        failed_operation = entry.operation;
        failure_reason = last_error;
        attempts_made = entry.attempts_made;
        first_failed_at = entry.created_at;
        last_attempted_at = D.clock 0;
        payload_format_version = 1;
        payload = R.payload_value entry.payload;
      } in
      elim (DeadLetter.insert (D.uuid 0) new w.letters) [
        | err e ↦ (err e, w)
        | panicked ↦ (panicked, w)
        | ok l ↦
            let w' : World S = record w { letters = l.1 } in
            elim (append F E D 1 (dead_letter_event entry last_error reason) w'.tables) [
              | ok a ↦ (ok tt, record w' { tables = a.1 })
              | err e ↦ (err e, w')
              | panicked ↦ (panicked, w')
            ]
      ]

  -- The `?` behind the call of `write_dead_letter`.
  abbrev pub after_letter : StepResult → Result (Unit {0}) → World S → Result StepResult × World S
  after_letter s (ok _) w = (ok s, w)
  after_letter s (err e) w = (err e, w)
  after_letter s panicked w = (panicked, w)

  -- What follows a cascade that failed with `why`: `now` is the clock of `record_failure`, `factor`
  -- its jitter.
  unfoldable pub step_failed :
      Draws → Time → F.Carrier → RetryEntry → VaultError → World S → Result StepResult × World S
  unfolding write_dead_letter
  step_failed D now factor entry why w =
      elim (record_failure F entry.id (R.error_text why) (is_permanent why) now factor
        w.tables.queue) [
          | err e ↦ (err e, w)
          | panicked ↦ (panicked, w)
          | ok r ↦
              let w' : World S = record w { tables = record w.tables { queue = r.1 } } in
              elim r.0 [
                | rescheduled _ next_at ↦ (ok (rescheduled_entry entry.id next_at), w')
                | dead_letter dead last_error reason ↦
                    let d = write_dead_letter D dead last_error reason w' in
                    after_letter (dead_lettered entry.id reason) d.0 d.1
              ]
        ]

  -- What `step_at` does with the entry that it has polled. A vector store whose call fails is as it
  -- was: the calls are atomic.
  unfoldable pub step_entry :
      Draws → Time → F.Carrier → RetryEntry → World S → Result StepResult × World S
  unfolding run_cascade step_failed record_success
  step_entry D now factor entry w = elim (run_cascade entry w.vectors) [
    | ok s ↦ (
      ok (succeeded_entry entry.id (entry.attempts_made + 1)),
      record w {
        tables = record w.tables { queue = (record_success entry.id w.tables.queue).1 };
        vectors = s;
      },
    )
    | err why ↦ step_failed D now factor entry why w
    | panicked ↦ (panicked, w)
  ]

  -- One step of the worker; `polled_at` is the time that it polls with.
  unfoldable pub step_at : Time → Draws → Time → F.Carrier → World S → Result StepResult × World S
  unfolding step_entry poll_due
  step_at polled_at D now factor w = elim (poll_due polled_at 1 w.tables.queue) [
    | [] ↦ (ok idle, w)
    | entry ∷ _ ↦ step_entry D now factor entry w
  ]
