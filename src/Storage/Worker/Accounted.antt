-- ===== src/Storage/Worker/Accounted.antt =====
-- What becomes of the entry that the worker has taken.
use agent_memory_vault.Base.{
  ◌+◌, ◌≡◌, inl, inr, refl, sym, ◌∙◌, subst, false, none, some, List, [], ◌∷◌, ◌++◌, ◌==◌, any, All,
  List-cases,
}
use agent_memory_vault.Base.Table
use agent_memory_vault.Core.Text.{Text}
use agent_memory_vault.Core.Error.{VaultError, Result, ok, err, panicked, Result-cases}
use agent_memory_vault.Core.Memory.{Time}
use agent_memory_vault.Storage.Backoff.{F64, is_permanent}
use agent_memory_vault.Storage.Queue.{
  Queue, RetryEntry, FailureOutcome, DeadLetterReason, entry_id, poll_due, record_success,
  record_failure, last_error_max_bytes,
}
use agent_memory_vault.Storage.Queue.Invariant as Queued
use agent_memory_vault.Storage.Queue.Invariant.{record_success-IsValid}
use agent_memory_vault.Storage.Queue.Polling.{poll_due-select}
use agent_memory_vault.Storage.Queue.Retries.{
  Recorded, gives_up, tries_again, record_failure-Recorded,
}
use agent_memory_vault.Storage.Truncate.{truncate_utf8}
use agent_memory_vault.Storage.DeadLetter.{DeadLetterEntry, Letters}
use agent_memory_vault.Storage.DeadLetter.Terminal.{insert_new}
use agent_memory_vault.Storage.Audit.Chain.{Encoding}
use agent_memory_vault.Storage.Cascade.{Codec, Draws}
use agent_memory_vault.Storage.Cascade.Rows.{append-cases}
use agent_memory_vault.Storage.Worker.{
  VectorStore, World, StepResult, Reading, run_cascade, write_dead_letter, dead_letter_event,
  after_letter, dead_lettered, step_failed, step_entry, step_at,
}

-- A failed entry is in the queue, with one attempt more, or it is a dead letter that is unresolved.
pub data Kept {S : Type 0} (e : RetryEntry) (w : World S) : Type 0 where
  waits :
      (e' : RetryEntry)
      → Table.select entry_id e.id w.tables.queue ≡ some e'
      → e'.attempts_made ≡ e.attempts_made + 1
      → Kept e w
  buried :
      (rest : Letters) (l : DeadLetterEntry)
      → Table.select entry_id e.id w.tables.queue ≡ none
      → w.letters ≡ rest ++ (l ∷ [])
      → l.memory_id ≡ e.memory_id
      → l.failed_operation ≡ e.operation
      → l.attempts_made ≡ e.attempts_made + 1
      → l.resolution ≡ none
      → Kept e w

module _ (F : F64) (E : Encoding) (K : Codec) (R : Reading) {S : Type 0} (V : VectorStore S) where
  -- The row of `write_dead_letter` is there, whatever becomes of the audit event.
  write_dead_letter-Kept :
      (D : Draws) (e dead : RetryEntry) (last_error : Text) (reason : DeadLetterReason)
      (w : World S)
      → any (λ l. l.id == D.uuid 0) w.letters ≡ false
      → dead.memory_id ≡ e.memory_id
      → dead.operation ≡ e.operation
      → dead.attempts_made ≡ e.attempts_made + 1
      → Table.select entry_id e.id w.tables.queue ≡ none
      → Kept e (write_dead_letter F E K R V D dead last_error reason w).1
  unfolding write_dead_letter
  write_dead_letter-Kept D e dead last_error reason w fresh m op n gone =
      let (l, filed, lm, lop, ln, open_) =
        insert_new (D.uuid 0)
          (record {
            memory_id = dead.memory_id;
            failed_operation = dead.operation;
            failure_reason = last_error;
            attempts_made = dead.attempts_made;
            first_failed_at = dead.created_at;
            last_attempted_at = D.clock 0;
            payload_format_version = 1;
            payload = R.payload_value dead.payload;
          })
          w.letters fresh in
      elim (append-cases F E D 1 (dead_letter_event F E K R V dead last_error reason) w.tables) [
        | inl (why, h) ↦
            rw (filed, write_dead_letter, h)
              (buried w.letters l gone refl (lm ∙ m) (lop ∙ op) (ln ∙ n) open_)
        | inr (a, h, _) ↦
            rw (filed, write_dead_letter, h)
              (buried w.letters l gone refl (lm ∙ m) (lop ∙ op) (ln ∙ n) open_)
      ]

  after_letter_world :
      (s : StepResult) (r : Result (Unit {0})) (w : World S) → (after_letter F E K R V s r w).1 ≡ w
  after_letter_world s (ok _) w = refl
  after_letter_world s (err _) w = refl
  after_letter_world s panicked w = refl

  -- What the two outcomes of `record_failure` lead to.
  after_failure :
      (D : Draws) (now : Time) (factor : F.Carrier) (e : RetryEntry) (why : VaultError)
      (w : World S) (r : Result (FailureOutcome × Queue))
      → any (λ l. l.id == D.uuid 0) w.letters ≡ false
      → Recorded F e (R.error_text why) (is_permanent why) w.tables.queue r
      → record_failure F e.id (R.error_text why) (is_permanent why) now factor w.tables.queue ≡ r
      → Kept e (step_failed F E K R V D now factor e why w).1
  unfolding step_failed
  after_failure D now factor e why w r fresh (gives_up reason q' _ _ gone) h =
      let w' : World S = record w { tables = record w.tables { queue = q' } } in
      let why' = truncate_utf8 (R.error_text why) last_error_max_bytes in
      let dead : RetryEntry = record e {
        attempts_made = e.attempts_made + 1;
        last_error = some why';
      } in
      let d = write_dead_letter F E K R V D dead why' reason w' in
      rw (h, step_failed)
        (subst (Kept e) (sym (after_letter_world (dead_lettered e.id reason) d.0 d.1))
          (write_dead_letter-Kept D e dead why' reason w' fresh refl refl refl gone))
  after_failure D now factor e why w r fresh (tries_again next_at q' _ _ there) h =
      rw (h, step_failed) (waits _ there refl)

  -- What one step makes of the world, by the entry that it has polled.
  pub data Accounted (polled_at : Time) (w : World S) : World S → Type 0 where
    nothing : poll_due polled_at 1 w.tables.queue ≡ [] → Accounted polled_at w w
    applied :
        (e : RetryEntry) (rest : List RetryEntry) (s : S)
        → poll_due polled_at 1 w.tables.queue ≡ e ∷ rest
        → run_cascade F E K R V e w.vectors ≡ ok s
        → Table.select entry_id e.id (record_success e.id w.tables.queue).1 ≡ none
        → Accounted polled_at w (record w {
          tables = record w.tables { queue = (record_success e.id w.tables.queue).1 };
          vectors = s;
        })
    kept :
        (e : RetryEntry) (rest : List RetryEntry) (why : VaultError) (w' : World S)
        → poll_due polled_at 1 w.tables.queue ≡ e ∷ rest
        → run_cascade F E K R V e w.vectors ≡ err why
        → Kept e w'
        → Accounted polled_at w w'
    crashed :
        (e : RetryEntry) (rest : List RetryEntry)
        → poll_due polled_at 1 w.tables.queue ≡ e ∷ rest
        → run_cascade F E K R V e w.vectors ≡ panicked
        → Accounted polled_at w w

  step_entry-Accounted :
      (polled_at : Time) (D : Draws) (now : Time) (factor : F.Carrier) (e : RetryEntry)
      (rest : List RetryEntry) (w : World S)
      → Queued.IsValid w.tables.queue
      → any (λ l. l.id == D.uuid 0) w.letters ≡ false
      → poll_due polled_at 1 w.tables.queue ≡ e ∷ rest
      → Table.select entry_id e.id w.tables.queue ≡ some e
      → Accounted polled_at w (step_entry F E K R V D now factor e w).1
  unfolding step_entry
  step_entry-Accounted polled_at D now factor e rest w v fresh polled found =
      elim (Result-cases (run_cascade F E K R V e w.vectors)) [
        | inl (s, h) ↦
            rw (h, step_entry)
              (applied e rest s polled h (record_success-IsValid e.id w.tables.queue v).1)
        | inr (inl (why, h)) ↦
            rw (h, step_entry)
              (kept e rest why _ polled h (
                after_failure D now factor e why w _ fresh
                  (record_failure-Recorded F e (R.error_text why) (is_permanent why) now factor
                    w.tables.queue v found)
                  refl))
        | inr (inr h) ↦ rw (h, step_entry) (crashed e rest polled h)
      ]

  -- On a valid queue, where the id that the worker draws for a dead letter is not in use: when nothing
  -- is due a step changes nothing; otherwise it takes the entry that `poll_due` returns. A cascade that
  -- succeeds has changed the vector store, and its entry has left the queue; an entry whose cascade
  -- fails is in the queue with one attempt more, or is an unresolved dead letter, also where the step
  -- ends in an error. A vector store that panics leaves all as it was.
  pub step_at-Accounted :
      (polled_at : Time) (D : Draws) (now : Time) (factor : F.Carrier) (w : World S)
      → Queued.IsValid w.tables.queue
      → any (λ l. l.id == D.uuid 0) w.letters ≡ false
      → Accounted polled_at w (step_at F E K R V polled_at D now factor w).1
  unfolding step_at
  step_at-Accounted polled_at D now factor w v fresh =
      elim (List-cases (poll_due polled_at 1 w.tables.queue)) [
        | inl none_due ↦ rw (none_due, step_at) (nothing none_due)
        | inr (e, rest, polled) ↦
            let rows =
              subst (All (λ x. Table.select entry_id x.id w.tables.queue ≡ some x)) polled
                (poll_due-select polled_at 1 w.tables.queue v.keyed) in
            rw (polled, step_at)
              (step_entry-Accounted polled_at D now factor e rest w v fresh polled rows.0)
      ]
