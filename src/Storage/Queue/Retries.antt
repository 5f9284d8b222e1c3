-- ===== src/Storage/Queue/Retries.antt =====
-- The life of one entry under repeated failures: it stays, with one attempt more, or it leaves for
-- the dead letters, and it cannot fail more than `max_attempts` times.
use agent_memory_vault.Base.{
  ℕ, ◌+◌, ◌<◌, ◌≤◌, ◌≡◌, refl, sym, subst, Bool, true, false, ◌||◌, none, some, List, [], ◌∷◌, ◌⊎◌,
  inl, inr, arith, leb, if◌then◌else◌, Bool-cases, length,
}
use agent_memory_vault.Base.Table
use agent_memory_vault.Base.Table.Rows.{All-select}
use agent_memory_vault.Core.Text.{Text}
use agent_memory_vault.Core.Error.{Result, ok, err, panicked}
use agent_memory_vault.Core.Memory.{Time}
use agent_memory_vault.Storage.Backoff.{F64, max_attempts, compute_next_attempt}
use agent_memory_vault.Storage.Backoff.Bounds.{compute_next_attempt-some}
use agent_memory_vault.Storage.Truncate.{truncate_utf8}
use agent_memory_vault.Storage.Queue.{
  RetryEntry, Queue, FailureOutcome, rescheduled, dead_letter, DeadLetterReason, permanent,
  attempts_exhausted, entry_id, saturating_add32, fail_entry, record_failure, last_error_max_bytes,
}
use agent_memory_vault.Storage.Queue.Invariant.{IsValid, record_failure-IsValid, Leaves}

module _ (F : F64) where
  -- What a failure does to the entry that it is recorded for, by its classification.
  pub data Recorded (e : RetryEntry) (why : Text) (is_permanent : Bool) (q : Queue)
      : Result (FailureOutcome × Queue) → Type 0 where
    gives_up :
        (reason : DeadLetterReason) (q' : Queue)
        → (is_permanent ≡ true) ⊎ (max_attempts ≤ e.attempts_made + 1)
        → reason ≡ (if is_permanent then permanent else attempts_exhausted)
        → Table.select entry_id e.id q' ≡ none
        → Recorded e why is_permanent q (
            ok (
              dead_letter
                  (record e {
                    attempts_made = e.attempts_made + 1;
                    last_error = some (truncate_utf8 why last_error_max_bytes);
                  })
                  (truncate_utf8 why last_error_max_bytes)
                  reason,
              q',
            ))
    tries_again :
        (next_at : Time) (q' : Queue)
        → is_permanent ≡ false
        → e.attempts_made + 1 < max_attempts
        → Table.select entry_id e.id q'
          ≡ some (record e {
            attempts_made = e.attempts_made + 1;
            next_attempt_at = next_at;
            last_error = some (truncate_utf8 why last_error_max_bytes);
          })
        → Recorded e why is_permanent q (ok (rescheduled (e.attempts_made + 1) next_at, q'))

  fail_entry_again :
      (e : RetryEntry) (why : Text) (is_permanent : Bool) (now : Time) (factor : F.Carrier)
      (q : Queue) (next_at : Time)
      → Table.select entry_id e.id q ≡ some e
      → (is_permanent || leb max_attempts (saturating_add32 e.attempts_made 1)) ≡ false
      → compute_next_attempt F (saturating_add32 e.attempts_made 1) now factor ≡ some next_at
      → Recorded e why is_permanent q
          (fail_entry F e (truncate_utf8 why last_error_max_bytes) is_permanent now factor q)
  unfolding fail_entry
  fail_entry_again e why is_permanent now factor q next_at found more n =
      let step : saturating_add32 e.attempts_made 1 ≡ e.attempts_made + 1 = ground arith in
      rw (more, fail_entry, n, step)
        (tries_again next_at _ (ground arith) (ground arith) (
          Table.select-update_self entry_id
            (λ r. record r {
              attempts_made = e.attempts_made + 1;
              next_attempt_at = next_at;
              last_error = some (truncate_utf8 why last_error_max_bytes);
            })
            (λ r. refl) e.id q {x = e} found))

  fail_entry-Recorded :
      (e : RetryEntry) (why : Text) (is_permanent : Bool) (now : Time) (factor : F.Carrier)
      (q : Queue)
      → Table.select entry_id e.id q ≡ some e
      → e.attempts_made < max_attempts
      → Recorded e why is_permanent q
          (fail_entry F e (truncate_utf8 why last_error_max_bytes) is_permanent now factor q)
  unfolding fail_entry
  fail_entry-Recorded e why is_permanent now factor q found h =
      let step : saturating_add32 e.attempts_made 1 ≡ e.attempts_made + 1 = omega arith in
      elim (Bool-cases (is_permanent || leb max_attempts (saturating_add32 e.attempts_made 1))) [
        | inl over ↦
            rw (over, fail_entry, step)
              (gives_up _ (Table.delete entry_id e.id q) (ground arith) refl
                (Table.select-delete_self entry_id e.id q))
        | inr more ↦
            let next =
              compute_next_attempt-some F (saturating_add32 e.attempts_made 1) now factor
                (ground arith) in
            fail_entry_again e why is_permanent now factor q next.0 found more next.1
      ]

  -- A failure of an entry of a valid queue takes it out of the queue, for the caller to write it to
  -- the dead letters, where the failure is permanent or was the last attempt allowed; otherwise the
  -- entry stays, with one attempt more. The reason and the error are those of this failure.
  pub record_failure-Recorded :
      (e : RetryEntry) (why : Text) (is_permanent : Bool) (now : Time) (factor : F.Carrier)
      (q : Queue)
      → IsValid q
      → Table.select entry_id e.id q ≡ some e
      → Recorded e why is_permanent q (record_failure F e.id why is_permanent now factor q)
  unfolding record_failure
  record_failure-Recorded e why is_permanent now factor q v found =
      rw (found, record_failure)
        (fail_entry-Recorded e why is_permanent now factor q found (
          All-select entry_id (λ x. x.attempts_made < max_attempts) e.id q {x = e} v.counted found))

  pub record Failure : Type 0 where
    pub why : Text
    pub is_permanent : Bool
    pub now : Time
    pub factor : F.Carrier

  abbrev queue_after : Result (FailureOutcome × Queue) → Queue → Queue
  queue_after (ok r) q = r.1
  queue_after (err _) q = q
  queue_after panicked q = q

  -- The failures of one entry, one after another.
  pub fail_all : ℕ → List Failure → Queue → Queue
  fail_all id [] q = q
  fail_all id (f ∷ fs) q =
      fail_all id fs (queue_after (record_failure F id f.why f.is_permanent f.now f.factor q) q)

  queue_after-IsValid :
      (r : Result (FailureOutcome × Queue)) (q : Queue)
      → Leaves IsValid r
      → IsValid q
      → IsValid (queue_after r q)
  queue_after-IsValid (ok r) q h v = h
  queue_after-IsValid (err _) q h v = v
  queue_after-IsValid panicked q h v = absurd h

  -- The entry has left, or is there with one attempt more.
  Recorded-cases :
      (e : RetryEntry) (why : Text) (is_permanent : Bool) (q : Queue)
      (r : Result (FailureOutcome × Queue))
      → Recorded e why is_permanent q r
      → (Table.select entry_id e.id (queue_after r q) ≡ none)
        ⊎ ((e' : RetryEntry) × (Table.select entry_id e.id (queue_after r q) ≡ some e')
            × (e'.id ≡ e.id)
            × (e'.attempts_made ≡ e.attempts_made + 1))
  Recorded-cases e why is_permanent q r (gives_up reason q' _ _ gone) = inl gone
  Recorded-cases e why is_permanent q r (tries_again next_at q' _ _ there) =
      inr (_, there, refl, refl)

  fail_all_gone :
      (id : ℕ) (fs : List Failure) (q : Queue)
      → Table.select entry_id id q ≡ none
      → Table.select entry_id id (fail_all id fs q) ≡ none
  unfolding fail_all
  fail_all_gone id [] q h = h
  fail_all_gone id (f ∷ fs) q h =
      fail_all_gone id fs _ (unfold record_failure in rw (h, record_failure) h)

  -- However its failures are classified, an entry of a valid queue is gone from the queue once it
  -- has failed as often as it has attempts left.
  pub failures_end :
      (fs : List Failure) (id : ℕ) (q : Queue) {e : RetryEntry}
      → IsValid q
      → Table.select entry_id id q ≡ some e
      → max_attempts ≤ e.attempts_made + length fs
      → Table.select entry_id id (fail_all id fs q) ≡ none
  unfolding fail_all
  failures_end [] id q {e = e} v found h = absurd (
      omega (
        arith,
        All-select entry_id (λ x. x.attempts_made < max_attempts) id q {x = e} v.counted found,
      ))
  failures_end (f ∷ fs) id q {e = e} v found h =
      let same : e.id ≡ id = Table.key-select entry_id id q {x = e} found in
      let found' : Table.select entry_id e.id q ≡ some e =
        subst (λ k. Table.select entry_id k q ≡ some e) (sym same) found in
      let r = record_failure F id f.why f.is_permanent f.now f.factor q in
      let recorded : Recorded e f.why f.is_permanent q r =
        subst
          (λ k.
            Recorded e f.why f.is_permanent q
              (record_failure F k f.why f.is_permanent f.now f.factor q))
          same (record_failure-Recorded e f.why f.is_permanent f.now f.factor q v found') in
      let v' : IsValid (queue_after r q) =
        queue_after-IsValid r q
          (record_failure-IsValid F id f.why f.is_permanent f.now f.factor q v) v in
      elim (Recorded-cases e f.why f.is_permanent q r recorded) [
        | inl gone ↦
            fail_all_gone id fs (queue_after r q)
              (subst (λ k. Table.select entry_id k (queue_after r q) ≡ none) same gone)
        | inr (e', there, same_id, more) ↦
            failures_end fs id (queue_after r q) {e = e'} v'
              (subst (λ k. Table.select entry_id k (queue_after r q) ≡ some e') same there)
              (omega arith)
      ]
