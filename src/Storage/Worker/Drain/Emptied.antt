-- ===== src/Storage/Worker/Drain/Emptied.antt =====
-- The drain empties the queue where the vector store answers and the budget is enough.
use agent_memory_vault.Base.{
  ℕ, zero, suc, ◌+◌, ◌-◌, ◌≤◌, ◌<◌, ◌≡◌, refl, ap, subst, arith, false, some, List, [], ◌∷◌, leb,
  ◌==◌, All, keep, take, length, length-take, Bool-cases, List-cases, inl, inr, ltb,
}
use agent_memory_vault.Base.Sort.{sort_by, length-sort_by}
use agent_memory_vault.Base.Table
use agent_memory_vault.Base.Table.Rows.{All-delete, select-All}
use agent_memory_vault.Core.Text.{Text}
use agent_memory_vault.Core.Float.{F32}
use agent_memory_vault.Core.Boundary
use agent_memory_vault.Core.Error.{Result, ok}
use agent_memory_vault.Core.Memory.{MemoryId, Time}
use agent_memory_vault.Storage.Backoff.{F64}
use agent_memory_vault.Storage.Queue
use agent_memory_vault.Storage.Queue.{
  CascadeOperation, Queue, RetryEntry, entry_id, poll_due, poll_le, limit_rows, len, record_success,
}
use agent_memory_vault.Storage.Queue.Invariant as Queued
use agent_memory_vault.Storage.Queue.Invariant.{record_success-IsValid}
use agent_memory_vault.Storage.Queue.Polling.{poll_due-select}
use agent_memory_vault.Storage.Audit.Chain.{Encoding}
use agent_memory_vault.Storage.Cascade.{Codec, CascadePayload, Draws}
use agent_memory_vault.Storage.Worker.{
  VectorStore, World, StepResult, Reading, run_cascade, step_entry, step_at, idle, succeeded_entry,
}
use agent_memory_vault.Storage.Worker.Drain.{Rounds, Drained, emptied, after_step, drain}

keep_all :
    (now : Time) (q : Queue)
    → All (λ e. e.next_attempt_at ≤ now) q
    → keep (λ e. leb e.next_attempt_at now) q ≡ q
keep_all now [] h = refl
keep_all now (e ∷ q) h = ground (arith, keep_all now q h.1, h.0)

-- Where all entries are due, and there is one, a poll finds one.
poll_due-some :
    (now : Time) (q : Queue)
    → All (λ e. e.next_attempt_at ≤ now) q
    → poll_due now 1 q ≡ []
    → length q ≡ 0
unfolding poll_due
poll_due-some now q h e =
    let all : take 1 (sort_by poll_le q) ≡ [] =
      subst (λ t. take 1 (sort_by poll_le t) ≡ []) (keep_all now q h) e in
    let none_left : length (take 1 (sort_by poll_le q)) ≡ 0 = ap length all in
    omega (arith, none_left, length-take 1 (sort_by poll_le q), length-sort_by poll_le q)

not_leb : (a b : ℕ) → b < a → leb a b ≡ false
not_leb a b h = ground arith

-- An entry that the vector store can take: its payload decodes, to a boundary that is valid.
pub record IsReady (K : Codec) (e : RetryEntry) : Type 0 where
  pub payload : CascadePayload
  pub decodes : K.decode e.payload ≡ some payload
  pub valid : Boundary.new payload.boundary ≡ ok payload.boundary

-- A vector store that answers every call.
pub record Answers {S : Type 0} (V : VectorStore S) : Type 0 where
  pub upserts :
      (m : MemoryId) (e : List F32) (b : Text) (s : S) → (s' : S) × (V.upsert m e b s ≡ ok s')
  pub deletes : (m : MemoryId) (s : S) → (s' : S) × (V.delete m s ≡ ok s')

module _ (F : F64) (E : Encoding) (K : Codec) (R : Reading) {S : Type 0} (V : VectorStore S) where
  ready-run_cascade :
      (e : RetryEntry) (s : S)
      → Answers V
      → IsReady K e
      → (s' : S) × (run_cascade F E K R V e s ≡ ok s')
  unfolding run_cascade
  ready-run_cascade e s answers ready = cascade (e.operation) refl
    where
      cascade :
          (op : CascadeOperation)
          → e.operation ≡ op
          → (s' : S) × (run_cascade F E K R V e s ≡ ok s')
      cascade Queue.delete o =
          let (s', h) = answers.deletes e.memory_id s in
          (s', rw (run_cascade, ready.decodes, o, h) refl)
      cascade Queue.write o =
          let (s', h) =
            answers.upserts e.memory_id ready.payload.embedding ready.payload.boundary s in
          (s', rw (run_cascade, ready.decodes, o, ready.valid, h) refl)
      cascade Queue.update o =
          let (s', h) =
            answers.upserts e.memory_id ready.payload.embedding ready.payload.boundary s in
          (s', rw (run_cascade, ready.decodes, o, ready.valid, h) refl)

  -- What a step leaves where everything in the queue is ready: nothing was due, or one entry less.
  data Stepped (polled_at : Time) (w : World S) : Result StepResult × World S → Type 0 where
    waited : poll_due polled_at 1 w.tables.queue ≡ [] → Stepped polled_at w (ok idle, w)
    worked :
        (e : RetryEntry) (n : ℕ) (s : S)
        → Table.select entry_id e.id w.tables.queue ≡ some e
        → Stepped polled_at w (
          ok (succeeded_entry e.id n),
          record w {
            tables = record w.tables { queue = Table.delete entry_id e.id w.tables.queue };
            vectors = s;
          },
        )

  step_at-Stepped :
      (polled_at : Time) (D : Draws) (now : Time) (factor : F.Carrier) (w : World S)
      → Answers V
      → Queued.IsValid w.tables.queue
      → All (IsReady K) w.tables.queue
      → Stepped polled_at w (step_at F E K R V polled_at D now factor w)
  unfolding step_at step_entry record_success
  step_at-Stepped polled_at D now factor w answers v ready =
      elim (List-cases (poll_due polled_at 1 w.tables.queue)) [
        | inl none_due ↦ rw (step_at, none_due) (waited none_due)
        | inr (e, rest, polled) ↦
            let found : Table.select entry_id e.id w.tables.queue ≡ some e =
              (subst (All (λ x. Table.select entry_id x.id w.tables.queue ≡ some x)) polled
                (poll_due-select polled_at 1 w.tables.queue v.keyed)).0 in
            let (s, h) =
              ready-run_cascade e w.vectors answers
                (select-All entry_id (IsReady K) e.id w.tables.queue {x = e} ready found) in
            rw (step_at, polled, step_entry, h) (worked e (e.attempts_made + 1) s found)
      ]

  -- Every entry is done, in one step each, and nothing else has changed.
  abbrev pub IsEmptied : World S → ℕ → Drained S → Type 0
  IsEmptied w completed d =
      (d.ended ≡ emptied)
      × (d.world.tables.queue ≡ [])
      × (d.completed ≡ completed + length w.tables.queue)
      × (d.world.letters ≡ w.letters)
      × (d.world.tables.memories ≡ w.tables.memories)
      × (d.world.tables.log ≡ w.tables.log)

  -- The rounds from the i-th on: all entries are due from round k on, and the deadline comes only
  -- after as many rounds as there is to wait and to do.
  pub record Enough (T : Rounds F) (deadline : Time) (k i : ℕ) (w : World S) : Type 0 where
    pub due : (j : ℕ) → k ≤ j → All (λ e. e.next_attempt_at ≤ T.polled_at j) w.tables.queue
    pub early : (j : ℕ) → i ≤ j → j < i + ((k - i) + length w.tables.queue) → T.instant j < deadline

  -- What the next rounds do, as the induction has it.
  abbrev NextRounds : (T : Rounds F) (deadline : Time) (k fuel : ℕ) → Type 0
  NextRounds T deadline k fuel =
      (i completed : ℕ) (w : World S)
      → Queued.IsValid w.tables.queue
      → All (IsReady K) w.tables.queue
      → Enough T deadline k i w
      → (k - i) + length w.tables.queue < fuel
      → IsEmptied w completed (drain F E K R V fuel T deadline i completed w)

  after_step-IsEmptied :
      (fuel : ℕ) (T : Rounds F) (deadline : Time) (k i completed : ℕ) (w : World S)
      (r : Result StepResult × World S)
      → NextRounds T deadline k fuel
      → Queued.IsValid w.tables.queue
      → All (IsReady K) w.tables.queue
      → Enough T deadline k i w
      → (k - i) + length w.tables.queue < suc fuel
      → 0 < length w.tables.queue
      → Stepped (T.polled_at i) w r
      → IsEmptied w completed
          (after_step F E K R V (drain F E K R V fuel T deadline (suc i)) completed r)
  unfolding after_step
  after_step-IsEmptied fuel T deadline k i completed w r ih v ready enough bound some_left
        (waited none_due) =
      let waits : i < k = elim (Bool-cases (ltb i k)) [
        | inl less ↦ ground arith
        | inr not_less ↦
            let nothing_left =
              poll_due-some (T.polled_at i) w.tables.queue (enough.due i (ground (arith, not_less)))
                none_due in
            absurd (omega (arith, nothing_left, some_left))
      ] in
      ih (suc i) completed w v ready
        (record {
          due = enough.due;
          early = λ j low high. enough.early j (omega arith) (omega (arith, waits, low, high));
        })
        (omega (arith, waits, bound))
  after_step-IsEmptied fuel T deadline k i completed w r ih v ready enough bound some_left
        (worked e n s found) =
      let q = w.tables.queue in
      let q' = Table.delete entry_id e.id q in
      let w' : World S = record w { tables = record w.tables { queue = q' }; vectors = s } in
      let shorter : suc (length q') ≡ length q =
        Table.length-delete entry_id e.id q {x = e} v.keyed found in
      let (ended, gone, count, letters, memories, log) =
        ih (suc i) (completed + 1) w' (Queued.delete-IsValid e.id q v)
          (All-delete entry_id (IsReady K) e.id q ready)
          (record {
            due = λ j h.
                All-delete entry_id (λ x. x.next_attempt_at ≤ T.polled_at j) e.id q
                  (enough.due j h);
            early = λ j low high. enough.early j (omega arith) (omega (arith, shorter, low, high));
          })
          (omega (arith, shorter, bound)) in
      (ended, gone, omega (arith, count, shorter), letters, memories, log)

  no_entries : (q : Queue) → length q ≡ 0 → q ≡ []
  no_entries [] h = refl
  no_entries (e ∷ q) h = absurd (omega (arith, h))

  -- On a valid queue of entries whose payloads decode, with a vector store that answers: where all
  -- entries are due from round k on and the deadline leaves k rounds and one for each entry, the
  -- drain ends, within that many rounds, with the queue empty. It has completed as many steps as
  -- there were entries; the memories, the audit log and the dead letters are as they were.
  pub drain-IsEmptied :
      (fuel : ℕ) (T : Rounds F) (deadline : Time) (k i completed : ℕ) (w : World S)
      → Answers V
      → Queued.IsValid w.tables.queue
      → All (IsReady K) w.tables.queue
      → Enough T deadline k i w
      → (k - i) + length w.tables.queue < fuel
      → IsEmptied w completed (drain F E K R V fuel T deadline i completed w)
  unfolding drain len
  drain-IsEmptied zero T deadline k i completed w answers v ready enough bound =
      absurd (omega (arith, bound))
  drain-IsEmptied (suc fuel) T deadline k i completed w answers v ready enough bound =
      elim (Bool-cases (length w.tables.queue == 0)) [
        | inl empty ↦
            let none_left : length w.tables.queue ≡ 0 = ground (arith, empty) in
            rw (drain, empty)
              (
                refl,
                no_entries w.tables.queue none_left,
                omega (arith, none_left),
                refl,
                refl,
                refl,
              )
        | inr more ↦
            let some_left : 0 < length w.tables.queue = ground (arith, more) in
            let before : leb deadline (T.instant i) ≡ false =
              not_leb deadline (T.instant i)
                (enough.early i (omega arith) (omega (arith, some_left))) in
            rw (drain, more, before)
              (after_step-IsEmptied fuel T deadline k i completed w
                (step_at F E K R V (T.polled_at i) (T.draws i) (T.clock i) (T.factor i) w)
                (λ i' c w' v' r' e' b'.
                  drain-IsEmptied fuel T deadline k i' c w' answers v' r' e' b')
                v ready enough bound some_left
                (step_at-Stepped (T.polled_at i) (T.draws i) (T.clock i) (T.factor i) w answers v
                  ready))
      ]
