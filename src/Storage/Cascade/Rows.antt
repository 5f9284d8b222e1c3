-- ===== src/Storage/Cascade/Rows.antt =====
-- What the shared statements of the transactions do, by the outcomes that they have.
use agent_memory_vault.Base.{
  ℕ, suc, ◌≡◌, ◌⊎◌, inl, inr, refl, ap, ◌∙◌, subst, false, some, List, [], ◌∷◌, ◌++◌, arith, ◌==◌,
  any, Bool-cases,
}
use agent_memory_vault.Core.Text.{Text, codes}
use agent_memory_vault.Core.Error.{VaultError, Result, ok, err, storage}
use agent_memory_vault.Core.Memory.{Memory, MemoryId, Time}
use agent_memory_vault.Storage.Backoff.{F64, compute_next_attempt}
use agent_memory_vault.Storage.Backoff.Bounds.{compute_next_attempt-some}
use agent_memory_vault.Storage.Queue.{
  CascadeOperation, Queue, RetryEntry, NewRetry, new_entry, insert_row,
}
use agent_memory_vault.Storage.Queue.Invariant
use agent_memory_vault.Storage.Queue.Invariant.{insert_row-IsValid, insert_free, insert_row_cases}
use agent_memory_vault.Storage.Audit.{Log, AuditEvent, PendingAuditEvent}
use agent_memory_vault.Storage.Audit.Chain.{
  Encoding, tx_append_audit, new_event, next_seq_from, verify_chain,
}
use agent_memory_vault.Storage.Audit.Tamper.{new_event-verify_chain}
use agent_memory_vault.Storage.Cascade.{
  Draws, Tables, tx_insert_retry_queue, append, tx_insert_memory, as_row,
}

abbrev pub next_seq : Log → ℕ
next_seq log = next_seq_from 0 log

next_seq_snoc :
    (last : ℕ) (log : Log) (e : AuditEvent) → next_seq_from last (log ++ (e ∷ [])) ≡ suc e.seq
next_seq_snoc last [] e = refl
next_seq_snoc last (x ∷ log) e = next_seq_snoc x.seq log e

pub tx_insert_memory-cases :
    (m : Memory) (ms : List Memory)
    → ((why : VaultError) × (tx_insert_memory m ms ≡ err why))
      ⊎ ((tx_insert_memory m ms ≡ ok (ms ++ (as_row m ∷ [])))
          × (any (λ r. r.id == m.id) ms ≡ false))
unfolding tx_insert_memory
tx_insert_memory-cases m ms = elim (Bool-cases (any (λ r. r.id == m.id) ms)) [
  | inl clash ↦ inl (storage (codes "insert memory"), rw clash refl)
  | inr new ↦ inr (rw new refl, new)
]

module _ (F : F64) (E : Encoding) (D : Draws) where
  -- The event that an append has made, and its place in the log.
  pub record Appended (p : PendingAuditEvent) (t : Tables) (e : AuditEvent) : Type 0 where
    pub numbered : e.seq ≡ next_seq t.log
    pub next : next_seq (t.log ++ (e ∷ [])) ≡ suc (next_seq t.log)
    pub kind : e.event_type ≡ p.event_type
    pub resource : e.resource_id ≡ p.resource_id
    pub verifies : verify_chain E t.log ≡ ok tt → verify_chain E (t.log ++ (e ∷ [])) ≡ ok tt

  pub append-cases :
      (draw : ℕ) (p : PendingAuditEvent) (t : Tables)
      → ((why : VaultError) × (append F E D draw p t ≡ err why))
        ⊎ ((e : AuditEvent) × (append F E D draw p t ≡ ok (e, record t { log = t.log ++ (e ∷ []) }))
            × Appended p t e)
  unfolding tx_append_audit new_event
  append-cases draw p t =
      let e : AuditEvent = new_event E (D.uuid draw) (D.clock draw) p t.log in
      elim (Bool-cases (any (λ x. x.event_id == D.uuid draw) t.log)) [
        | inl clash ↦ inl (storage (codes "insert audit event"), rw clash refl)
        | inr free ↦ inr (
          e,
          rw free refl,
          record {
            numbered = refl;
            next = next_seq_snoc 0 t.log e;
            kind = refl;
            resource = refl;
            verifies = new_event-verify_chain E (D.uuid draw) (D.clock draw) p t.log;
          },
        )
      ]

  -- The row that an insertion into the retry queue has made.
  pub record Inserted (m : MemoryId) (op : CascadeOperation) (s : ℕ) (payload : Text) (q : Queue)
      (row : RetryEntry) : Type 0 where
    pub memory : row.memory_id ≡ m
    pub operation : row.operation ≡ op
    pub sequence : row.sequence_id ≡ s
    pub carries : row.payload ≡ payload
    pub unattempted : row.attempts_made ≡ 0

  new_entry-Inserted :
      (draw : ℕ) (m : MemoryId) (op : CascadeOperation) (s : ℕ) (payload : Text) (q : Queue)
      (next_at : Time)
      → let new : NewRetry = record {
        memory_id = m;
        operation = op;
        sequence_id = s;
        payload = payload;
      } in
        (q' : Queue)
        → insert_row (new_entry (D.uuid draw) new (D.clock draw) next_at) q ≡ ok q'
        → (q' ≡ q ++ (new_entry (D.uuid draw) new (D.clock draw) next_at ∷ []))
          × Inserted m op s payload q (new_entry (D.uuid draw) new (D.clock draw) next_at)
          × (Invariant.IsValid q
              → Invariant.IsValid (q ++ (new_entry (D.uuid draw) new (D.clock draw) next_at ∷ [])))
  new_entry-Inserted draw m op s payload q next_at q' h =
      let row =
        new_entry (D.uuid draw)
          (record { memory_id = m; operation = op; sequence_id = s; payload = payload })
          (D.clock draw) next_at in
      let (free, same) = insert_free row q {q' = q'} h in
      (
        same,
        record {
          memory = refl;
          operation = refl;
          sequence = refl;
          carries = refl;
          unattempted = refl;
        },
        λ v. subst Invariant.IsValid same (insert_row-IsValid row q {q' = q'} v (omega arith) h),
      )

  tx_insert_retry_queue_eq :
      (draw : ℕ) (m : MemoryId) (op : CascadeOperation) (s : ℕ) (payload : Text) (q : Queue)
      (next_at : Time) (r : Result Queue)
      → compute_next_attempt F 0 (D.clock draw) (F.of_nat 0) ≡ some next_at
      → insert_row
          (new_entry
            (D.uuid draw)
            (record { memory_id = m; operation = op; sequence_id = s; payload = payload })
            (D.clock draw)
            next_at)
          q
        ≡ r
      → tx_insert_retry_queue F E D draw m op s payload q ≡ r
  unfolding tx_insert_retry_queue
  tx_insert_retry_queue_eq draw m op s payload q next_at r n h = rw (n, tx_insert_retry_queue) h

  pub tx_insert_retry_queue-cases :
      (draw : ℕ) (m : MemoryId) (op : CascadeOperation) (s : ℕ) (payload : Text) (q : Queue)
      → ((why : VaultError) × (tx_insert_retry_queue F E D draw m op s payload q ≡ err why))
        ⊎ ((row : RetryEntry) × (tx_insert_retry_queue F E D draw m op s payload q
              ≡ ok (q ++ (row ∷ [])))
            × Inserted m op s payload q row
            × (Invariant.IsValid q → Invariant.IsValid (q ++ (row ∷ []))))
  tx_insert_retry_queue-cases draw m op s payload q =
      let (next_at, n) = compute_next_attempt-some F 0 (D.clock draw) (F.of_nat 0) (omega arith) in
      let row =
        new_entry (D.uuid draw)
          (record { memory_id = m; operation = op; sequence_id = s; payload = payload })
          (D.clock draw) next_at in
      elim (insert_row_cases row q) [
        | inr (why, e) ↦ inl (why, tx_insert_retry_queue_eq draw m op s payload q next_at _ n e)
        | inl (q', e) ↦
            let (same, made, keeps) = new_entry-Inserted draw m op s payload q next_at q' e in
            inr (
              row,
              tx_insert_retry_queue_eq draw m op s payload q next_at _ n (e ∙ ap ok same),
              made,
              keeps,
            )
      ]
