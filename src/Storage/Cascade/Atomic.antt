-- ===== src/Storage/Cascade/Atomic.antt =====
-- `write_memory` and `update_memory` are atomic: either an error and the tables as they were, or the
-- memory's row, its audit event and its cascade row together.
use agent_memory_vault.Base.{
  ℕ, ◌<◌, ◌≡◌, ◌≢◌, ◌⊎◌, inl, inr, refl, ap, ◌∙◌, Bool, some, List, [], ◌∷◌, ◌++◌, arith, ◌==◌, any,
  All, All-map, Bool-cases, append_assoc,
}
use agent_memory_vault.Base.Table.Rows.{select-snoc_self, select-none, select-update_const}
use agent_memory_vault.Core.Text.{Text, codes}
use agent_memory_vault.Core.Float.{F32}
use agent_memory_vault.Core.Error.{VaultError, Result, ok, err, panicked, not_found, Result-cases}
use agent_memory_vault.Core.Memory.{Memory, Time}
use agent_memory_vault.Storage.Backoff.{F64}
use agent_memory_vault.Storage.Queue
use agent_memory_vault.Storage.Queue.{CascadeOperation, RetryEntry}
use agent_memory_vault.Storage.Audit
use agent_memory_vault.Storage.Audit.{Log, AuditEventType, AuditEvent, PendingAuditEvent}
use agent_memory_vault.Storage.Audit.Chain.{Encoding}
use agent_memory_vault.Storage.Cascade.{
  Ack, Codec, Draws, Tables, Vault, commit, with_transaction, tx_get_memory, tx_update_memory,
  as_row, memory_key,
}
use agent_memory_vault.Storage.Cascade.Write.{
  eager_validate, write_row, change_event, write_body, cascading_write, write_memory, update_memory,
}
use agent_memory_vault.Storage.Cascade.Rows.{
  next_seq, Appended, append-cases, tx_insert_memory-cases,
}
use agent_memory_vault.Storage.Cascade.Invariant.{IsValid}
use agent_memory_vault.Storage.Cascade.Invariant.Calls.{eager_validate-safe}
use agent_memory_vault.Storage.Cascade.Durable.{Cascaded, Cascaded-frame, enqueue_cascade-cases}

-- The event of a change by this operation.
abbrev pub kind_of : CascadeOperation → AuditEventType
kind_of Queue.write = Audit.memory_create
kind_of Queue.update = Audit.memory_update
kind_of Queue.delete = Audit.memory_delete

write_row-cases :
    (op : CascadeOperation) (m : Memory) (t : Tables)
    → op ≢ Queue.delete
    → ((why : VaultError) × (write_row op m t ≡ err why))
      ⊎ ((ms : List Memory) × (write_row op m t ≡ ok (kind_of op, record t { memories = ms }))
          × (tx_get_memory m.id ms ≡ some (as_row m)))
unfolding write_row tx_get_memory tx_update_memory
write_row-cases Queue.write m t n = elim (tx_insert_memory-cases m t.memories) [
  | inl (why, h) ↦ inl (why, rw (h, write_row) refl)
  | inr (h, new) ↦ inr (
    t.memories ++ (as_row m ∷ []),
    rw (h, write_row) refl,
    select-snoc_self memory_key t.memories (as_row m) (select-none memory_key m.id t.memories new),
  )
]
write_row-cases Queue.update m t n = elim (Bool-cases (any (λ r. r.id == m.id) t.memories)) [
  | inl there ↦ inr (
    (tx_update_memory m t.memories).1,
    rw (there, write_row) refl,
    select-update_const memory_key (as_row m) t.memories there,
  )
  | inr missing ↦ inl (not_found (codes "memory does not exist"), rw (missing, write_row) refl)
]
write_row-cases Queue.delete m t n = absurd (n refl)

module _ (F : F64) (E : Encoding) (K : Codec) (D : Draws) where
  -- What an acknowledged change has left: the memory's row, one event of the change, which is the
  -- next of the log, and the cascade row, which has the event's number and so a greater one than
  -- every row that was in the queue.
  pub record Durable (op : CascadeOperation) (m : Memory) (payload : Text) (at : Time)
      (t t' : Tables) : Type 0 where
    pub stored : tx_get_memory m.id t'.memories ≡ some (as_row m)
    pub event : AuditEvent
    pub rest : Log
    pub logged : t'.log ≡ t.log ++ (event ∷ rest)
    pub kind : event.event_type ≡ kind_of op
    pub resource : event.resource_id ≡ some (E.uuid_text m.id)
    pub committed : event.timestamp ≡ at
    pub before : Tables
    pub same_log : before.log ≡ t.log ++ (event ∷ [])
    pub same_queue : before.queue ≡ t.queue
    pub same_pending : before.pending ≡ t.pending
    pub cascaded : Cascaded F E D m.id op at event.seq payload before t'
    pub last : All (λ x. x.sequence_id < event.seq) t.queue

  durable :
      (op : CascadeOperation) (m : Memory) (payload : Text) (t : Tables) (ms : List Memory)
      (e : AuditEvent) (t' : Tables)
      → IsValid E t
      → tx_get_memory m.id ms ≡ some (as_row m)
      → Appended F E D (change_event F E K D (kind_of op) m) (record t { memories = ms }) e
      → Cascaded F E D m.id op e.timestamp e.seq payload
          (record t { memories = ms; log = t.log ++ (e ∷ []) })
          t'
      → Durable op m payload e.timestamp t t'
  durable op m payload t ms e t' i stored a c =
      let before : Tables = record t { memories = ms; log = t.log ++ (e ∷ []) } in
      let (same, events, grown) =
        Cascaded-frame F E D m.id op e.timestamp e.seq payload before t' c in
      record {
        stored = ap (tx_get_memory m.id) same ∙ stored;
        event = e;
        rest = events;
        logged = grown ∙ append_assoc t.log (e ∷ []) events;
        kind = a.kind;
        resource = a.resource;
        committed = refl;
        before = before;
        same_log = refl;
        same_queue = refl;
        same_pending = refl;
        cascaded = c;
        last =
            All-map (λ x. x.sequence_id < next_seq t.log) (λ x. x.sequence_id < e.seq) t.queue
              (λ x h. omega (arith, a.numbered)) i.queue_numbered;
      }

  write_body-cases :
      (op : CascadeOperation) (m : Memory) (payload : Text) (overflow : Bool) (t : Tables)
      → op ≢ Queue.delete
      → IsValid E t
      → ((why : VaultError) × ((write_body F E K D op m payload overflow t).1 ≡ err why))
        ⊎ ((at : Time) × (t' : Tables) × ((write_body F E K D op m payload overflow t).1
              ≡ ok (at, t'))
            × Durable op m payload at t t')
  unfolding write_body
  write_body-cases op m payload overflow t n i = elim (write_row-cases op m t n) [
    | inl (why, h) ↦ inl (why, rw h refl)
    | inr (ms, h, stored) ↦
        let t1 : Tables = record t { memories = ms } in
        elim (append-cases F E D 0 (change_event F E K D (kind_of op) m) t1) [
          | inl (why, k) ↦ inl (why, rw (h, k) refl)
          | inr (e, k, a) ↦
              elim (enqueue_cascade-cases F E D m.id op e.timestamp e.seq payload overflow
                (record t1 { log = t.log ++ (e ∷ []) })) [
                  | inl (why, l) ↦ inl (why, rw (h, k) l)
                  | inr (t', l, c) ↦
                      inr
                        (e.timestamp, t', rw (h, k) l, durable op m payload t ms e t' i stored a c)
                ]
        ]
  ]

  -- The two ways in which such a call ends.
  pub data Atomic (op : CascadeOperation) (m : Memory) (embedding : List F32) (v : Vault)
      : Result Ack × Vault → Type 0 where
    refused :
        (why : VaultError) (overflow : Bool)
        → Atomic op m embedding v (err why, record v { in_cap_overflow = overflow })
    acknowledged :
        (at : Time) (t' : Tables) (overflow : Bool)
        → Durable op m
            (K.encode (record { embedding = embedding; boundary = m.boundary }))
            at
            v.tables
            t'
        → Atomic op m embedding v (
          ok (record { memory_id = m.id; sqlite_committed_at = at }),
          record { tables = t'; in_cap_overflow = overflow },
        )

  cascading_write-Atomic :
      (m : Memory) (embedding : List F32) (op : CascadeOperation) (v : Vault)
      → op ≢ Queue.delete
      → IsValid E v.tables
      → Atomic op m embedding v (cascading_write F E K D m embedding op v)
  unfolding cascading_write with_transaction commit
  cascading_write-Atomic m embedding op v n i =
      let payload = K.encode (record { embedding = embedding; boundary = m.boundary }) in
      elim (write_body-cases op m payload v.in_cap_overflow v.tables n i) [
        | inl (why, h) ↦ rw (h, commit) (refused why _)
        | inr (at, t', h, d) ↦ rw (h, commit) (acknowledged at t' _ d)
      ]

  checked-Atomic :
      (dimension : ℕ) (m : Memory) (embedding : List F32) (op : CascadeOperation) (v : Vault)
      → op ≢ Queue.delete
      → IsValid E v.tables
      → Atomic op m embedding v (elim (eager_validate dimension m embedding) [
        | ok _ ↦ cascading_write F E K D m embedding op v
        | err e ↦ (err e, v)
        | panicked ↦ (panicked, v)
      ])
  checked-Atomic dimension m embedding op v n i =
      elim (Result-cases (eager_validate dimension m embedding)) [
        | inl (_, h) ↦ rw h (cascading_write-Atomic m embedding op v n i)
        | inr (inl (e, h)) ↦ rw h (refused e v.in_cap_overflow)
        | inr (inr h) ↦ absurd (eager_validate-safe F E K D dimension m embedding h)
      ]

  -- On valid tables `write_memory` and `update_memory` either return an error and leave the tables as
  -- they were, or return an acknowledgement and leave the memory's row, the event of the change and
  -- its cascade row, which stands behind all that were queued.
  pub write_memory-Atomic :
      (dimension : ℕ) (m : Memory) (embedding : List F32) (v : Vault)
      → IsValid E v.tables
      → Atomic Queue.write m embedding v (write_memory F E K D dimension m embedding v)
        × Atomic Queue.update m embedding v (update_memory F E K D dimension m embedding v)
  unfolding write_memory update_memory
  write_memory-Atomic dimension m embedding v i = (
    checked-Atomic dimension m embedding Queue.write v (λ p. cc) i,
    checked-Atomic dimension m embedding Queue.update v (λ p. cc) i,
  )
