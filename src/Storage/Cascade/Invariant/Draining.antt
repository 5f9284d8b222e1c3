-- ===== src/Storage/Cascade/Invariant/Draining.antt =====
-- `drain_pending_sync` keeps the tables valid, and with them the cap of the queue.
use agent_memory_vault.Base.{
  ℕ, suc, ◌+◌, ◌<◌, ◌≡◌, inl, inr, refl, sym, ap, subst, true, false, none, some, List, [], ◌∷◌,
  ◌++◌, arith, leb, length, All, Bool-cases, Option-cases, leb→gt, All-take, ltb, ◌^◌,
}
use agent_memory_vault.Base.Table
use agent_memory_vault.Base.Table.Rows.{All-delete, length-snoc}
use agent_memory_vault.Base.Sort.{All-sort_by}
use agent_memory_vault.Core.Text.{Text}
use agent_memory_vault.Core.Error.{VaultError, Result, ok, err, panicked}
use agent_memory_vault.Storage.Backoff.{F64}
use agent_memory_vault.Storage.Queue.{Queue, RetryEntry, limit_rows}
use agent_memory_vault.Storage.Queue.Invariant as Queued
use agent_memory_vault.Storage.PendingSync.{
  PendingSyncEntry, Pending, memory_of, older, oldest_first,
}
use agent_memory_vault.Storage.Audit.Chain.{Encoding}
use agent_memory_vault.Storage.Cascade.{
  Draws, Tables, Vault, max_retry_queue_depth, tx_insert_retry_queue,
}
use agent_memory_vault.Storage.Cascade.Drain.{drain_entries, drain_pending_sync}
use agent_memory_vault.Storage.Cascade.Rows.{next_seq, Inserted, tx_insert_retry_queue-cases}
use agent_memory_vault.Storage.Cascade.Invariant.{IsValid, inserted-IsValid}

-- The tables are valid, and the queue has grown by what was drained beyond the count so far.
abbrev pub Drained : Encoding → ℕ → ℕ → Result ℕ × Tables → Type 0
Drained E before drained r =
    IsValid E r.1
    × (elim r.0 [ ok n ↦ length r.1.queue + drained ≡ before + n | err _ ↦ Unit | panicked ↦ ⊥ ])

module _ (F : F64) (E : Encoding) (D : Draws) where
  drained_one :
      (t : Tables) (e : PendingSyncEntry) (payload : Text) (row : RetryEntry)
      → Inserted F E D e.memory_id e.operation e.sequence_id payload t.queue row
      → (Queued.IsValid t.queue → Queued.IsValid (t.queue ++ (row ∷ [])))
      → e.sequence_id < next_seq t.log
      → leb max_retry_queue_depth (length t.queue) ≡ false
      → IsValid E t
      → IsValid E (record t {
        queue = t.queue ++ (row ∷ []);
        pending = Table.delete memory_of e.memory_id t.pending;
      })
  drained_one t e payload row made keeps n room i =
      let j = inserted-IsValid F E D t row made keeps n (leb→gt _ _ room) i in
      record {
        memories_keyed = j.memories_keyed;
        chain = j.chain;
        queue_ok = j.queue_ok;
        bounded = j.bounded;
        queue_numbered = j.queue_numbered;
        pending_keyed = Table.delete-IsKeyed memory_of e.memory_id t.pending i.pending_keyed;
        pending_numbered =
            All-delete memory_of (λ x. x.sequence_id < next_seq t.log) e.memory_id t.pending
              i.pending_numbered;
      }

  Drained-weaken :
      (before drained : ℕ) (r : Result ℕ × Tables)
      → Drained E (suc before) (suc drained) r
      → Drained E before drained r
  Drained-weaken before drained (ok n, t) h = (h.0, omega (arith, h.1))
  Drained-weaken before drained (err _, t) h = h
  Drained-weaken before drained (panicked, t) h = h

  drain_entries_legacy :
      (e : PendingSyncEntry) (es : List PendingSyncEntry) (draw drained : ℕ) (t : Tables)
      → e.payload ≡ none
      → drain_entries F E D draw drained (e ∷ es) t ≡ drain_entries F E D (suc draw) drained es t
  unfolding drain_entries
  drain_entries_legacy e es draw drained t h =
      ap
        (λ o. elim o [
          | none ↦ drain_entries F E D (suc draw) drained es t
          | some payload ↦ elim (leb max_retry_queue_depth (length t.queue)) [
            | true ↦ (ok drained, t)
            | false ↦
                elim (tx_insert_retry_queue F E D draw e.memory_id e.operation e.sequence_id payload
                  t.queue) [
                    | ok q ↦ drain_entries F E D (suc draw) (suc drained) es (record t {
                      queue = q;
                      pending = Table.delete memory_of e.memory_id t.pending;
                    })
                    | err why ↦ (err why, t)
                    | panicked ↦ (panicked, t)
                  ]
          ]
        ])
        h

  drain_entries_one :
      (e : PendingSyncEntry) (es : List PendingSyncEntry) (draw drained : ℕ) (t : Tables)
      {payload : Text} {q : Queue}
      → e.payload ≡ some payload
      → leb max_retry_queue_depth (length t.queue) ≡ false
      → tx_insert_retry_queue F E D draw e.memory_id e.operation e.sequence_id payload t.queue
        ≡ ok q
      → drain_entries F E D draw drained (e ∷ es) t
        ≡ drain_entries F E D
            (suc draw)
            (suc drained)
            es
            (record t { queue = q; pending = Table.delete memory_of e.memory_id t.pending })
  unfolding drain_entries
  drain_entries_one e es draw drained t here room h = rw (here, room, h) refl

  drain_entries_full :
      (e : PendingSyncEntry) (es : List PendingSyncEntry) (draw drained : ℕ) (t : Tables)
      {payload : Text}
      → e.payload ≡ some payload
      → leb max_retry_queue_depth (length t.queue) ≡ true
      → drain_entries F E D draw drained (e ∷ es) t ≡ (ok drained, t)
  unfolding drain_entries
  drain_entries_full e es draw drained t here full = rw (here, full) refl

  drain_entries_err :
      (e : PendingSyncEntry) (es : List PendingSyncEntry) (draw drained : ℕ) (t : Tables)
      {payload : Text} {why : VaultError}
      → e.payload ≡ some payload
      → leb max_retry_queue_depth (length t.queue) ≡ false
      → tx_insert_retry_queue F E D draw e.memory_id e.operation e.sequence_id payload t.queue
        ≡ err why
      → drain_entries F E D draw drained (e ∷ es) t ≡ (err why, t)
  unfolding drain_entries
  drain_entries_err e es draw drained t here room h = rw (here, room, h) refl

  pub drain_entries-Drained :
      (es : List PendingSyncEntry) (draw drained : ℕ) (t : Tables)
      → All (λ e. e.sequence_id < next_seq t.log) es
      → IsValid E t
      → Drained E (length t.queue) drained (drain_entries F E D draw drained es t)
  unfolding drain_entries
  drain_entries-Drained [] draw drained t hs i = (i, refl)
  drain_entries-Drained (e ∷ es) draw drained t hs i = elim (Option-cases e.payload) [
    | inl legacy ↦
        subst (Drained E (length t.queue) drained)
          (sym (drain_entries_legacy e es draw drained t legacy))
          (drain_entries-Drained es (suc draw) drained t hs.1 i)
    | inr (payload, here) ↦ elim (Bool-cases (leb max_retry_queue_depth (length t.queue))) [
      | inl full ↦
          subst (Drained E (length t.queue) drained)
            (sym (drain_entries_full e es draw drained t {payload = payload} here full)) (i, refl)
      | inr room ↦
          elim (tx_insert_retry_queue-cases F E D draw e.memory_id e.operation e.sequence_id payload
            t.queue) [
              | inl (why, h) ↦
                  subst (Drained E (length t.queue) drained)
                    (sym (
                      drain_entries_err e es draw drained t {payload = payload} {why = why} here
                        room h))
                    (i, tt)
              | inr (row, h, made, keeps) ↦
                  let t' : Tables = record t {
                    queue = t.queue ++ (row ∷ []);
                    pending = Table.delete memory_of e.memory_id t.pending;
                  } in
                  let grown : length (t.queue ++ (row ∷ [])) ≡ suc (length t.queue) =
                    omega (arith, length-snoc t.queue row) in
                  subst (Drained E (length t.queue) drained)
                    (sym (
                      drain_entries_one e es draw drained t {payload = payload}
                        {q = t.queue ++ (row ∷ [])} here room h))
                    (Drained-weaken (length t.queue) drained _ (
                      subst
                        (λ n.
                          Drained E n (suc drained)
                            (drain_entries F E D (suc draw) (suc drained) es t'))
                        grown
                        (drain_entries-Drained es (suc draw) (suc drained) t' hs.1
                          (drained_one t e payload row made keeps hs.0 room i))))
            ]
    ]
  ]

  oldest_first-All :
      (limit n : ℕ) (p : Pending)
      → All (λ e. e.sequence_id < n) p
      → All (λ e. e.sequence_id < n) (oldest_first limit p)
  unfolding oldest_first
  oldest_first-All limit n p h =
      let sorted = All-sort_by older (λ e. e.sequence_id < n) p h in
      elim (Bool-cases (ltb limit (2 ^ 63))) [
        | inl within ↦ rw (within, limit_rows) (All-take (λ e. e.sequence_id < n) limit _ sorted)
        | inr beyond ↦ rw (beyond, limit_rows) sorted
      ]

  -- A call of `drain_pending_sync` does not panic and keeps the tables valid, with the queue at its cap
  -- or below; where it succeeds, the queue has grown by the number of entries that it returns.
  pub drain_pending_sync-Drained :
      (limit : ℕ) (v : Vault)
      → IsValid E v.tables
      → let r = drain_pending_sync F E D limit v in
        Drained E (length v.tables.queue) 0 (r.0, r.1.tables)
  unfolding drain_pending_sync
  drain_pending_sync-Drained limit v i =
      drain_entries-Drained (oldest_first limit v.tables.pending) 0 0 v.tables
        (oldest_first-All limit (next_seq v.tables.log) v.tables.pending i.pending_numbered) i
