-- ===== src/Storage/Cascade/Invariant/MetadataOnly.antt =====
-- The calls that cascade nothing: they keep the tables valid and leave the retry queue, the overflow
-- table and the flag as they were.
use agent_memory_vault.Base.{
  ℕ, suc, ◌≡◌, inl, inr, refl, subst, List, [], ◌∷◌, ◌==◌, length, any, Bool-cases, Option-cases,
}
use agent_memory_vault.Core.Text.{Text}
use agent_memory_vault.Core.Float.{F32}
use agent_memory_vault.Core.Json.{Value}
use agent_memory_vault.Core.Error.{VaultError, Result, ok, err, panicked, Result-cases, ◌>>=◌}
use agent_memory_vault.Core.Memory.{Memory, MemoryId, Time}
use agent_memory_vault.Storage.Backoff.{F64}
use agent_memory_vault.Storage.Queue.{Queue}
use agent_memory_vault.Storage.PendingSync.{Pending}
use agent_memory_vault.Storage.Audit.{AuditEvent, PendingAuditEvent}
use agent_memory_vault.Storage.Audit.Chain.{Encoding}
use agent_memory_vault.Storage.Cascade.{
  Ack, Codec, Draws, Tables, Vault, commit, with_transaction, append, tx_get_memory,
  tx_update_memory,
}
use agent_memory_vault.Storage.Cascade.Metadata.{
  superseding, superseded_event, invalidating, invalidated_event, decaying, decayed_event,
  archiving, archived_event, absorbing, deduped_event, change_row, change_memory, mark_superseded,
  invalidate, apply_decay, apply_archive, supersede_all, dedup_body, apply_dedup,
}
use agent_memory_vault.Storage.Cascade.Rows.{append-cases}
use agent_memory_vault.Storage.Cascade.Invariant.{IsValid, appended-IsValid}
use agent_memory_vault.Storage.Cascade.Invariant.Calls.{updated-IsValid}

-- Valid tables with this queue and this overflow table.
pub record Holds (E : Encoding) (q : Queue) (p : Pending) (t : Tables) : Type 0 where
  pub valid : IsValid E t
  pub same_queue : t.queue ≡ q
  pub same_pending : t.pending ≡ p

-- The same of what a body leaves, where it succeeds.
abbrev Leaves {ℓ} : {A : Type ℓ} → (Tables → Type 0) → Result (A × Tables) → Type 0
Leaves P (ok r) = P r.1
Leaves P (err _) = Unit
Leaves P panicked = Unit

abbrev LeavesTables : (Tables → Type 0) → Result Tables → Type 0
LeavesTables P (ok t) = P t
LeavesTables P (err _) = Unit
LeavesTables P panicked = Unit

module _ (F : F64) (E : Encoding) (K : Codec) (D : Draws) where
  changed_row-Holds :
      (draw : ℕ) (p : PendingAuditEvent) (m : Memory) (t : Tables) {q : Queue} {o : Pending}
      → Holds E q o t
      → Leaves
          (Holds E q o)
          (append F E D draw p (record t { memories = (tx_update_memory m t.memories).1 }))
  changed_row-Holds draw p m t h =
      let t' : Tables = record t { memories = (tx_update_memory m t.memories).1 } in
      elim (append-cases F E D draw p t') [
        | inl (why, k) ↦ rw k tt
        | inr (e, k, a) ↦ rw k (record {
          valid = appended-IsValid F E D p t' e a (updated-IsValid E t m h.valid);
          same_queue = h.same_queue;
          same_pending = h.same_pending;
        })
      ]

  change_row-Holds :
      (draw : ℕ) (id : MemoryId) (change : Memory → Result Memory)
      (event : Memory → PendingAuditEvent) (t : Tables) {q : Queue} {o : Pending}
      → Holds E q o t
      → Leaves (Holds E q o) (change_row F E K D draw id change event t)
  unfolding change_row
  change_row-Holds draw id change event t h = elim (Option-cases (tx_get_memory id t.memories)) [
    | inl missing ↦ rw (missing, change_row) tt
    | inr (m, there) ↦ elim (Result-cases (change m)) [
      | inl (m', c) ↦ rw (there, c, change_row) (changed_row-Holds draw (event m) m' t h)
      | inr (inl (why, c)) ↦ rw (there, c, change_row) tt
      | inr (inr c) ↦ rw (there, c, change_row) tt
    ]
  ]

  -- What such a call leaves.
  pub record MetadataOnly (v : Vault) (r : Result Ack × Vault) : Type 0 where
    pub holds : Holds E v.tables.queue v.tables.pending r.1.tables
    pub same_flag : r.1.in_cap_overflow ≡ v.in_cap_overflow

  unchanged : (v : Vault) → IsValid E v.tables → Holds E v.tables.queue v.tables.pending v.tables
  unchanged v i = record { valid = i; same_queue = refl; same_pending = refl }

  commit-MetadataOnly :
      (id : MemoryId) (v : Vault) (r : Result (Time × Tables))
      → IsValid E v.tables
      → Leaves (Holds E v.tables.queue v.tables.pending) r
      → MetadataOnly v (commit id v v.in_cap_overflow r)
  unfolding commit
  commit-MetadataOnly id v (ok r) i h = record { holds = h; same_flag = refl }
  commit-MetadataOnly id v (err _) i h = record { holds = unchanged v i; same_flag = refl }
  commit-MetadataOnly id v panicked i h = record { holds = unchanged v i; same_flag = refl }

  timed :
      (q : Queue) (o : Pending) (r : Result (AuditEvent × Tables))
      → Leaves (Holds E q o) r
      → Leaves (Holds E q o) (r >>= λ x. ok (x.0.timestamp, x.1))
  timed q o (ok r) h = h
  timed q o (err _) h = tt
  timed q o panicked h = tt

  change_memory-MetadataOnly :
      (id : MemoryId) (change : Memory → Result Memory) (event : Memory → PendingAuditEvent)
      (v : Vault)
      → IsValid E v.tables
      → MetadataOnly v (change_memory F E K D id change event v)
  unfolding change_memory with_transaction
  change_memory-MetadataOnly id change event v i = commit-MetadataOnly id v _ i (
      timed v.tables.queue v.tables.pending (change_row F E K D 0 id change event v.tables)
        (change_row-Holds 0 id change event v.tables (unchanged v i)))

  and_then :
      {q : Queue} {o : Pending} {B : Type 0} (r : Result (AuditEvent × Tables))
      (k : Tables → Result B) (L : Result B → Type 0)
      → Leaves (Holds E q o) r
      → ((why : VaultError) → L (err why))
      → L panicked
      → ((t : Tables) → Holds E q o t → L (k t))
      → L (r >>= λ x. k x.1)
  and_then (ok r) k L h e p f = f r.1 h
  and_then (err why) k L h e p f = e why
  and_then panicked k L h e p f = p

  supersede_all-Holds :
      (losers : List MemoryId) (draw : ℕ) (survivor : MemoryId) (t : Tables) {q : Queue}
      {o : Pending}
      → Holds E q o t
      → LeavesTables (Holds E q o) (supersede_all F E K D draw survivor losers t)
  unfolding supersede_all
  supersede_all-Holds [] draw survivor t h = h
  supersede_all-Holds (loser ∷ losers) draw survivor t {q} {o} h =
      and_then {q = q} {o = o}
        (change_row F E K D draw loser (superseding F E K D survivor)
          (superseded_event F E K D loser survivor) t)
        (supersede_all F E K D (suc draw) survivor losers) (LeavesTables (Holds E q o))
        (change_row-Holds draw loser (superseding F E K D survivor)
          (superseded_event F E K D loser survivor) t {q = q} {o = o} h)
        (λ why. tt) tt
        (λ t' h'. supersede_all-Holds losers (suc draw) survivor t' {q = q} {o = o} h')

  dedup_body-Holds :
      (survivor : MemoryId) (losers : List MemoryId) (n : ℕ) (c : F32) (t : Tables) {q : Queue}
      {o : Pending}
      → Holds E q o t
      → Leaves (Holds E q o) (dedup_body F E K D survivor losers n c t)
  unfolding dedup_body
  dedup_body-Holds survivor losers n c t {q} {o} h =
      elim (Result-cases (supersede_all F E K D 0 survivor losers t)) [
        | inl (t', k) ↦
            let kept : Holds E q o t' =
              subst (LeavesTables (Holds E q o)) k
                (supersede_all-Holds losers 0 survivor t {q = q} {o = o} h) in
            rw k (
              timed q o
                (change_row F E K D (length losers) survivor (absorbing F E K D n c)
                  (deduped_event F E K D survivor losers n c) t')
                (change_row-Holds (length losers) survivor (absorbing F E K D n c)
                  (deduped_event F E K D survivor losers n c) t' {q = q} {o = o} kept))
        | inr (inl (why, k)) ↦ rw k tt
        | inr (inr k) ↦ rw k tt
      ]

  apply_dedup-MetadataOnly :
      (survivor : MemoryId) (losers : List MemoryId) (n : ℕ) (c : F32) (v : Vault)
      → IsValid E v.tables
      → MetadataOnly v (apply_dedup F E K D survivor losers n c v)
  unfolding apply_dedup with_transaction
  apply_dedup-MetadataOnly survivor losers n c v i = elim (Bool-cases (length losers == 0)) [
    | inl empty ↦ rw (empty, apply_dedup) (record { holds = unchanged v i; same_flag = refl })
    | inr more ↦ elim (Bool-cases (any (λ id. id == survivor) losers)) [
      | inl self ↦ rw (more, self, apply_dedup) (record { holds = unchanged v i; same_flag = refl })
      | inr apart ↦
          rw (more, apart, apply_dedup)
            (commit-MetadataOnly survivor v _ i
              (dedup_body-Holds survivor losers n c v.tables (unchanged v i)))
    ]
  ]

  -- On valid tables the five calls that change only metadata keep the tables valid and leave the retry
  -- queue, the overflow table and the flag as they were, whether they succeed or not.
  pub apply_archive-MetadataOnly :
      (id other : MemoryId) (at : Time) (reason : Text) (c : F32) (metadata : Value)
      (losers : List MemoryId) (n : ℕ) (v : Vault)
      → IsValid E v.tables
      → MetadataOnly v (mark_superseded F E K D id other v)
        × MetadataOnly v (invalidate F E K D id at reason v)
        × MetadataOnly v (apply_decay F E K D id c metadata v)
        × MetadataOnly v (apply_archive F E K D id at v)
        × MetadataOnly v (apply_dedup F E K D id losers n c v)
  unfolding mark_superseded invalidate apply_decay apply_archive
  apply_archive-MetadataOnly id other at reason c metadata losers n v i = (
    change_memory-MetadataOnly id (superseding F E K D other) (superseded_event F E K D id other) v
        i,
    change_memory-MetadataOnly id (invalidating F E K D at) (invalidated_event F E K D id at reason)
        v i,
    change_memory-MetadataOnly id (decaying F E K D c metadata) (decayed_event F E K D id c) v i,
    change_memory-MetadataOnly id (archiving F E K D at) (archived_event F E K D id at) v i,
    apply_dedup-MetadataOnly id losers n c v i,
  )
