-- ===== src/Storage/Queue/Invariant.antt =====
-- What holds of the retry queue between two calls, and that every call keeps it.
use agent_memory_vault.Base.{
  ℕ, ◌<◌, ◌≡◌, ◌⊎◌, refl, Bool, false, ◌||◌, none, some, [], ◌∷◌, ◌++◌, inl, inr, arith, ◌==◌, any,
  All, leb, Bool-cases, Option-cases,
}
use agent_memory_vault.Base.Table
use agent_memory_vault.Base.Table.{IsKeyed}
use agent_memory_vault.Base.Table.Rows.{
  All-delete, any-delete, All-update, any-update, select-none, snoc-IsKeyed, All-snoc, any-snoc,
  any_left, any_right,
}
use agent_memory_vault.Core.Text.{Text, codes}
use agent_memory_vault.Core.Error.{VaultError, Result, ok, err, panicked, storage}
use agent_memory_vault.Core.Memory.{Time, MemoryId}
use agent_memory_vault.Storage.Backoff.{F64, max_attempts}
use agent_memory_vault.Storage.Backoff.Bounds.{compute_next_attempt-some}
use agent_memory_vault.Storage.Queue.{
  RetryEntry, NewRetry, Queue, entry_id, same_anchor, new_entry, insert_row, enqueue,
  record_success, fail_entry, record_failure, saturating_add32,
}

-- No two rows share a memory and a sequence number.
abbrev pub IsAnchored : Queue → Type 0
IsAnchored [] = Unit
IsAnchored (e ∷ q) = (any (same_anchor e.memory_id e.sequence_id) q ≡ false) × IsAnchored q

pub record IsValid (q : Queue) : Type 0 where
  pub keyed : IsKeyed entry_id q
  pub anchored : IsAnchored q
  pub counted : All (λ e. e.attempts_made < max_attempts) q

-- What a call leaves behind where it returns.
abbrev pub Leaves {ℓ} : {A : Type ℓ} → (Queue → Type 0) → Result (A × Queue) → Type 0
Leaves P (ok r) = P r.1
Leaves P (err _) = Unit
Leaves P panicked = ⊥

delete-IsAnchored : (k : ℕ) (q : Queue) → IsAnchored q → IsAnchored (Table.delete entry_id k q)
delete-IsAnchored k [] h = tt
delete-IsAnchored k (e ∷ q) h = ground (
  arith,
  delete-IsAnchored k q h.1,
  any-delete entry_id (same_anchor e.memory_id e.sequence_id) k q h.0,
)

-- An `UPDATE` that keeps the anchor of every row.
module _ (f : RetryEntry → RetryEntry) (mem : (e : RetryEntry) → (f e).memory_id ≡ e.memory_id)
    (seq : (e : RetryEntry) → (f e).sequence_id ≡ e.sequence_id) where
  same_anchor_update :
      (m : MemoryId) (s : ℕ) (e : RetryEntry) → same_anchor m s (f e) ≡ same_anchor m s e
  same_anchor_update m s e = rw (mem e, seq e)

  update-IsAnchored : (k : ℕ) (q : Queue) → IsAnchored q → IsAnchored (Table.update entry_id k f q)
  update-IsAnchored k [] h = tt
  update-IsAnchored k (e ∷ q) h = ground (
    arith,
    mem e,
    seq e,
    update-IsAnchored k q h.1,
    any-update entry_id (same_anchor e.memory_id e.sequence_id) k f q
        (same_anchor_update e.memory_id e.sequence_id),
  )

snoc-IsAnchored :
    (q : Queue) (e : RetryEntry)
    → IsAnchored q
    → any (same_anchor e.memory_id e.sequence_id) q ≡ false
    → IsAnchored (q ++ (e ∷ []))
snoc-IsAnchored [] e h a = (refl, tt)
snoc-IsAnchored (r ∷ q) e h a =
    ground
      (arith, snoc-IsAnchored q e h.1, any-snoc (same_anchor r.memory_id r.sequence_id) q e h.0)

pub delete-IsValid : (k : ℕ) (q : Queue) → IsValid q → IsValid (Table.delete entry_id k q)
delete-IsValid k q v = record {
  keyed = Table.delete-IsKeyed entry_id k q v.keyed;
  anchored = delete-IsAnchored k q v.anchored;
  counted = All-delete entry_id (λ e. e.attempts_made < max_attempts) k q v.counted;
}

pub insert_free :
    (e : RetryEntry) (q : Queue) {q' : Queue}
    → insert_row e q ≡ ok q'
    → (any (λ r. r.id == e.id || same_anchor e.memory_id e.sequence_id r) q ≡ false)
      × (q' ≡ q ++ (e ∷ []))
unfolding insert_row
insert_free e q h = ground arith

pub insert_row-IsValid :
    (e : RetryEntry) (q : Queue) {q' : Queue}
    → IsValid q
    → e.attempts_made < max_attempts
    → insert_row e q ≡ ok q'
    → IsValid q'
insert_row-IsValid e q {q' = q'} v c h =
    let (free, same) = insert_free e q {q' = q'} h in
    rw same (record {
      keyed = snoc-IsKeyed entry_id q e v.keyed (
          select-none entry_id e.id q
            (any_left (λ r. r.id == e.id) (same_anchor e.memory_id e.sequence_id) q free));
      anchored =
          snoc-IsAnchored q e v.anchored
            (any_right (λ r. r.id == e.id) (same_anchor e.memory_id e.sequence_id) q free);
      counted = All-snoc (λ r. r.attempts_made < max_attempts) q e v.counted c;
    })

-- The `UPDATE` of a reschedule.
pub reschedule-IsValid :
    (id n : ℕ) (next_at : Time) (why : Text) (q : Queue)
    → IsValid q
    → n < max_attempts
    → IsValid (
        Table.update entry_id id
          (λ r. record r { attempts_made = n; next_attempt_at = next_at; last_error = some why })
          q)
reschedule-IsValid id n next_at why q v h = record {
  keyed = Table.update-IsKeyed entry_id _ (λ r. refl) id q v.keyed;
  anchored = update-IsAnchored _ (λ r. refl) (λ r. refl) id q v.anchored;
  counted = All-update entry_id (λ r. r.attempts_made < max_attempts) id _ q (λ r _. h) v.counted;
}

-- `record_success` keeps the queue valid, and the entry is gone.
pub record_success-IsValid :
    (id : ℕ) (q : Queue)
    → IsValid q
    → IsValid (record_success id q).1 × (Table.select entry_id id (record_success id q).1 ≡ none)
unfolding record_success
record_success-IsValid id q v = (delete-IsValid id q v, Table.select-delete_self entry_id id q)

pub insert_row_cases :
    (e : RetryEntry) (q : Queue)
    → ((q' : Queue) × (insert_row e q ≡ ok q')) ⊎ ((why : VaultError) × (insert_row e q ≡ err why))
unfolding insert_row
insert_row_cases e q =
    elim (Bool-cases (any (λ r. r.id == e.id || same_anchor e.memory_id e.sequence_id r) q)) [
      | inl clash ↦ inr (storage (codes "enqueue retry"), rw clash)
      | inr free ↦ inl (q ++ (e ∷ []), rw free)
    ]

module _ (F : F64) where
  fail_entry-IsValid :
      (e : RetryEntry) (why : Text) (permanent : Bool) (now : Time) (factor : F.Carrier) (q : Queue)
      → IsValid q
      → Leaves IsValid (fail_entry F e why permanent now factor q)
  unfolding fail_entry
  fail_entry-IsValid e why permanent now factor q v =
      elim (Bool-cases (permanent || leb max_attempts (saturating_add32 e.attempts_made 1))) [
        | inl over ↦ rw (over, fail_entry) (delete-IsValid e.id q v)
        | inr more ↦
            let below : saturating_add32 e.attempts_made 1 < max_attempts = ground arith in
            let (next_at, n) = compute_next_attempt-some F _ now factor below in
            rw (more, n, fail_entry)
              (reschedule-IsValid e.id (saturating_add32 e.attempts_made 1) next_at why q v below)
      ]

  -- An `enqueue` never panics, and leaves a valid queue valid.
  pub enqueue-IsValid :
      (fresh : ℕ) (now : Time) (factor : F.Carrier) (new : NewRetry) (q : Queue)
      → IsValid q
      → Leaves IsValid (enqueue F fresh now factor new q)
  unfolding enqueue
  enqueue-IsValid fresh now factor new q v =
      let (next_at, n) = compute_next_attempt-some F 0 now factor (omega arith) in
      let row = new_entry fresh new now next_at in
      elim (insert_row_cases row q) [
        | inl (q', e) ↦ rw (n, e, enqueue) (insert_row-IsValid row q v (omega arith) e)
        | inr (why, e) ↦ rw (n, e, enqueue) tt
      ]

  -- A failure that is recorded never panics, and leaves a valid queue valid.
  pub record_failure-IsValid :
      (id : ℕ) (error : Text) (permanent : Bool) (now : Time) (factor : F.Carrier) (q : Queue)
      → IsValid q
      → Leaves IsValid (record_failure F id error permanent now factor q)
  unfolding record_failure
  record_failure-IsValid id error permanent now factor q v =
      elim (Option-cases (Table.select entry_id id q)) [
        | inl e ↦ rw (e, record_failure) tt
        | inr (x, e) ↦ rw (e, record_failure) (fail_entry-IsValid x _ permanent now factor q v)
      ]
