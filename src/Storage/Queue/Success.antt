-- ===== src/Storage/Queue/Success.antt =====
-- What `record_success` takes out of the queue.
use native.Mathlib.Decide.{ℕ_discrete}
use agent_memory_vault.Base.{
  suc, true, length, ℕ, ◌≡◌, ◌⊎◌, refl, Bool, false, none, some, [], ◌∷◌, inl, inr, arith, ◌==◌,
  any, Option-cases,
}
use agent_memory_vault.Base.Table
use agent_memory_vault.Base.Table.{IsKeyed}
use agent_memory_vault.Storage.Queue.{RetryEntry, Queue, entry_id, record_success}
use agent_memory_vault.Storage.Queue.Invariant.{IsValid, delete-IsValid}

any-select :
    (id : ℕ) (q : Queue) {e : RetryEntry}
    → Table.select entry_id id q ≡ some e
    → any (λ r. r.id == id) q ≡ true
any-select id [] {e = e} h = cc
any-select id (r ∷ q) {e = e} h = ground (arith, any-select id q {e = e})

any-select-none :
    (id : ℕ) (q : Queue) → Table.select entry_id id q ≡ none → any (λ r. r.id == id) q ≡ false
any-select-none id [] h = refl
any-select-none id (r ∷ q) h = ground (arith, any-select-none id q)

-- What the removal of an id may have done to a queue, with what it reports.
pub data Removed (id : ℕ) (q : Queue) : Bool × Queue → Type 0 where
  removed :
      (e : RetryEntry) (q' : Queue)
      → Table.select entry_id id q ≡ some e
      → Table.select entry_id id q' ≡ none
      → suc (length q') ≡ length q
      → Removed id q (true, q')
  absent : Table.select entry_id id q ≡ none → Removed id q (false, q)

-- On a valid queue `record_success` removes exactly the row of the id, where there is one, and says
-- whether there was: the queue is one shorter or as it was, it is valid, and every other id
-- selects what it did.
pub record_success-Removed :
    (id other : ℕ) (q : Queue)
    → IsValid q
    → Removed id q (record_success id q)
      × IsValid (record_success id q).1
      × ((other ≡ id)
          ⊎ (Table.select entry_id other (record_success id q).1 ≡ Table.select entry_id other q))
unfolding record_success
record_success-Removed id other q v = (
  elim (Option-cases (Table.select entry_id id q)) [
    | inl gone ↦
        rw (any-select-none id q gone, Table.delete-eq_self entry_id id q gone) (absent gone)
    | inr (e, found) ↦ rw (any-select id q {e = e} found) (
        removed e (Table.delete entry_id id q) found (Table.select-delete_self entry_id id q)
          (Table.length-delete entry_id id q {x = e} v.keyed found))
  ],
  delete-IsValid id q v,
  elim (ℕ_discrete other id) [
    | yes same ↦ inl same
    | no ne ↦ inr (Table.select-delete_ne entry_id other id q ne)
  ],
)
