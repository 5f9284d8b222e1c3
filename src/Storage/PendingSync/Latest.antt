-- ===== src/Storage/PendingSync/Latest.antt =====
-- The table keeps one row for each memory, that of the latest operation.
use agent_memory_vault.Base.{
  ℕ, ◌≡◌, ◌≢◌, refl, sym, some, inl, inr, arith, ◌==◌, if◌then◌else◌, any, All, Bool-cases, ap, ◌∙◌,
  subst,
}
use agent_memory_vault.Base.Table
use agent_memory_vault.Base.Table.{IsKeyed}
use agent_memory_vault.Base.Table.Rows.{
  All-update, All-snoc, select-none, select-some, select-snoc_other, select-snoc_self, snoc-IsKeyed,
}
use agent_memory_vault.Core.Text.{Text}
use agent_memory_vault.Core.Memory.{MemoryId, Time}
use agent_memory_vault.Storage.Queue.{CascadeOperation}
use agent_memory_vault.Storage.PendingSync.{
  PendingSyncEntry, Pending, memory_of, upsert_row, upsert_with_payload, get,
}

module _ (row : PendingSyncEntry) (f : PendingSyncEntry → PendingSyncEntry)
    (keeps : (e : PendingSyncEntry) → (f e).memory_id ≡ e.memory_id) where
  pub upsert_row-IsKeyed :
      (p : Pending) → IsKeyed memory_of p → IsKeyed memory_of (upsert_row row f p)
  unfolding upsert_row
  upsert_row-IsKeyed p k = elim (Bool-cases (any (λ e. e.memory_id == row.memory_id) p)) [
    | inl there ↦ rw (there, upsert_row) (Table.update-IsKeyed memory_of f keeps row.memory_id p k)
    | inr new ↦
        rw (new, upsert_row)
          (snoc-IsKeyed memory_of p row k (select-none memory_of row.memory_id p new))
  ]

  pub upsert_row_other :
      (m : MemoryId) (p : Pending)
      → m ≢ row.memory_id
      → Table.select memory_of m (upsert_row row f p) ≡ Table.select memory_of m p
  unfolding upsert_row
  upsert_row_other m p n = elim (Bool-cases (any (λ e. e.memory_id == row.memory_id) p)) [
    | inl there ↦
        rw (there, upsert_row) (Table.select-update_ne memory_of f keeps m row.memory_id p n)
    | inr new ↦ rw (new, upsert_row) (select-snoc_other memory_of m p row (λ e. n (sym e)))
  ]

  pub upsert_row_self :
      (p : Pending)
      → ((e : PendingSyncEntry) → e.memory_id ≡ row.memory_id → f e ≡ row)
      → Table.select memory_of row.memory_id (upsert_row row f p) ≡ some row
  unfolding upsert_row
  upsert_row_self p overwrites = elim (Bool-cases (any (λ e. e.memory_id == row.memory_id) p)) [
    | inl there ↦
        let (x, found) = select-some memory_of row.memory_id p there in
        let same : x.memory_id ≡ row.memory_id =
          Table.key-select memory_of row.memory_id p {x = x} found in
        rw (there, upsert_row)
          (Table.select-update_self memory_of f keeps row.memory_id p {x = x} found
            ∙ ap some (overwrites x same))
    | inr new ↦
        rw (new, upsert_row)
          (select-snoc_self memory_of p row (select-none memory_of row.memory_id p new))
  ]

  pub upsert_row-select :
      (p : Pending) (k : MemoryId)
      → ((e : PendingSyncEntry) → e.memory_id ≡ row.memory_id → f e ≡ row)
      → Table.select memory_of k (upsert_row row f p)
        ≡ (if k == row.memory_id then some row else Table.select memory_of k p)
  upsert_row-select p k overwrites = elim (Bool-cases (k == row.memory_id)) [
    | inl same ↦
        let e : row.memory_id ≡ k = ground arith in
        rw same (
          subst (λ j. Table.select memory_of j (upsert_row row f p) ≡ some row) e
            (upsert_row_self p overwrites))
    | inr other ↦ rw other (upsert_row_other k p (λ e. ground arith))
  ]

-- After `upsert_with_payload` the memory has one row, which is that of this call, whatever the
-- table held, and the rows of the other memories are what they were.
pub upsert_with_payload-get :
    (m : MemoryId) (op : CascadeOperation) (t : Time) (seq : ℕ) (payload : Text) (p : Pending)
    (k : MemoryId)
    → IsKeyed memory_of p
    → IsKeyed memory_of (upsert_with_payload m op t seq payload p)
      × (get k (upsert_with_payload m op t seq payload p) ≡ (
          if k == m
          then some (record {
            memory_id = m;
            operation = op;
            queued_at = t;
            sequence_id = seq;
            payload = some payload;
          })
          else get k p))
unfolding upsert_with_payload get
upsert_with_payload-get m op t seq payload p k keyed =
    let row : PendingSyncEntry = record {
      memory_id = m;
      operation = op;
      queued_at = t;
      sequence_id = seq;
      payload = some payload;
    } in
    let f : PendingSyncEntry → PendingSyncEntry =
      λ e. record e { operation = op; queued_at = t; sequence_id = seq; payload = some payload } in
    (
      upsert_row-IsKeyed row f (λ e. refl) p keyed,
      upsert_row-select row f (λ e. refl) p k
          (λ e same. ap (λ i. record row { memory_id = i }) same),
    )

-- The sequence numbers of the rows are those that were there and that of the call.
pub upsert_with_payload-All :
    (P : ℕ → Type 0) (m : MemoryId) (op : CascadeOperation) (t : Time) (seq : ℕ) (payload : Text)
    (p : Pending)
    → P seq
    → All (λ e. P e.sequence_id) p
    → All (λ e. P e.sequence_id) (upsert_with_payload m op t seq payload p)
unfolding upsert_with_payload upsert_row
upsert_with_payload-All P m op t seq payload p h hs =
    elim (Bool-cases (any (λ e. e.memory_id == m) p)) [
      | inl there ↦
          rw (there, upsert_row) (All-update memory_of (λ e. P e.sequence_id) m _ p (λ e _. h) hs)
      | inr new ↦ rw (new, upsert_row) (All-snoc (λ e. P e.sequence_id) p _ hs h)
    ]
