-- ===== src/Storage/Queue/Polling.antt =====
-- What `poll_due` returns: due entries only, in the order of their sequence numbers.
use mathlib.Core.List.{Perm}
use agent_memory_vault.Base.{
  ℕ, inl, inr, some, none, ◌==◌, ltb, Bool-cases, All-kept, suc, ◌^◌, ◌<◌, ◌≤◌, ◌≡◌, Bool, true,
  false, List, [], ◌∷◌, arith, leb, lt→ltb, length, keep, All, All-take, All-keep, All-map, leb→le,
  length-take, subst, sym, zero, take_all,
}
use agent_memory_vault.Base.Table
use agent_memory_vault.Base.Table.{IsKeyed}
use agent_memory_vault.Base.Sort.{
  sort_by, IsSorted, sort_by-IsSorted, sort_by-perm, All-sort_by, IsSorted-take, length-sort_by,
  sort_by-All,
}
use agent_memory_vault.Core.Memory.{Time}
use agent_memory_vault.Storage.Queue.{RetryEntry, Queue, entry_id, poll_le, poll_due, limit_rows}

poll_le_total : (a b : RetryEntry) → poll_le a b ≡ false → poll_le b a ≡ true
poll_le_total a b h = ground arith

poll_le_trans : (a b c : RetryEntry) → poll_le a b ≡ true → poll_le b c ≡ true → poll_le a c ≡ true
poll_le_trans a b c h k = ground arith

poll_le-le : (a b : RetryEntry) → poll_le a b ≡ true → a.sequence_id ≤ b.sequence_id
poll_le-le a b h = ground arith

-- `next_attempt_at <= now`.
abbrev is_due : Time → RetryEntry → Bool
is_due now e = leb e.next_attempt_at now

abbrev pub in_order : Time → Queue → List RetryEntry
in_order now q = sort_by poll_le (keep (λ e. leb e.next_attempt_at now) q)

in_order-due : (now : Time) (q : Queue) → All (λ e. e.next_attempt_at ≤ now) (in_order now q)
in_order-due now q =
    All-sort_by poll_le (λ e. e.next_attempt_at ≤ now) (keep (is_due now) q)
      (All-map (λ e. is_due now e ≡ true) (λ e. e.next_attempt_at ≤ now) (keep (is_due now) q)
        (λ e h. leb→le _ _ h) (All-keep (is_due now) q))

limit_rows_head {ℓ} :
    {A : Type ℓ} (n : ℕ) (xs : List A) {x : A} {rest : List A}
    → limit_rows n xs ≡ x ∷ rest
    → (others : List A) × (xs ≡ x ∷ others)
limit_rows_head zero [] h = cc
limit_rows_head (suc n) [] h = absurd (ground arith)
limit_rows_head zero (y ∷ ys) h = cc
limit_rows_head (suc n) (y ∷ ys) h = (ys, ground arith)

-- Every entry that `poll_due` returns is due, they come in the order of (sequence_id,
-- next_attempt_at), and there are at most `limit` of them, for a limit below 2 ^ 63.
pub poll_due-IsSorted :
    (now : Time) (limit : ℕ) (q : Queue)
    → limit < 2 ^ 63
    → All (λ e. e.next_attempt_at ≤ now) (poll_due now limit q)
      × IsSorted poll_le (poll_due now limit q)
      × (length (poll_due now limit q) ≤ limit)
unfolding poll_due
poll_due-IsSorted now limit q h =
    rw (lt→ltb _ _ h, limit_rows)
      (
        All-take (λ e. e.next_attempt_at ≤ now) limit (in_order now q) (in_order-due now q),
        IsSorted-take poll_le limit (in_order now q)
            (sort_by-IsSorted poll_le poll_le_total poll_le_trans (keep (is_due now) q)),
        omega (arith, length-take limit (in_order now q)),
      )

-- A limit that is not reached leaves nothing out: the result holds the due entries, each once.
pub poll_due-perm :
    (now : Time) (limit : ℕ) (q : Queue)
    → length (keep (λ e. leb e.next_attempt_at now) q) ≤ limit
    → limit < 2 ^ 63
    → Perm (poll_due now limit q) (keep (λ e. leb e.next_attempt_at now) q)
unfolding poll_due
poll_due-perm now limit q fits h =
    rw
      (
        lt→ltb _ _ h,
        limit_rows,
        take_all limit (in_order now q)
            (rw (length-sort_by poll_le (keep (λ e. leb e.next_attempt_at now) q)) fits),
      )
      (sort_by-perm poll_le (keep (λ e. leb e.next_attempt_at now) q))

-- The entry that the worker takes has the least sequence number of all entries that are due.
pub poll_due-least :
    (now : Time) (limit : ℕ) (q : Queue) {e : RetryEntry} {rest : List RetryEntry}
    → poll_due now limit q ≡ e ∷ rest
    → All (λ x. e.sequence_id ≤ x.sequence_id) (keep (λ x. leb x.next_attempt_at now) q)
unfolding poll_due
poll_due-least now limit q {e = e} {rest = rest} h =
    let (others, whole) = limit_rows_head limit (in_order now q) {x = e} {rest = rest} h in
    let sorted : IsSorted poll_le (e ∷ others) =
      subst (IsSorted poll_le) whole
        (sort_by-IsSorted poll_le poll_le_total poll_le_trans (keep (is_due now) q)) in
    sort_by-All poll_le (λ x. e.sequence_id ≤ x.sequence_id) (keep (is_due now) q)
      (subst (All (λ x. e.sequence_id ≤ x.sequence_id)) (sym whole) (
        omega arith,
        All-map (λ x. poll_le e x ≡ true) (λ x. e.sequence_id ≤ x.sequence_id) others (poll_le-le e)
            sorted.0,
      ))

found_head : (e : RetryEntry) (q : Queue) → Table.select entry_id e.id (e ∷ q) ≡ some e
found_head e q = ground arith

found_later :
    (e x : RetryEntry) (q : Queue)
    → Table.select entry_id e.id q ≡ none
    → Table.select entry_id x.id q ≡ some x
    → Table.select entry_id x.id (e ∷ q) ≡ some x
found_later e x q n h = elim (Bool-cases (e.id == x.id)) [
  | inl same ↦
      let k : e.id ≡ x.id = ground arith in
      absurd (let other = subst (λ i. Table.select entry_id i q ≡ none) k n in cc)
  | inr other ↦ rw (other, Table.select) h
]

-- In a keyed table every row is found under its key.
All-found : (q : Queue) → IsKeyed entry_id q → All (λ x. Table.select entry_id x.id q ≡ some x) q
All-found [] k = tt
All-found (e ∷ q) k = (
  found_head e q,
  All-map (λ x. Table.select entry_id x.id q ≡ some x) _ q (λ x h. found_later e x q k.0 h)
      (All-found q k.1),
)

-- What `poll_due` returns of a keyed table are rows of it.
pub poll_due-select :
    (now : Time) (limit : ℕ) (q : Queue)
    → IsKeyed entry_id q
    → All (λ x. Table.select entry_id x.id q ≡ some x) (poll_due now limit q)
unfolding poll_due
poll_due-select now limit q k =
    let P : RetryEntry → Type 0 = λ x. Table.select entry_id x.id q ≡ some x in
    let sorted =
      All-sort_by poll_le P (keep (is_due now) q) (All-kept P (is_due now) q (All-found q k)) in
    elim (Bool-cases (ltb limit (2 ^ 63))) [
      | inl within ↦ rw (within, limit_rows) (All-take P limit _ sorted)
      | inr beyond ↦ rw (beyond, limit_rows) sorted
    ]
