-- ===== src/Consolidate/Stale/Survivor.antt =====
-- A verdict never retires a whole group.
use agent_memory_vault.Base.{
  ℕ, ◌<◌, ◌≤◌, ◌≡◌, ◌≢◌, ◌⊎◌, inl, inr, refl, sym, ◌∙◌, subst, Bool, true, false, not, ◌&&◌, ◌||◌,
  none, List, [], ◌∷◌, ◌++◌, arith, leb, ◌==◌, length, All, All-map, Bool-cases, leb→gt, leb→le,
}
use agent_memory_vault.Base.Table
use agent_memory_vault.Base.Table.{IsKeyed}
use agent_memory_vault.Base.Table.Rows.{snoc-IsKeyed, select-none, select-some, All-snoc}
use agent_memory_vault.Core.Memory.{MemoryId}
use agent_memory_vault.Consolidate.Stale.{
  StaleResolution, nothing, invalidate, refused_mass_invalidate, member, collect, resolve_stale_ids,
}

abbrev same : MemoryId → ℕ
same id = id

-- No id stands in the list twice.
abbrev pub IsDistinct : List MemoryId → Type 0
IsDistinct ids = IsKeyed same ids

collect-IsDistinct :
    (ids group found : List MemoryId) → IsDistinct found → IsDistinct (collect ids group found)
unfolding collect
collect-IsDistinct [] group found d = d
collect-IsDistinct (id ∷ ids) group found d =
    elim (Bool-cases (member id group && not (member id found))) [
      | inl new ↦ rw new (
          collect-IsDistinct ids group (found ++ (id ∷ []))
            (snoc-IsKeyed same found id d (select-none same id found (ground arith))))
      | inr old ↦ rw old (collect-IsDistinct ids group found d)
    ]

collect-All :
    (ids group found : List MemoryId)
    → All (λ x. member x group ≡ true) found
    → All (λ x. member x group ≡ true) (collect ids group found)
unfolding collect
collect-All [] group found h = h
collect-All (id ∷ ids) group found h =
    elim (Bool-cases (member id group && not (member id found))) [
      | inl new ↦ rw new (
          collect-All ids group (found ++ (id ∷ []))
            (All-snoc (λ x. member x group ≡ true) found id h (ground arith)))
      | inr old ↦ rw old (collect-All ids group found h)
    ]

member-delete :
    (k x : MemoryId) (ids : List MemoryId)
    → x ≢ k
    → member x ids ≡ true
    → member x (Table.delete same k ids) ≡ true
member-delete k x [] n h = h
member-delete k x (y ∷ ids) n h = ground (arith, member-delete k x ids n)

-- The members of a list that stand behind a member that is not among them are other ids.
others :
    (x : MemoryId) (xs ys : List MemoryId)
    → Table.select same x xs ≡ none
    → All (λ y. member y ys ≡ true) xs
    → All (λ y. member y (Table.delete same x ys) ≡ true) xs
others x [] ys n h = tt
others x (y ∷ xs) ys n h =
    (member-delete x y ys (λ e. ground arith) h.0, others x xs ys (ground arith) h.1)

-- Distinct ids that all stand in another distinct list are no more than that has.
length-distinct :
    (xs ys : List MemoryId)
    → IsDistinct xs
    → IsDistinct ys
    → All (λ x. member x ys ≡ true) xs
    → length xs ≤ length ys
length-distinct [] ys d e h = omega arith
length-distinct (x ∷ xs) ys d e h =
    let (y, found) = select-some same x ys h.0 in
    let shorter =
      length-distinct xs (Table.delete same x ys) d.1 (Table.delete-IsKeyed same x ys e)
        (others x xs ys d.0 h.1) in
    omega (arith, Table.length-delete same x ys {x = y} e found, shorter)

missing :
    (xs ys : List MemoryId)
    → All (λ x. member x ys ≡ true) xs
      ⊎ ((g : MemoryId) × (member g xs ≡ true) × (member g ys ≡ false))
missing [] ys = inl tt
missing (x ∷ xs) ys = elim (Bool-cases (member x ys)) [
  | inr out ↦ inr (x, ground arith, out)
  | inl there ↦ elim (missing xs ys) [
    | inl all ↦ inl (there, all)
    | inr (g, m, n) ↦ inr (g, ground arith, n)
  ]
]

member-snoc :
    (x y : MemoryId) (ids : List MemoryId) → member x (ids ++ (y ∷ [])) ≡ (member x ids || y == x)
member-snoc x y [] = ground arith
member-snoc x y (z ∷ ids) = ground (arith, member-snoc x y ids)

-- A test that an old id fails decides nothing: it was found before, or is not in the group.
or_old : (a b c : Bool) → (a && not b) ≡ false → (b || (c && a)) ≡ (b || a)
or_old true true c h = refl
or_old true false c h = absurd (cc)
or_old false true c h = refl
or_old false false true h = refl
or_old false false false h = refl

-- What is collected: the ids that were there, and those of the verdict that are in the group.
collect-member :
    (ids group found : List MemoryId) (x : MemoryId)
    → member x (collect ids group found) ≡ (member x found || (member x ids && member x group))
unfolding collect
collect-member [] group found x = ground arith
collect-member (id ∷ ids) group found x =
    elim (Bool-cases (member id group && not (member id found))) [
      | inl new ↦
          rw new (
            ground (arith, collect-member ids group (found ++ (id ∷ [])) x, member-snoc x id found))
      | inr old ↦ rw old (elim (Bool-cases (id == x)) [
        | inr other ↦ rw (other, ◌||◌) (collect-member ids group found x)
        | inl same_id ↦
            let k : id ≡ x = ground arith in
            let old' : (member x group && not (member x found)) ≡ false =
              subst (λ i. (member i group && not (member i found)) ≡ false) k old in
            rw (same_id, ◌||◌)
              (collect-member ids group found x
                ∙ or_old (member x group) (member x found) (member x ids) old')
      ])
    ]

-- What the resolution says of the verdict and the group.
pub data Resolved (verdict group : List MemoryId) : StaleResolution → Type 0 where
  none_named :
      ((x : MemoryId) → (member x verdict && member x group) ≡ false)
      → Resolved verdict group nothing
  retires :
      (ids : List MemoryId) (g : MemoryId)
      → 0 < length ids
      → IsDistinct ids
      → ((x : MemoryId) → member x ids ≡ (member x verdict && member x group))
      → member g group ≡ true
      → member g ids ≡ false
      → Resolved verdict group (invalidate ids)
  refuses :
      All (λ g. member g verdict ≡ true) group
      → Resolved verdict group (refused_mass_invalidate (length group) (length group))

covers :
    (verdict group : List MemoryId) (xs : List MemoryId)
    → All (λ g. member g (collect verdict group []) ≡ true) xs
    → All (λ g. member g verdict ≡ true) xs
covers verdict group xs h =
    All-map (λ g. member g (collect verdict group []) ≡ true) (λ g. member g verdict ≡ true) xs
      (λ g p. ground (arith, collect-member verdict group [] g)) h

member_empty :
    (x : MemoryId) (ids : List MemoryId) → (length ids == 0) ≡ true → member x ids ≡ false
member_empty x [] h = refl
member_empty x (y ∷ ids) h = absurd (ground arith)

-- A member of a group that is not among distinct members of it makes them fewer.
length-missing :
    (g : MemoryId) (ids group : List MemoryId)
    → IsDistinct ids
    → IsDistinct group
    → All (λ x. member x group ≡ true) ids
    → member g group ≡ true
    → member g ids ≡ false
    → length ids < length group
length-missing g ids group d e inside there out =
    let longer =
      length-distinct (g ∷ ids) group (select-none same g ids out, d) e (there, inside) in
    omega (arith, longer)

-- Of a group without repetitions the ids that are invalidated are those that the verdict names, each
-- once, and at least one member of the group is left; nothing is invalidated where the verdict names
-- no member, and the verdict is refused only where it names all.
pub resolve_stale_ids-Resolved :
    (verdict group : List MemoryId)
    → IsDistinct group
    → Resolved verdict group (resolve_stale_ids verdict group)
unfolding resolve_stale_ids
resolve_stale_ids-Resolved verdict group d =
    let found = collect verdict group [] in
    let distinct : IsDistinct found = collect-IsDistinct verdict group [] tt in
    let inside : All (λ x. member x group ≡ true) found = collect-All verdict group [] tt in
    let few : length found ≤ length group = length-distinct found group distinct d inside in
    elim (Bool-cases (length found == 0)) [
      | inl empty ↦
          rw empty
            (none_named (λ x. sym (collect-member verdict group [] x) ∙ member_empty x found empty))
      | inr some_found ↦ elim (Bool-cases (leb (length group) (length found))) [
        | inl every ↦
            let whole : length found ≡ length group = omega (arith, leb→le _ _ every, few) in
            rw (some_found, every, whole)
              (refuses (elim (missing group found) [
                | inl all ↦ covers verdict group group all
                | inr (g, there, out) ↦
                    absurd (
                      omega
                        (arith, whole, length-missing g found group distinct d inside there out))
              ]))
        | inr fewer ↦
            rw (some_found, fewer)
              (elim (missing group found) [
                | inl all ↦
                    absurd
                      (omega (arith, leb→gt _ _ fewer, length-distinct group found d distinct all))
                | inr (g, there, out) ↦
                    retires found g (ground arith) distinct (collect-member verdict group []) there
                      out
              ])
      ]
    ]
