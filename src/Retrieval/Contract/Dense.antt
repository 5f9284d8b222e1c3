-- ===== src/Retrieval/Contract/Dense.antt =====
-- The semantic retriever keeps the contract.
use agent_memory_vault.Base.{
  ℕ, suc, ◌≤◌, ◌≡◌, refl, subst, sym, ap, ◌∙◌, arith, Bool, true, false, ◌||◌, some, List, [], ◌∷◌,
  map, length, All, All-kept, All-take, Option-cases, inl, inr, keep, take, length-take,
}
use agent_memory_vault.Base.Sort.{
  sort_by, IsSorted, sort_by-IsSorted, sort_by-agree, IsSorted-take, All-sort_by,
}
use agent_memory_vault.Base.Table.{select, delete, key-select}
use agent_memory_vault.Core.Text.{Text}
use agent_memory_vault.Core.Float.{F32, f32_one, is_nan}
use agent_memory_vault.Core.Error.{IfOk}
use agent_memory_vault.Core.Memory.{Memory, MemoryId, Time}
use agent_memory_vault.Retrieval.Query.{RetrievalQuery, is_authorized}
use agent_memory_vault.Retrieval.Keyword.{memory_key, take_rows, hit_id}
use agent_memory_vault.Retrieval.Semantic.{
  Vectors, Scored, distance_of, score_memories, scored_before, select_scored, explain, passes,
  is_current,
}
use agent_memory_vault.Retrieval.Contract.{
  Vectorized, in_vectors, is_visible, in_rank, precedes, not_after-precedes,
}

-- The distance becomes a score that is a number.
abbrev pub AreScored : (F32 → F32 → F32) → List (MemoryId × F32) → Type 0
AreScored minus hits = All (λ h. is_nan (minus f32_one h.1) ≡ false) hits

-- The store has a vector of every hit in one of the boundaries.
abbrev pub AreWithin : Vectorized → List Text → List (MemoryId × F32) → Type 0
AreWithin S boundaries hits = All (λ h. in_vectors S h.0 boundaries ≡ true) hits

-- The vector search gives numbers, and applies the filter on the boundaries at the query: it finds
-- only ids of vectors that are stored in one of them.
pub record VectorsLaws (S : Vectorized) (V : Vectors) : Type 0 where
  pub scored :
      (e : List F32) (n : ℕ) (boundaries : List Text)
      → IfOk (AreScored V.minus) (V.search e n boundaries)
  pub within :
      (e : List F32) (n : ℕ) (boundaries : List Text)
      → IfOk (AreWithin S boundaries) (V.search e n boundaries)

any_visible : (a b : Bool) → b ≡ true → (a || b) ≡ true
any_visible a b h = ground (arith, h)

-- The vector of a row that is taken lies in one of the boundaries.
pub take_rows-visible :
    (S : Vectorized) (q : RetrievalQuery) (hits : List (MemoryId × F32)) (rows : List Memory)
    → AreWithin S q.authorized_boundaries hits
    → All (λ m. is_visible S q m ≡ true) (take_rows (map hit_id hits) rows)
unfolding take_rows
take_rows-visible S q [] rows h = tt
take_rows-visible S q (x ∷ hits) rows h = elim (Option-cases (select memory_key x.0 rows)) [
  | inl absent ↦ rw (take_rows, absent) (take_rows-visible S q hits rows h.1)
  | inr (m, found) ↦
      let same : m.id ≡ x.0 = key-select memory_key x.0 rows {x = m} found in
      let stored : in_vectors S m.id q.authorized_boundaries ≡ true =
        ap (λ k. in_vectors S k q.authorized_boundaries) same ∙ h.0 in
      rw (take_rows, found)
        (
          any_visible (is_authorized q m) (in_vectors S m.id q.authorized_boundaries) stored,
          take_rows-visible S q hits (delete memory_key x.0 rows) h.1,
        )
]

distance_of-scored :
    (minus : F32 → F32 → F32) (id : MemoryId) (hits : List (MemoryId × F32)) {d : F32}
    → AreScored minus hits
    → distance_of id hits ≡ some d
    → is_nan (minus f32_one d) ≡ false
unfolding distance_of
distance_of-scored minus id [] {d = d} h e = absurd (ground (arith, e))
distance_of-scored minus id ((k, x) ∷ hits) {d = d} h e =
    elim (Option-cases (distance_of id hits)) [
      | inl last ↦
          let same : x ≡ d = ground (arith, last, e) in
          subst (λ t. is_nan (minus f32_one t) ≡ false) same h.0
      | inr (later, found) ↦
          let same : later ≡ d = ground (arith, found, e) in
          subst (λ t. is_nan (minus f32_one t) ≡ false) same
            (distance_of-scored minus id hits {d = later} h.1 found)
    ]

-- What a scored memory has before the selection.
abbrev pub Fit : Vectorized → RetrievalQuery → Scored → Type 0
Fit S q s = (is_nan s.1 ≡ false) × (is_visible S q s.0 ≡ true)

pub score_memories-Fit :
    (S : Vectorized) (q : RetrievalQuery) (minus : F32 → F32 → F32) (hits : List (MemoryId × F32))
    (ms : List Memory)
    → AreScored minus hits
    → All (λ m. is_visible S q m ≡ true) ms
    → All (Fit S q) (score_memories minus hits ms)
unfolding score_memories
score_memories-Fit S q minus hits [] numbers h = tt
score_memories-Fit S q minus hits (m ∷ ms) numbers h =
    let rest = score_memories-Fit S q minus hits ms numbers h.1 in
    elim (Option-cases (distance_of m.id hits)) [
      | inl absent ↦ rw (score_memories, absent) rest
      | inr (d, found) ↦
          rw (score_memories, found)
            ((distance_of-scored minus m.id hits {d = d} numbers found, h.0), rest)
    ]

abbrev pub scored_rank : Scored → Scored → Bool
scored_rank a b = precedes a.1 a.0.created_at b.1 b.0.created_at

-- Memories that are selected, in order.
pub select_scored-IsSorted :
    (S : Vectorized) (q : RetrievalQuery) (now : Time) (scored : List Scored)
    → All (Fit S q) scored
    → IsSorted scored_rank (select_scored q now scored)
      × All (Fit S q) (select_scored q now scored)
      × (length (select_scored q now scored) ≤ q.max_results)
unfolding select_scored
select_scored-IsSorted S q now scored h =
    let current = keep (λ (s : Scored). q.options.include_archived || is_current now s.0) scored in
    let kept = keep (λ (s : Scored). passes q.options.score_threshold s.1) current in
    let fit =
      All-kept (Fit S q) (λ s. passes q.options.score_threshold s.1) current
        (All-kept (Fit S q) (λ s. q.options.include_archived || is_current now s.0) scored h) in
    (
      subst (λ t. IsSorted scored_rank (take q.max_results t))
          (sym (
            sort_by-agree scored_before scored_rank (Fit S q)
              (λ a b p r. not_after-precedes a.1 a.0.created_at b.1 b.0.created_at p.0 r.0) kept
              fit))
          (IsSorted-take scored_rank q.max_results (sort_by scored_rank kept) (
            sort_by-IsSorted scored_rank (λ a b t. ground arith) (λ a b c t u. ground arith) kept)),
      All-take (Fit S q) q.max_results (sort_by scored_before kept)
          (All-sort_by scored_before (Fit S q) kept fit),
      omega (arith, length-take q.max_results (sort_by scored_before kept)),
    )

-- The explanations change neither the order nor the memories.
module _ (print : F32 → ℕ → ℕ → Text) (q : RetrievalQuery) where
  explain-All :
      (s : Scored) (idx total : ℕ) (scored : List Scored)
      → All (λ t. scored_rank s t ≡ true) scored
      → All
          (λ r. precedes s.1 s.0.created_at r.score r.memory.created_at ≡ true)
          (explain print idx total scored)
  unfolding explain
  explain-All s idx total [] h = tt
  explain-All s idx total (t ∷ scored) h = (h.0, explain-All s (suc idx) total scored h.1)

  pub explain-IsSorted :
      (idx total : ℕ) (scored : List Scored)
      → IsSorted scored_rank scored
      → IsSorted in_rank (explain print idx total scored)
  unfolding explain
  explain-IsSorted idx total [] h = tt
  explain-IsSorted idx total (s ∷ scored) h =
      (explain-All s (suc idx) total scored h.0, explain-IsSorted (suc idx) total scored h.1)

  pub explain-visible :
      (S : Vectorized) (idx total : ℕ) (scored : List Scored)
      → All (Fit S q) scored
      → All (λ r. is_visible S q r.memory ≡ true) (explain print idx total scored)
  unfolding explain
  explain-visible S idx total [] h = tt
  explain-visible S idx total (s ∷ scored) h = (h.0.1, explain-visible S (suc idx) total scored h.1)

pub length-explain :
    (print : F32 → ℕ → ℕ → Text) (idx total : ℕ) (scored : List Scored)
    → length (explain print idx total scored) ≡ length scored
unfolding explain
length-explain print idx total [] = refl
length-explain print idx total (s ∷ scored) = ap suc (length-explain print (suc idx) total scored)
