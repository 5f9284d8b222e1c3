-- ===== src/Retrieval/Contract/Fused.antt =====
-- The fusion of two retrievers that keep the contract keeps it, and so does the gate before one.
use agent_memory_vault.Base.{
  ℕ, ◌≡◌, true, false, Option, List, [], ◌∷◌, ◌++◌, map, if◌then◌else◌, All, All-append, Bool-cases,
  Option-cases, inl, inr,
}
use agent_memory_vault.Base.Table.{select}
use agent_memory_vault.Base.Table.Rows.{All-snoc, select-All}
use agent_memory_vault.Core.Float.{F32, is_nan, f32_lt}
use agent_memory_vault.Core.Error.{Result, ok, ◌>>=◌, Result-cases}
use agent_memory_vault.Core.Memory.{Memory, MemoryId}
use agent_memory_vault.Retrieval.Query.{
  RetrievalQuery, RetrievedMemory, Retriever, check_query, max_results_cap,
}
use agent_memory_vault.Retrieval.Keyword.{memory_key}
use agent_memory_vault.Retrieval.Hybrid
use agent_memory_vault.Retrieval.Hybrid.{
  HybridConfig, Fusion, Ranks, rank_map, result_memory, first_copies, contribution, fused,
  score_ids, no_ranks, fuse, try_join, widened,
}
use agent_memory_vault.Retrieval.Abstain
use agent_memory_vault.Retrieval.Abstain.{top_score}
use agent_memory_vault.Retrieval.Contract.{
  Vectorized, is_visible, Answer, Answers, failed, stopped, answered, Contract, empty-Answer,
  best-Answer, guarded-Answers,
}

-- The sum of two contributions is a number.
abbrev pub FusionLaws : Fusion → ℕ → Type 0
FusionLaws F k =
    (a b : Option ℕ) → is_nan (F.plus (contribution F k a) (contribution F k b)) ≡ false

module _ (P : Memory → Type 0) where
  first_copies-All :
      (ms by_id : List Memory) → All P ms → All P by_id → All P (first_copies ms by_id)
  unfolding first_copies
  first_copies-All [] by_id h k = k
  first_copies-All (m ∷ ms) by_id h k = elim (Option-cases (select memory_key m.id by_id)) [
    | inl new ↦
        rw (first_copies, new)
          (first_copies-All ms (by_id ++ (m ∷ [])) h.1 (All-snoc P by_id m k h.0))
    | inr (_, old) ↦ rw (first_copies, old) (first_copies-All ms by_id h.1 k)
  ]

  score_ids-All :
      (F : Fusion) (k : ℕ) (s t : Ranks) (by_id : List Memory) (ids : List MemoryId)
      → All P by_id
      → All (λ r. P r.memory) (score_ids F k s t by_id ids)
  unfolding score_ids fused
  score_ids-All F k s t by_id [] h = tt
  score_ids-All F k s t by_id (id ∷ ids) h = elim (Option-cases (select memory_key id by_id)) [
    | inl absent ↦ rw (score_ids, absent) (score_ids-All F k s t by_id ids h)
    | inr (m, found) ↦
        rw (score_ids, found)
          (select-All memory_key P id by_id {x = m} h found, score_ids-All F k s t by_id ids h)
  ]

  memories-All :
      (results : List RetrievedMemory)
      → All (λ r. P r.memory) results
      → All P (map result_memory results)
  memories-All [] h = tt
  memories-All (r ∷ rs) h = (h.0, memories-All rs h.1)

score_ids-numbers :
    (F : Fusion) (k : ℕ) (s t : Ranks) (by_id : List Memory) (ids : List MemoryId)
    → FusionLaws F k
    → All (λ r. is_nan r.score ≡ false) (score_ids F k s t by_id ids)
unfolding score_ids fused
score_ids-numbers F k s t by_id [] laws = tt
score_ids-numbers F k s t by_id (id ∷ ids) laws = elim (Option-cases (select memory_key id by_id)) [
  | inl absent ↦ rw (score_ids, absent) (score_ids-numbers F k s t by_id ids laws)
  | inr (m, found) ↦
      rw (score_ids, found) (laws (s m.id) (t m.id), score_ids-numbers F k s t by_id ids laws)
]

fuse-Answer :
    (S : Vectorized) (F : Fusion) (config : HybridConfig) (q : RetrievalQuery)
    (xs ys : List RetrievedMemory)
    → FusionLaws F config.rrf_k
    → All (λ r. is_visible S q r.memory ≡ true) xs
    → All (λ r. is_visible S q r.memory ≡ true) ys
    → Answer S q (fuse F config q.max_results xs ys)
unfolding fuse
fuse-Answer S F config q xs ys laws hx hy =
    let P = λ (m : Memory). is_visible S q m ≡ true in
    let by_id = first_copies (map result_memory xs ++ map result_memory ys) [] in
    let s = rank_map 0 xs no_ranks in
    let t = rank_map 0 ys no_ranks in
    let ids = F.walk (map memory_key by_id) in
    best-Answer S q (score_ids F config.rrf_k s t by_id ids)
      (score_ids-numbers F config.rrf_k s t by_id ids laws)
      (score_ids-All P F config.rrf_k s t by_id ids (
        first_copies-All P (map result_memory xs ++ map result_memory ys) []
          (All-append P (map result_memory xs) (map result_memory ys) (memories-All P xs hx)
            (memories-All P ys hy))
          tt))

-- The results of a query with another `max_results`.
joined-Answers :
    (S : Vectorized) (F : Fusion) (config : HybridConfig) (q : RetrievalQuery) (n : ℕ)
    (a b : Result (List RetrievedMemory))
    → FusionLaws F config.rrf_k
    → Answers S (record q { max_results = n }) a
    → Answers S (record q { max_results = n }) b
    → Answers S q (
        try_join F.semantic_fails_first a b >>= λ both.
        ok (fuse F config q.max_results both.0 both.1))
unfolding try_join
joined-Answers S F config q n a b laws (answered xs hx) (answered ys hy) =
    answered (fuse F config q.max_results xs ys)
      (fuse-Answer S F config q xs ys laws hx.visible hy.visible)
joined-Answers S F config q n a b laws (answered xs hx) (failed why) = failed why
joined-Answers S F config q n a b laws (answered xs hx) stopped = stopped
joined-Answers S F config q n a b laws (failed why) (answered ys hy) = failed why
joined-Answers S F config q n a b laws (failed why) (failed why') =
    failed (if F.semantic_fails_first then why else why')
joined-Answers S F config q n a b laws (failed why) stopped =
    elim (Bool-cases F.semantic_fails_first) [ inl e ↦ rw e (failed why) | inr e ↦ rw e stopped ]
joined-Answers S F config q n a b laws stopped (answered ys hy) = stopped
joined-Answers S F config q n a b laws stopped (failed why) =
    elim (Bool-cases F.semantic_fails_first) [ inl e ↦ rw e stopped | inr e ↦ rw e (failed why) ]
joined-Answers S F config q n a b laws stopped stopped = stopped

pub hybrid-Contract :
    (S : Vectorized) (F : Fusion) (config : HybridConfig) (semantic keyword : Retriever)
    → FusionLaws F config.rrf_k
    → Contract S semantic
    → Contract S keyword
    → Contract S (Hybrid.retrieve F config semantic keyword)
unfolding Hybrid.retrieve widened
hybrid-Contract S F config semantic keyword laws hs hk q = guarded-Answers S q (check_query q) _ (
    joined-Answers S F config q (widened config q).max_results (semantic (widened config q))
      (keyword (widened config q)) laws (hs (widened config q)) (hk (widened config q)))

-- The gate answers with nothing, or as the retriever behind it.
pub abstain-Contract :
    (S : Vectorized) (threshold : F32) (inner keyword : Retriever)
    → Contract S inner
    → Contract S (Abstain.retrieve threshold inner keyword)
unfolding Abstain.retrieve
abstain-Contract S threshold inner keyword h q =
    guarded-Answers S q (check_query q) _
      (elim (Result-cases (keyword (record q { max_results = max_results_cap }))) [
        | inl (probe, e) ↦ elim (Bool-cases (f32_lt (top_score probe) threshold)) [
          | inl low ↦ rw (e, low) (answered [] (empty-Answer S q))
          | inr high ↦ rw (e, high) (h q)
        ]
        | inr (inl (why, e)) ↦ rw e (failed why)
        | inr (inr e) ↦ rw e stopped
      ])
