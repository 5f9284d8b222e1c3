-- ===== src/Retrieval/Semantic.antt =====
-- `SemanticRetriever` (crates/vault-retrieval/src/strategies/semantic.rs). The embedding model, the
-- vector search, the subtraction of `f32` and the printing of a score are parameters.
use agent_memory_vault.Base.{
  ℕ, suc, ◌+◌, Bool, true, not, ◌&&◌, ◌||◌, Option, none, some, List, [], ◌∷◌, ◌++◌, map, ◌==◌, ltb,
  if◌then◌else◌, length, any, keep, take,
}
use agent_memory_vault.Base.Sort.{sort_by}
use agent_memory_vault.Core.Text.{Text, codes}
use agent_memory_vault.Core.Trim.{trim}
use agent_memory_vault.Core.Float.{F32, f32_one, f32_le}
use agent_memory_vault.Core.Error.{Result, ok, ◌>>=◌, ◌>>◌}
use agent_memory_vault.Core.Memory.{
  Memory, MemoryId, Time, is_superseded, is_expired_at, is_archived, reject_if,
}
use agent_memory_vault.Retrieval.Query.{
  RetrievalQuery, RetrievedMemory, Retriever, max_query_bytes, max_results_cap,
}
use agent_memory_vault.Retrieval.Ranking.{not_after}
use agent_memory_vault.Retrieval.Keyword.{hit_id, get_memories_batch}

-- `EmbeddingProvider::embed`, `VectorStore::search`, `-`, and `{score:.4} (rank {}/{})`.
pub record Vectors : Type 0 where
  pub embed : Text → Result (List F32)
  pub search : List F32 → ℕ → List Text → Result (List (MemoryId × F32))
  pub minus : F32 → F32 → F32
  pub print_rank : F32 → ℕ → ℕ → Text

unfoldable pub is_ascii_control : ℕ → Bool
is_ascii_control b = ltb b 32 || b == 127

unfoldable pub check_semantic : RetrievalQuery → Result (Unit {0})
unfolding is_ascii_control
check_semantic q =
    let trimmed = trim q.query_text in
    do
      reject_if (length trimmed == 0) (codes "query text empty after trim")
      reject_if (any is_ascii_control trimmed)
          (codes "query text contains ASCII control characters")
      reject_if (ltb max_query_bytes (length trimmed)) (codes "query length > MAX_QUERY_BYTES")
      reject_if (q.max_results == 0 || ltb max_results_cap q.max_results)
          (codes "max_results not in 1..=MAX_RESULTS_CAP")

-- `hits.into_iter().collect::<HashMap<_, _>>().get(&id)`: the last distance of the id.
unfoldable pub distance_of : MemoryId → List (MemoryId × F32) → Option F32
distance_of id [] = none
distance_of id ((k, d) ∷ hits) = elim (distance_of id hits) [
  | some later ↦ some later
  | none ↦ if k == id then some d else none
]

abbrev pub Scored : Type 0
Scored = Memory × F32

-- The `filter_map` over the memories.
unfoldable pub score_memories :
    (F32 → F32 → F32) → List (MemoryId × F32) → List Memory → List Scored
unfolding distance_of
score_memories minus hits [] = []
score_memories minus hits (m ∷ ms) = elim (distance_of m.id hits) [
  | none ↦ score_memories minus hits ms
  | some d ↦ (m, minus f32_one d) ∷ score_memories minus hits ms
]

unfoldable pub is_current : Time → Memory → Bool
is_current now m = not (is_superseded m) && not (is_expired_at m now) && not (is_archived m)

abbrev pub passes : Option F32 → F32 → Bool
passes none score = true
passes (some threshold) score = f32_le threshold score

abbrev pub scored_before : Scored → Scored → Bool
scored_before a b = not_after a.1 a.0.created_at b.1 b.0.created_at

-- The rank-aware explanations.
unfoldable pub explain : (F32 → ℕ → ℕ → Text) → ℕ → ℕ → List Scored → List RetrievedMemory
explain print idx total [] = []
explain print idx total (s ∷ rest) =
    record {
      memory = s.0;
      score = s.1;
      explanation = codes "semantic: cosine=" ++ print s.1 (idx + 1) total;
    }
    ∷ explain print (suc idx) total rest

-- The two `retain`s, the sort and the `truncate`.
unfoldable pub select_scored : RetrievalQuery → Time → List Scored → List Scored
unfolding is_current
select_scored q now scored = take q.max_results (
    sort_by scored_before (
      keep (λ s. passes q.options.score_threshold s.1)
        (keep (λ s. q.options.include_archived || is_current now s.0) scored)))

-- What is made of the rows.
unfoldable pub answer :
    Vectors → RetrievalQuery → Time → List (MemoryId × F32) → List Memory → List RetrievedMemory
unfolding score_memories select_scored explain
answer V q now hits memories =
    let scored = select_scored q now (score_memories V.minus hits memories) in
    explain V.print_rank 0 (length scored) scored

-- `retrieve_inner`.
unfoldable pub retrieve : Vectors → List Memory → Time → Retriever
unfolding check_semantic answer
retrieve V rows now q =
    check_semantic q
    >> (if length q.authorized_boundaries == 0 then ok [] else do
      embedding ← V.embed (trim q.query_text)
      hits ← V.search embedding q.max_results q.authorized_boundaries
      if length hits == 0
          then ok []
          else get_memories_batch rows (map hit_id hits) >>= λ memories.
              ok (answer V q now hits memories))
