-- ===== src/Retrieval/Abstain.antt =====
-- `AbstainingRetriever` (crates/vault-retrieval/src/strategies/abstain.rs): no answer where the best
-- keyword score is too low.
use agent_memory_vault.Base.{List, [], ◌∷◌, ◌==◌, if◌then◌else◌, length}
use agent_memory_vault.Core.Float.{F32, f32_zero, f32_lt}
use agent_memory_vault.Core.Error.{ok, ◌>>=◌, ◌>>◌}
use agent_memory_vault.Retrieval.Query.{RetrievedMemory, Retriever, check_query, max_results_cap}

-- `probe_hits.first().map(|m| m.score).unwrap_or(0.0)`.
unfoldable pub top_score : List RetrievedMemory → F32
top_score [] = f32_zero
top_score (r ∷ _) = r.score

unfoldable pub retrieve : F32 → Retriever → Retriever → Retriever
unfolding top_score
retrieve threshold inner keyword q =
    check_query q
    >> (if length q.authorized_boundaries == 0 then ok [] else do
      probe_hits ← keyword (record q { max_results = max_results_cap })
      if f32_lt (top_score probe_hits) threshold then ok [] else inner q)
