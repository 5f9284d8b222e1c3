-- ===== src/Retrieval/Reranked.antt =====
-- `RerankedRetriever` (crates/vault-retrieval/src/reranked_retriever.rs). The cross encoder, the
-- logistic function of `f32` and the printing of scores are parameters.
pub mod Reordered
use agent_memory_vault.Base.{
  ℕ, ◌+◌, ◌*◌, min, Bool, true, false, not, ◌&&◌, ◌||◌, Option, none, some, List, [], ◌∷◌, ◌++◌,
  map, ◌==◌, ltb, if◌then◌else◌, length, keep, take, drop,
}
use agent_memory_vault.Base.Sort.{sort_by}
use agent_memory_vault.Core.Text.{Text, codes}
use agent_memory_vault.Core.Float.{F32, f32_zero, f32_le, f32_lt, is_nan}
use agent_memory_vault.Core.Error.{
  VaultError, Result, ok, err, panicked, ◌>>=◌, ◌>>◌, embedding, model_unavailable,
}
use agent_memory_vault.Core.Memory.{Memory, MemoryId, reject_if}
use agent_memory_vault.Consolidate.Stale.{member}
use agent_memory_vault.Retrieval.Query.{
  RetrievalOptions, RetrievalQuery, RetrievedMemory, Retriever, max_results_cap,
}
use agent_memory_vault.Retrieval.Hybrid.{result_memory}

abbrev pub search_candidate_fanout : ℕ
search_candidate_fanout = 20

abbrev pub rerank_candidate_cap : ℕ
rerank_candidate_cap = 2 * search_candidate_fanout

-- `RerankProvider::rerank`, `1.0 / (1.0 + (-logit).exp())`, and the explanation of a score.
pub record Reranker : Type 0 where
  pub rerank : Text → List Text → Result (List F32)
  pub logistic : F32 → F32
  pub print_reranked : F32 → F32 → Text

abbrev pub is_model_unavailable : VaultError → Bool
is_model_unavailable (model_unavailable _) = true
is_model_unavailable e = false

unfoldable pub relevance_score : Reranker → F32 → F32
relevance_score R logit = if is_nan logit then f32_zero else R.logistic logit

-- The `zip` with the scores and the `map` over it.
unfoldable pub rescored : Reranker → List RetrievedMemory → List F32 → List RetrievedMemory
unfolding relevance_score
rescored R [] scores = []
rescored R (c ∷ cs) [] = []
rescored R (c ∷ cs) (logit ∷ scores) =
    record c {
      score = relevance_score R logit;
      explanation = R.print_reranked logit (relevance_score R logit);
    }
    ∷ rescored R cs scores

-- `b.score.partial_cmp(&a.score).unwrap_or(Equal)` is not `Greater`.
unfoldable pub not_below : RetrievedMemory → RetrievedMemory → Bool
not_below a b = not (f32_lt a.score b.score)

abbrev pub content_of : RetrievedMemory → Text
content_of c = c.memory.content

-- What is made of the cross encoder's answer.
unfoldable pub reorder :
    Reranker
    → List RetrievedMemory
    → List RetrievedMemory
    → Result (List F32)
    → Result (List RetrievedMemory)
unfolding rescored not_below
reorder R head tail (ok scores) =
    if length scores == length head
    then ok (sort_by not_below (rescored R head scores))
    else err (embedding (codes "reranker returned another number of scores"))
reorder R head tail (err e) = if is_model_unavailable e then ok (head ++ tail) else err e
reorder R head tail panicked = panicked

unfoldable pub rerank_pool : Reranker → Text → List RetrievedMemory → Result (List RetrievedMemory)
unfolding reorder
rerank_pool R query_text candidates =
    let head = take rerank_candidate_cap candidates in
    let tail = drop rerank_candidate_cap candidates in
    if length candidates == 0
    then ok candidates
    else reorder R head tail (R.rerank query_text (map content_of head))

-- `RetrievalOptions::default()`.
abbrev pub default_options : RetrievalOptions
default_options = record { score_threshold = none; include_archived = false }

-- `semantic_recall_hits` and `graph_recall_hits`.
unfoldable pub recall_hits : Option Retriever → Text → List Text → Result (List RetrievedMemory)
recall_hits none query_text boundaries = ok []
recall_hits (some channel) query_text boundaries = channel (record {
  query_text = query_text;
  authorized_boundaries = boundaries;
  max_results = search_candidate_fanout;
  options = default_options;
})

-- `if seen.insert(h.memory.id) { pool.push(h) }` for each hit.
unfoldable pub assemble : List RetrievedMemory → List MemoryId → List RetrievedMemory
assemble [] seen = []
assemble (h ∷ hits) seen =
    let fresh = h ∷ assemble hits (h.memory.id ∷ seen) in
    let rest = assemble hits seen in if member h.memory.id seen then rest else fresh

unfoldable pub above : Option F32 → List RetrievedMemory → List RetrievedMemory
above none ranked = ranked
above (some t) ranked = keep (λ r. f32_le t r.score) ranked

-- `retrieve_inner`.
unfoldable pub retrieve : Reranker → Retriever → Option Retriever → Option Retriever → Retriever
unfolding rerank_pool recall_hits assemble above
retrieve R base semantic graph q = do
  reject_if (q.max_results == 0 || ltb max_results_cap q.max_results)
      (codes "max_results must be in 1..=MAX_RESULTS_CAP")
  base_hits ← base (record q {
    max_results = search_candidate_fanout;
    options = record { score_threshold = none; include_archived = q.options.include_archived };
  })
  graph_hits ← recall_hits graph q.query_text q.authorized_boundaries
  semantic_hits ← recall_hits semantic q.query_text q.authorized_boundaries
  ranked ← rerank_pool R q.query_text (assemble (graph_hits ++ (semantic_hits ++ base_hits)) [])
  ok (take q.max_results (above q.options.score_threshold ranked))
