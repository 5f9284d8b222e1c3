-- ===== src/Tests/Retrieval.antt =====
-- The theorems on retrieval at concrete inputs.
use agent_memory_vault.Base.{
  ℕ, ◌≡◌, refl, inl, inr, true, false, none, some, [], ◌∷◌, List, any, Bool-cases, if◌then◌else◌,
  map, take,
}
use agent_memory_vault.Core.Text.{Text, codes, text_eq}
use agent_memory_vault.Core.Trim.{trim, strip, white_at, white_before}
use agent_memory_vault.Core.Float.{f32_one}
use agent_memory_vault.Core.Error.{
  Result, ok, err, panicked, IfOk, model_unavailable, invalid_input,
}
use agent_memory_vault.Retrieval.Query.{RetrievalQuery, RetrievedMemory, Retriever}
use agent_memory_vault.Retrieval.Keyword
use agent_memory_vault.Retrieval.Keyword.{Index}
use agent_memory_vault.Retrieval.Graph.{Graph}
use agent_memory_vault.Retrieval.Semantic
use agent_memory_vault.Retrieval.Semantic.{Vectors}
use agent_memory_vault.Retrieval.Hybrid
use agent_memory_vault.Retrieval.Hybrid.{Fusion, default_config}
use agent_memory_vault.Retrieval.Abstain
use agent_memory_vault.Retrieval.Reranked.{Reranker, rerank_pool, rerank_candidate_cap, content_of}
use agent_memory_vault.Retrieval.Reranked.Reordered.{Reordered, rerank_pool-Reordered}
use agent_memory_vault.Retrieval.Stack.{hybrid, memory_search}
use agent_memory_vault.Retrieval.Contract.{Vectorized, Answers}
use agent_memory_vault.Retrieval.Contract.Dense.{AreScored, AreWithin, VectorsLaws}
use agent_memory_vault.Retrieval.Contract.Searched.{
  IsWithin, hybrid-Answers, memory_search-IsWithin,
}
use agent_memory_vault.Retrieval.Contract.Refused.{retrieve-check_query}
use agent_memory_vault.Tests.Samples.{memory}

abbrev in_work : List Text → Result (List (ℕ × ℕ))
in_work bs = if any (λ b. text_eq b (codes "work")) bs then ok ((4, 0) ∷ []) else ok []

-- One vector, of memory 4, in the boundary `work`.
abbrev vectors : Vectors
vectors = record {
  embed = λ t. ok t;
  search = λ e n bs. in_work bs;
  minus = λ a b. f32_one;
  print_rank = λ s i n. i ∷ n ∷ [];
}

-- What is stored of the vector.
abbrev stored : Vectorized
stored = (4, codes "work") ∷ []

in_work-within : (bs : List Text) → IfOk (AreWithin stored bs) (in_work bs)
in_work-within bs = elim (Bool-cases (any (λ b. text_eq b (codes "work")) bs)) [
  | inl h ↦ rw h (rw h refl, tt)
  | inr h ↦ rw h tt
]

in_work-scored : (bs : List Text) → IfOk (AreScored (λ a b. f32_one)) (in_work bs)
in_work-scored bs = elim (Bool-cases (any (λ b. text_eq b (codes "work")) bs)) [
  | inl h ↦ rw h (refl, tt)
  | inr h ↦ rw h tt
]

abbrev vectors-laws : VectorsLaws stored vectors
vectors-laws = record { scored = λ e n bs. in_work-scored bs; within = λ e n bs. in_work-within bs }

-- An index that finds the memories 4 and 5 for every text.
abbrev index : Index
index = record {
  has_searchable_terms = λ t. true;
  run = λ t n. ok ((5, f32_one) ∷ (4, 0) ∷ []);
  print_score = λ s. [];
}

abbrev fusion : Fusion
fusion = record {
  of_nat = λ n. 0;
  plus = λ a b. f32_one;
  divide = λ a b. 0;
  print_fused = λ s a b. [];
  walk = λ ids. ids;
  semantic_fails_first = true;
}

abbrev query : RetrievalQuery
query = record {
  query_text = codes "tea";
  authorized_boundaries = codes "work" ∷ [];
  max_results = 5;
  options = record { score_threshold = none; include_archived = false };
}

hybrid-Answers_example : Answers stored query (hybrid fusion vectors index (memory 4 ∷ []) 3 query)
hybrid-Answers_example =
    hybrid-Answers stored fusion vectors index (memory 4 ∷ []) 3 (λ a b. refl) vectors-laws
      (λ t n. (refl, (refl, tt))) query

abbrev reranker : Reranker
reranker = record {
  rerank = λ q docs. err (model_unavailable (codes "reranker"));
  logistic = λ x. x;
  print_reranked = λ a b. [];
}

-- A graph in which the query names the entity 1, which memory 4 connects.
abbrev graph : Graph
graph = record {
  tokenize = λ t. t ∷ [];
  to_lowercase = λ t. t;
  list_entities = λ bs. ok (record { id = 1; name = codes "tea" } ∷ []);
  relationships_for_entity = λ e bs. ok (some 4 ∷ none ∷ []);
  traverse = λ e bs hops. ok [];
  walk = λ ids. ids;
}

memory_search-IsWithin_example :
    IfOk
      (IsWithin stored query)
      (memory_search fusion vectors index (some reranker) (some graph) (memory 4 ∷ []) 3 query)
memory_search-IsWithin_example =
    memory_search-IsWithin stored fusion vectors index (some reranker) (some graph) (memory 4 ∷ [])
      3 query (λ a b. refl) vectors-laws (λ t n. (refl, (refl, tt)))

abbrev hit : ℕ → RetrievedMemory
hit id = record { memory = memory id; score = 0; explanation = [] }

-- A cross encoder that prefers the second of two.
abbrev second_first : Reranker
second_first = record {
  rerank = λ q docs. ok (0 ∷ f32_one ∷ []);
  logistic = λ x. x;
  print_reranked = λ a b. [];
}

rerank_pool-Reordered_example :
    Reordered second_first
      (second_first.rerank
        (codes "tea")
        (map content_of (take rerank_candidate_cap (hit 4 ∷ hit 5 ∷ []))))
      (hit 4 ∷ hit 5 ∷ [])
      (rerank_pool second_first (codes "tea") (hit 4 ∷ hit 5 ∷ []))
rerank_pool-Reordered_example =
    rerank_pool-Reordered second_first (codes "tea") (hit 4 ∷ hit 5 ∷ []) (λ x h. h)

-- A channel that panics.
abbrev broken : Retriever
broken = λ q. panicked

abbrev blank : RetrievalQuery
blank = record query { query_text = codes "  " }

blank-trim : trim (codes "  ") ≡ []
unfolding trim strip white_at white_before
blank-trim = refl

retrieve-check_query_example :
    ((why : Text) × (Hybrid.retrieve fusion default_config broken broken blank
        ≡ err (invalid_input why))
      × (Abstain.retrieve 0 broken broken blank ≡ err (invalid_input why))
      × (Keyword.retrieve index [] 3 blank ≡ err (invalid_input why)))
    × ((why : Text) × (Semantic.retrieve vectors [] 3 blank ≡ err (invalid_input why)))
retrieve-check_query_example =
    retrieve-check_query fusion default_config 0 index vectors [] 3 broken broken blank
      (rw blank-trim refl)
