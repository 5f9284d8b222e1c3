-- ===== src/Retrieval/Contract/Refused.antt =====
-- A malformed query reaches no channel.
use agent_memory_vault.Base.{
  ◌≡◌, refl, arith, Bool, true, false, ◌&&◌, ◌||◌, List, ◌==◌, leb, ltb, length, any, Bool-cases,
  inl, inr,
}
use agent_memory_vault.Core.Text.{Text, codes}
use agent_memory_vault.Core.Trim.{trim, length-trim}
use agent_memory_vault.Core.Float.{F32}
use agent_memory_vault.Core.Error.{err, invalid_input}
use agent_memory_vault.Core.Memory.{Memory, Time}
use agent_memory_vault.Retrieval.Query.{
  RetrievalQuery, Retriever, check_query, max_results_cap, max_query_bytes,
}
use agent_memory_vault.Retrieval.Keyword
use agent_memory_vault.Retrieval.Keyword.{Index}
use agent_memory_vault.Retrieval.Semantic
use agent_memory_vault.Retrieval.Semantic.{Vectors, check_semantic, is_ascii_control}
use agent_memory_vault.Retrieval.Hybrid
use agent_memory_vault.Retrieval.Hybrid.{Fusion, HybridConfig}
use agent_memory_vault.Retrieval.Abstain

-- The rule of the documentation of a retriever: some text that is not white, at most 2048 bytes of it
-- once it is trimmed, and between 1 and 200 results.
abbrev pub is_well_formed : RetrievalQuery → Bool
is_well_formed q =
    leb 1 (length (trim q.query_text))
    && leb (length (trim q.query_text)) 2_048
    && leb 1 q.max_results
    && leb q.max_results 200

check_query-refused :
    (q : RetrievalQuery)
    → is_well_formed q ≡ false
    → (why : Text) × (check_query q ≡ err (invalid_input why))
unfolding check_query
check_query-refused q h = elim (Bool-cases (length (trim q.query_text) == 0)) [
  | inl blank ↦ (codes "query_text must be non-empty after trim", rw blank refl)
  | inr some_text ↦ elim (Bool-cases (ltb max_query_bytes (length q.query_text))) [
    | inl long ↦ (codes "query_text exceeds MAX_QUERY_BYTES", rw (some_text, long) refl)
    | inr short ↦
        let range : (q.max_results == 0 || ltb max_results_cap q.max_results) ≡ true =
          ground (arith, h, some_text, short, length-trim q.query_text) in
        (codes "max_results must be in 1..=MAX_RESULTS_CAP", rw (some_text, short, range) refl)
  ]
]

check_semantic-refused :
    (q : RetrievalQuery)
    → is_well_formed q ≡ false
    → (why : Text) × (check_semantic q ≡ err (invalid_input why))
unfolding check_semantic
check_semantic-refused q h =
    let trimmed = trim q.query_text in
    elim (Bool-cases (length trimmed == 0)) [
      | inl blank ↦ (codes "query text empty after trim", rw blank refl)
      | inr some_text ↦ elim (Bool-cases (any is_ascii_control trimmed)) [
        | inl control ↦
            (codes "query text contains ASCII control characters", rw (some_text, control) refl)
        | inr printable ↦ elim (Bool-cases (ltb max_query_bytes (length trimmed))) [
          | inl long ↦
              (codes "query length > MAX_QUERY_BYTES", rw (some_text, printable, long) refl)
          | inr short ↦
              let range : (q.max_results == 0 || ltb max_results_cap q.max_results) ≡ true =
                ground (arith, h, some_text, short) in
              (
                codes "max_results not in 1..=MAX_RESULTS_CAP",
                rw (some_text, printable, short, range) refl,
              )
        ]
      ]
    ]

-- The four retrievers refuse a query that is blank, longer than 2048 bytes once it is trimmed, or asks
-- for no or for more than 200 results: the hybrid, the abstaining and the keyword retriever with the
-- same `InvalidInput`, the semantic one with an `InvalidInput` of its own, whatever their channels,
-- the embedding model and the stores would do, and whatever boundaries the caller has.
pub retrieve-check_query :
    (F : Fusion) (config : HybridConfig) (threshold : F32) (I : Index) (V : Vectors)
    (rows : List Memory) (now : Time) (semantic keyword : Retriever) (q : RetrievalQuery)
    → is_well_formed q ≡ false
    → ((why : Text) × (Hybrid.retrieve F config semantic keyword q ≡ err (invalid_input why))
        × (Abstain.retrieve threshold semantic keyword q ≡ err (invalid_input why))
        × (Keyword.retrieve I rows now q ≡ err (invalid_input why)))
      × ((why : Text) × (Semantic.retrieve V rows now q ≡ err (invalid_input why)))
unfolding Hybrid.retrieve Abstain.retrieve Keyword.retrieve Semantic.retrieve
retrieve-check_query F config threshold I V rows now semantic keyword q h =
    let (why, e) = check_query-refused q h in
    let (own, f) = check_semantic-refused q h in
    ((why, rw e refl, rw e refl, rw e refl), (own, rw f refl))
