-- ===== src/Retrieval/Contract/Embedded.antt =====
-- The semantic retriever keeps the contract.
use agent_memory_vault.Base.{
  ◌≡◌, subst, arith, true, List, [], map, ◌==◌, if◌then◌else◌, length, ltb, All, Bool-cases, inl,
  inr,
}
use agent_memory_vault.Core.Trim.{trim}
use agent_memory_vault.Core.Float.{F32}
use agent_memory_vault.Core.Error.{ok, ◌>>=◌, Result-cases, IfOk}
use agent_memory_vault.Core.Memory.{Memory, MemoryId, Time}
use agent_memory_vault.Retrieval.Query.{RetrievalQuery}
use agent_memory_vault.Retrieval.Keyword.{get_memories_batch, hit_id}
use agent_memory_vault.Retrieval.Semantic.{
  Vectors, score_memories, select_scored, answer, check_semantic, retrieve,
}
use agent_memory_vault.Retrieval.Contract.{
  Vectorized, is_visible, Answer, Answers, failed, stopped, answered, Contract, empty-Answer,
  guarded-Answers,
}
use agent_memory_vault.Retrieval.Contract.Dense.{
  AreScored, AreWithin, VectorsLaws, take_rows-visible, score_memories-Fit, select_scored-IsSorted,
  length-explain, explain-IsSorted, explain-visible,
}

get_memories_batch-visible :
    (S : Vectorized) (q : RetrievalQuery) (rows : List Memory) (hits : List (MemoryId × F32))
    → AreWithin S q.authorized_boundaries hits
    → IfOk (λ ms. All (λ m. is_visible S q m ≡ true) ms) (get_memories_batch rows (map hit_id hits))
unfolding get_memories_batch
get_memories_batch-visible S q rows hits h =
    elim (Bool-cases (ltb 32_000 (length (map hit_id hits)))) [
      | inl many ↦ rw (get_memories_batch, many) tt
      | inr few ↦ rw (get_memories_batch, few) (take_rows-visible S q hits rows h)
    ]

answer-Answer :
    (S : Vectorized) (V : Vectors) (q : RetrievalQuery) (now : Time) (hits : List (MemoryId × F32))
    (ms : List Memory)
    → AreScored V.minus hits
    → All (λ m. is_visible S q m ≡ true) ms
    → Answer S q (answer V q now hits ms)
unfolding answer
answer-Answer S V q now hits ms numbers allowed =
    let scored = score_memories V.minus hits ms in
    let out = select_scored q now scored in
    let (ordered, fit, short) =
      select_scored-IsSorted S q now scored
        (score_memories-Fit S q V.minus hits ms numbers allowed) in
    record {
      bounded = omega (arith, short, length-explain V.print_rank 0 (length out) out);
      visible = explain-visible V.print_rank q S 0 (length out) out fit;
      ordered = explain-IsSorted V.print_rank q 0 (length out) out ordered;
    }

found-Answers :
    (S : Vectorized) (V : Vectors) (rows : List Memory) (now : Time) (q : RetrievalQuery)
    (hits : List (MemoryId × F32))
    → AreScored V.minus hits
    → AreWithin S q.authorized_boundaries hits
    → Answers S q (
        if length hits == 0
        then ok []
        else get_memories_batch rows (map hit_id hits) >>= λ memories.
            ok (answer V q now hits memories))
found-Answers S V rows now q hits numbers within = elim (Bool-cases (length hits == 0)) [
  | inl nothing_found ↦ rw nothing_found (answered [] (empty-Answer S q))
  | inr some_found ↦ elim (Result-cases (get_memories_batch rows (map hit_id hits))) [
    | inl (memories, e) ↦
        let allowed : All (λ m. is_visible S q m ≡ true) memories =
          subst (IfOk (λ ms. All (λ m. is_visible S q m ≡ true) ms)) e
            (get_memories_batch-visible S q rows hits within) in
        rw (some_found, e)
          (answered (answer V q now hits memories)
            (answer-Answer S V q now hits memories numbers allowed))
    | inr (inl (why, e)) ↦ rw (some_found, e) (failed why)
    | inr (inr e) ↦ rw (some_found, e) stopped
  ]
]

embedded-Answers :
    (S : Vectorized) (V : Vectors) (rows : List Memory) (now : Time) (q : RetrievalQuery)
    (embedding : List F32)
    → VectorsLaws S V
    → Answers S q (
        V.search embedding q.max_results q.authorized_boundaries >>= λ hits.
        if length hits == 0
        then ok []
        else get_memories_batch rows (map hit_id hits) >>= λ memories.
            ok (answer V q now hits memories))
embedded-Answers S V rows now q embedding laws =
    elim (Result-cases (V.search embedding q.max_results q.authorized_boundaries)) [
      | inl (hits, e) ↦ rw e (
          found-Answers S V rows now q hits
            (subst (IfOk (AreScored V.minus)) e
              (laws.scored embedding q.max_results q.authorized_boundaries))
            (subst (IfOk (AreWithin S q.authorized_boundaries)) e
              (laws.within embedding q.max_results q.authorized_boundaries)))
      | inr (inl (why, e)) ↦ rw e (failed why)
      | inr (inr e) ↦ rw e stopped
    ]

-- Where the vector search keeps to its laws, the semantic retriever keeps the contract.
pub semantic-Contract :
    (S : Vectorized) (V : Vectors) (rows : List Memory) (now : Time)
    → VectorsLaws S V
    → Contract S (retrieve V rows now)
unfolding retrieve
semantic-Contract S V rows now laws q =
    guarded-Answers S q (check_semantic q) _ (elim (Result-cases (V.embed (trim q.query_text))) [
      | inl (embedding, e) ↦ rw e (embedded-Answers S V rows now q embedding laws)
      | inr (inl (why, e)) ↦ rw e (failed why)
      | inr (inr e) ↦ rw e stopped
    ])
