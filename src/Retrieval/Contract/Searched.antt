-- ===== src/Retrieval/Contract/Searched.antt =====
-- `memory_search` keeps to the boundaries of its caller.
use agent_memory_vault.Base.{
  ℕ, zero, suc, ◌≡◌, ◌≤◌, arith, true, ◌||◌, Option, none, some, List, [], ◌∷◌, ◌++◌, map, ◌==◌,
  length, take, drop, length-take, All, All-map, All-take, All-append, All-kept, Bool-cases, inl,
  inr, ltb,
}
use agent_memory_vault.Base.Sort.{All-sort_by}
use agent_memory_vault.Core.Text.{Text, codes}
use agent_memory_vault.Core.Float.{F32, f32_le}
use agent_memory_vault.Core.Error.{Result, ok, err, panicked, IfOk, IfOk-bind, IfOk-map, always}
use agent_memory_vault.Core.Memory.{Memory, MemoryId, Time, reject_if}
use agent_memory_vault.Consolidate.Stale.{member}
use agent_memory_vault.Retrieval.Query.{
  RetrievalQuery, RetrievedMemory, Retriever, is_authorized, max_results_cap,
}
use agent_memory_vault.Retrieval.Keyword
use agent_memory_vault.Retrieval.Keyword.{Index}
use agent_memory_vault.Retrieval.Semantic
use agent_memory_vault.Retrieval.Semantic.{Vectors}
use agent_memory_vault.Retrieval.Hybrid.{Fusion, default_config}
use agent_memory_vault.Retrieval.Reranked
use agent_memory_vault.Retrieval.Reranked.{
  Reranker, search_candidate_fanout, rerank_candidate_cap, is_model_unavailable, rescored,
  not_below, content_of, reorder, rerank_pool, recall_hits, assemble, above, default_options,
}
use agent_memory_vault.Retrieval.Stack.{hybrid, graph_channel, memory_search}
use agent_memory_vault.Retrieval.Graph
use agent_memory_vault.Retrieval.Graph.{Graph}
use agent_memory_vault.Retrieval.Contract.Connected.{graph-authorized}
use agent_memory_vault.Retrieval.Contract.{
  Vectorized, is_visible, authorized-visible, Answers, failed, stopped, answered, Contract,
}
use agent_memory_vault.Retrieval.Contract.Lexical.{ScoresNumbers, keyword-Contract}
use agent_memory_vault.Retrieval.Contract.Dense.{VectorsLaws}
use agent_memory_vault.Retrieval.Contract.Embedded.{semantic-Contract}
use agent_memory_vault.Retrieval.Contract.Fused.{FusionLaws, hybrid-Contract}

-- Results of which the row or a vector lies in a boundary of the caller.
abbrev AreVisible : Vectorized → RetrievalQuery → List RetrievedMemory → Type 0
AreVisible S q out = All (λ r. is_visible S q r.memory ≡ true) out

-- and no more than it asked for.
abbrev pub IsWithin : Vectorized → RetrievalQuery → List RetrievedMemory → Type 0
IsWithin S q out = (length out ≤ q.max_results) × All (λ r. is_visible S q r.memory ≡ true) out

Contract-visible :
    (S : Vectorized) (q : RetrievalQuery) (r : Result (List RetrievedMemory))
    → Answers S q r
    → IfOk (AreVisible S q) r
Contract-visible S q r (failed why) = tt
Contract-visible S q r stopped = tt
Contract-visible S q r (answered out a) = a.visible

module _ (P : Memory → Type 0) where
  rescored-All :
      (R : Reranker) (cs : List RetrievedMemory) (scores : List F32)
      → All (λ r. P r.memory) cs
      → All (λ r. P r.memory) (rescored R cs scores)
  unfolding rescored
  rescored-All R [] scores h = tt
  rescored-All R (c ∷ cs) [] h = tt
  rescored-All R (c ∷ cs) (x ∷ scores) h = (h.0, rescored-All R cs scores h.1)

  assemble-All :
      (hits : List RetrievedMemory) (seen : List MemoryId)
      → All (λ r. P r.memory) hits
      → All (λ r. P r.memory) (assemble hits seen)
  unfolding assemble
  assemble-All [] seen h = tt
  assemble-All (x ∷ hits) seen h = elim (Bool-cases (member x.memory.id seen)) [
    | inl old ↦ rw (assemble, old) (assemble-All hits seen h.1)
    | inr new ↦ rw (assemble, new) (h.0, assemble-All hits (x.memory.id ∷ seen) h.1)
  ]

  above-All :
      (t : Option F32) (ranked : List RetrievedMemory)
      → All (λ r. P r.memory) ranked
      → All (λ r. P r.memory) (above t ranked)
  unfolding above
  above-All none ranked h = h
  above-All (some t) ranked h = All-kept (λ r. P r.memory) (λ r. f32_le t r.score) ranked h

  reorder-All :
      (R : Reranker) (head tail : List RetrievedMemory) (scores : Result (List F32))
      → All (λ r. P r.memory) head
      → All (λ r. P r.memory) tail
      → IfOk (λ out. All (λ r. P r.memory) out) (reorder R head tail scores)
  unfolding reorder
  reorder-All R head tail (ok scores) h k = elim (Bool-cases (length scores == length head)) [
    | inl same ↦ rw same (
        All-sort_by not_below (λ r. P r.memory) (rescored R head scores)
          (rescored-All R head scores h))
    | inr other ↦ rw other tt
  ]
  reorder-All R head tail (err e) h k = elim (Bool-cases (is_model_unavailable e)) [
    | inl missing ↦ rw missing (All-append (λ r. P r.memory) head tail h k)
    | inr other ↦ rw other tt
  ]
  reorder-All R head tail panicked h k = tt

  drop-All :
      (n : ℕ) (xs : List RetrievedMemory)
      → All (λ r. P r.memory) xs
      → All (λ r. P r.memory) (drop n xs)
  drop-All zero xs h = h
  drop-All (suc n) [] h = tt
  drop-All (suc n) (x ∷ xs) h = drop-All n xs h.1

  rerank_pool-All :
      (R : Reranker) (query_text : Text) (pool : List RetrievedMemory)
      → All (λ r. P r.memory) pool
      → IfOk (λ out. All (λ r. P r.memory) out) (rerank_pool R query_text pool)
  unfolding rerank_pool
  rerank_pool-All R query_text pool h =
      let head = take rerank_candidate_cap pool in
      elim (Bool-cases (length pool == 0)) [
        | inl empty ↦ rw (rerank_pool, empty) h
        | inr more ↦
            rw (rerank_pool, more)
              (reorder-All R head (drop rerank_candidate_cap pool)
                (R.rerank query_text (map content_of head))
                (All-take (λ r. P r.memory) rerank_candidate_cap pool h)
                (drop-All rerank_candidate_cap pool h))
      ]

-- What a further channel finds is visible, where there is one.
abbrev ChannelVisible : Vectorized → Option Retriever → Type 0
ChannelVisible S none = Unit
ChannelVisible S (some r) = (q : RetrievalQuery) → IfOk (AreVisible S q) (r q)

recall_hits-visible :
    (S : Vectorized) (q : RetrievalQuery) (channel : Option Retriever)
    → ChannelVisible S channel
    → IfOk (AreVisible S q) (recall_hits channel q.query_text q.authorized_boundaries)
unfolding recall_hits
recall_hits-visible S q none h = tt
recall_hits-visible S q (some r) h =
    h (record q { max_results = search_candidate_fanout; options = default_options })

graph_channel-visible :
    (S : Vectorized) (G : Option Graph) (rows : List Memory)
    → ChannelVisible S (graph_channel G rows)
graph_channel-visible S none rows = tt
graph_channel-visible S (some G) rows = λ q.
    IfOk-map (λ out. All (λ r. is_authorized q r.memory ≡ true) out) (AreVisible S q)
      (Graph.retrieve G rows q)
      (λ out h.
        All-map (λ r. is_authorized q r.memory ≡ true) (λ r. is_visible S q r.memory ≡ true) out
          (λ r. authorized-visible S q r.memory) h)
      (graph-authorized G rows q)

reranked-IsWithin :
    (S : Vectorized) (R : Reranker) (base : Retriever) (semantic graph : Option Retriever)
    → Contract S base
    → ChannelVisible S semantic
    → ChannelVisible S graph
    → (q : RetrievalQuery) → IfOk (IsWithin S q) (Reranked.retrieve R base semantic graph q)
unfolding Reranked.retrieve
reranked-IsWithin S R base semantic graph hb hs hg q =
    let wide : RetrievalQuery = record q {
      max_results = search_candidate_fanout;
      options = record { score_threshold = none; include_archived = q.options.include_archived };
    } in
    let P = λ (m : Memory). is_visible S q m ≡ true in
    let Q = AreVisible S q in
    IfOk-bind (λ _. Unit {0}) (IsWithin S q)
      (reject_if (q.max_results == 0 || ltb max_results_cap q.max_results)
        (codes "max_results must be in 1..=MAX_RESULTS_CAP"))
      _
      (always (
        reject_if (q.max_results == 0 || ltb max_results_cap q.max_results)
          (codes "max_results must be in 1..=MAX_RESULTS_CAP")))
      (λ _ _.
        IfOk-bind Q (IsWithin S q) (base wide) _ (Contract-visible S wide (base wide) (hb wide))
          (λ xs hx.
            IfOk-bind Q (IsWithin S q) (recall_hits graph q.query_text q.authorized_boundaries) _
              (recall_hits-visible S q graph hg)
              (λ ys hy.
                IfOk-bind Q (IsWithin S q)
                  (recall_hits semantic q.query_text q.authorized_boundaries) _
                  (recall_hits-visible S q semantic hs)
                  (λ zs hz.
                    let hits = ys ++ (zs ++ xs) in
                    let pool = assemble hits [] in
                    IfOk-bind Q (IsWithin S q) (rerank_pool R q.query_text pool) _
                      (rerank_pool-All P R q.query_text pool (
                        assemble-All P hits [] (
                          All-append (λ r. P r.memory) ys (zs ++ xs) hy
                            (All-append (λ r. P r.memory) zs xs hz hx))))
                      (λ out ho. (
                        omega (
                          arith,
                          length-take q.max_results (above q.options.score_threshold out),
                        ),
                        All-take (λ r. P r.memory) q.max_results
                            (above q.options.score_threshold out)
                            (above-All P q.options.score_threshold out ho),
                      ))))))

Answer-IsWithin :
    (S : Vectorized) (q : RetrievalQuery) (r : Result (List RetrievedMemory))
    → Answers S q r
    → IfOk (IsWithin S q) r
Answer-IsWithin S q r (failed why) = tt
Answer-IsWithin S q r stopped = tt
Answer-IsWithin S q r (answered out a) = (a.bounded, a.visible)

-- Where the fused scores and the scores of the index are numbers, and the vector search gives numbers
-- and finds only ids of vectors that are stored in a boundary that it is given: the hybrid of the
-- semantic and the keyword retriever answers no more memories than were asked for, of each of them the
-- row or a vector lies in a boundary of the caller, by falling score and of equal scores the newer
-- first, or it fails.
pub hybrid-Answers :
    (S : Vectorized) (F : Fusion) (V : Vectors) (I : Index) (rows : List Memory) (now : Time)
    → FusionLaws F 60
    → VectorsLaws S V
    → ScoresNumbers I
    → (q : RetrievalQuery) → Answers S q (hybrid F V I rows now q)
unfolding hybrid default_config
hybrid-Answers S F V I rows now laws vectors numbers q =
    hybrid-Contract S F default_config (Semantic.retrieve V rows now) (Keyword.retrieve I rows now)
      laws (semantic-Contract S V rows now vectors) (keyword-Contract S I rows now numbers) q

-- Under the same conditions, with a reranker or without, and with the graph channel or without:
-- `memory_search` returns, where it does, no more memories than were asked for, and of each of them the
-- row or a vector lies in a boundary of the caller, whatever the graph connects and the cross encoder
-- prefers.
pub memory_search-IsWithin :
    (S : Vectorized) (F : Fusion) (V : Vectors) (I : Index) (R : Option Reranker) (G : Option Graph)
    (rows : List Memory) (now : Time) (q : RetrievalQuery)
    → FusionLaws F 60
    → VectorsLaws S V
    → ScoresNumbers I
    → IfOk (IsWithin S q) (memory_search F V I R G rows now q)
unfolding memory_search
memory_search-IsWithin S F V I none G rows now q laws vectors numbers =
    Answer-IsWithin S q (hybrid F V I rows now q)
      (hybrid-Answers S F V I rows now laws vectors numbers q)
memory_search-IsWithin S F V I (some R) G rows now q laws vectors numbers =
    let semantic = Semantic.retrieve V rows now in
    reranked-IsWithin S R (hybrid F V I rows now) (some semantic) (graph_channel G rows)
      (hybrid-Answers S F V I rows now laws vectors numbers)
      (λ p. Contract-visible S p (semantic p) (semantic-Contract S V rows now vectors p))
      (graph_channel-visible S G rows) q
