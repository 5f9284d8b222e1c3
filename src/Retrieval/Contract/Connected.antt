-- ===== src/Retrieval/Contract/Connected.antt =====
-- The graph channel keeps to the boundaries of the caller.
use agent_memory_vault.Base.{
  ◌≡◌, ◌&&◌, ◌||◌, true, List, [], ◌∷◌, map, ◌==◌, length, arith, keep, All, All-take, All-keep,
  Bool-cases, inl, inr,
}
use agent_memory_vault.Base.Sort.{sort_by, All-sort_by}
use agent_memory_vault.Core.Error.{IfOk, IfOk-bind, always}
use agent_memory_vault.Core.Memory.{Memory}
use agent_memory_vault.Retrieval.Query.{RetrievalQuery, RetrievedMemory, is_authorized}
use agent_memory_vault.Retrieval.Keyword.{get_memories_batch}
use agent_memory_vault.Retrieval.Graph.{
  Graph, Connectors, graph_hit, is_current, recent_first, graph_hits, matched_entities,
  connected_id, connect_entities, retrieve,
}

hit-authorized :
    (q : RetrievalQuery) (cs : Connectors) (ms : List Memory)
    → All (λ m. (is_authorized q m && is_current m) ≡ true) ms
    → All (λ r. is_authorized q r.memory ≡ true) (map (graph_hit cs) ms)
unfolding graph_hit
hit-authorized q cs [] h = tt
hit-authorized q cs (m ∷ ms) h = (ground (arith, h.0), hit-authorized q cs ms h.1)

graph_hits-authorized :
    (q : RetrievalQuery) (cs : Connectors) (ms : List Memory)
    → All (λ r. is_authorized q r.memory ≡ true) (graph_hits q cs ms)
unfolding graph_hits
graph_hits-authorized q cs ms =
    let P = λ (r : RetrievedMemory). is_authorized q r.memory ≡ true in
    let kept = keep (λ m. is_authorized q m && is_current m) ms in
    All-take P q.max_results (sort_by recent_first (map (graph_hit cs) kept)) (
      All-sort_by recent_first P (map (graph_hit cs) kept)
        (hit-authorized q cs kept (All-keep (λ m. is_authorized q m && is_current m) ms)))

-- Whatever the graph connects, the channel returns memories of a boundary of the caller only.
pub graph-authorized :
    (G : Graph) (rows : List Memory) (q : RetrievalQuery)
    → IfOk (λ out. All (λ r. is_authorized q r.memory ≡ true) out) (retrieve G rows q)
unfolding retrieve
graph-authorized G rows q =
    let Q = λ (out : List RetrievedMemory). All (λ r. is_authorized q r.memory ≡ true) out in
    let words = G.tokenize q.query_text in
    elim (Bool-cases (length q.authorized_boundaries == 0 || length words == 0)) [
      | inl nothing ↦ rw (retrieve, nothing) tt
      | inr asked ↦
          rw (retrieve, asked)
            (IfOk-bind (λ _. Unit) Q (G.list_entities q.authorized_boundaries) _ (always _)
              (λ entities _.
                IfOk-bind (λ _. Unit) Q
                  (connect_entities G q.authorized_boundaries (matched_entities G words entities)
                    [])
                  _ (always _)
                  (λ cs _. elim (Bool-cases (length cs == 0)) [
                    | inl alone ↦ rw alone tt
                    | inr some_found ↦ rw some_found (
                        IfOk-bind (λ _. Unit) Q
                          (get_memories_batch rows (G.walk (map connected_id cs))) _ (always _)
                          (λ ms _. graph_hits-authorized q cs ms))
                  ])))
    ]
