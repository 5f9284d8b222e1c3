-- ===== src/Retrieval/Contract/Lexical.antt =====
-- The keyword retriever keeps the contract.
use agent_memory_vault.Base.{
  ℕ, ◌≡◌, subst, arith, true, false, not, ◌||◌, List, [], ◌∷◌, map, ◌==◌, if◌then◌else◌, length,
  All, Bool-cases, Option-cases, inl, inr,
}
use agent_memory_vault.Base.Table.{select, delete}
use agent_memory_vault.Core.Text.{Text}
use agent_memory_vault.Core.Trim.{trim}
use agent_memory_vault.Core.Float.{F32, is_nan}
use agent_memory_vault.Core.Error.{ok, ◌>>=◌, Result-cases, IfOk}
use agent_memory_vault.Core.Memory.{Memory, MemoryId, Time}
use agent_memory_vault.Retrieval.Query.{RetrievalQuery, check_query}
use agent_memory_vault.Retrieval.Ranking.{best}
use agent_memory_vault.Retrieval.Keyword.{
  Index, memory_key, skips, pick, search, sanitize_query, get_memories_batch, hit_id, retrieve,
}
use agent_memory_vault.Retrieval.Contract.{
  Vectorized, is_visible, authorized-visible, Answers, failed, stopped, answered, Contract,
  best-Answer, empty-Answer, guarded-Answers,
}

abbrev pub AreNumbers : List (MemoryId × F32) → Type 0
AreNumbers hits = All (λ h. is_nan h.1 ≡ false) hits

-- Every score of the index is a number.
abbrev pub ScoresNumbers : Index → Type 0
ScoresNumbers I = (t : Text) (n : ℕ) → IfOk AreNumbers (I.run t n)

pick-numbers :
    (I : Index) (q : RetrievalQuery) (now : Time) (hits : List (MemoryId × F32))
    (by_id : List Memory)
    → AreNumbers hits
    → All (λ r. is_nan r.score ≡ false) (pick I q now hits by_id)
unfolding pick
pick-numbers I q now [] by_id h = tt
pick-numbers I q now ((id, score) ∷ hits) by_id h =
    elim (Option-cases (select memory_key id by_id)) [
      | inl absent ↦ rw (pick, absent) (pick-numbers I q now hits by_id h.1)
      | inr (m, found) ↦
          let rest = pick-numbers I q now hits (delete memory_key id by_id) h.1 in
          elim (Bool-cases (skips q now m)) [
            | inl skipped ↦ rw (pick, found, skipped) rest
            | inr kept ↦ rw (pick, found, kept) (h.0, rest)
          ]
    ]

pick-visible :
    (S : Vectorized) (I : Index) (q : RetrievalQuery) (now : Time) (hits : List (MemoryId × F32))
    (by_id : List Memory)
    → All (λ r. is_visible S q r.memory ≡ true) (pick I q now hits by_id)
unfolding pick skips
pick-visible S I q now [] by_id = tt
pick-visible S I q now ((id, score) ∷ hits) by_id =
    elim (Option-cases (select memory_key id by_id)) [
      | inl absent ↦ rw (pick, absent) (pick-visible S I q now hits by_id)
      | inr (m, found) ↦
          let rest = pick-visible S I q now hits (delete memory_key id by_id) in
          elim (Bool-cases (skips q now m)) [
            | inl skipped ↦ rw (pick, found, skipped) rest
            | inr kept ↦
                rw (pick, found, kept) (authorized-visible S q m (ground (arith, kept)), rest)
          ]
    ]

-- What `search` finds comes from the index.
search-numbers :
    (I : Index) (query : Text) (limit : ℕ)
    → ScoresNumbers I
    → IfOk AreNumbers (search I query limit)
unfolding search
search-numbers I query limit numbers =
    let trimmed = trim query in
    let sanitized = sanitize_query trimmed in
    elim (Bool-cases (length trimmed == 0 || limit == 0)) [
      | inl nothing_asked ↦ rw (search, nothing_asked) tt
      | inr asked ↦ elim (Bool-cases (length (trim sanitized) == 0)) [
        | inl blank ↦ rw (search, asked, blank) tt
        | inr more ↦ elim (Bool-cases (not (I.has_searchable_terms sanitized))) [
          | inl stopwords ↦ rw (search, asked, more, stopwords) tt
          | inr terms ↦ rw (search, asked, more, terms) (numbers sanitized limit)
        ]
      ]
    ]

-- The part of the call behind the search.
picked-Answers :
    (S : Vectorized) (I : Index) (rows : List Memory) (now : Time) (q : RetrievalQuery)
    (hits : List (MemoryId × F32))
    → AreNumbers hits
    → Answers S q (
        if length hits == 0
        then ok []
        else get_memories_batch rows (map hit_id hits) >>= λ memories.
            ok (best q.max_results (pick I q now hits memories)))
picked-Answers S I rows now q hits numbers = elim (Bool-cases (length hits == 0)) [
  | inl nothing_found ↦ rw nothing_found (answered [] (empty-Answer S q))
  | inr some_found ↦ elim (Result-cases (get_memories_batch rows (map hit_id hits))) [
    | inl (memories, e) ↦
        rw (some_found, e)
          (answered (best q.max_results (pick I q now hits memories)) (
            best-Answer S q (pick I q now hits memories)
              (pick-numbers I q now hits memories numbers) (pick-visible S I q now hits memories)))
    | inr (inl (why, e)) ↦ rw (some_found, e) (failed why)
    | inr (inr e) ↦ rw (some_found, e) stopped
  ]
]

-- Where the index scores with numbers, the keyword retriever keeps the contract.
pub keyword-Contract :
    (S : Vectorized) (I : Index) (rows : List Memory) (now : Time)
    → ScoresNumbers I
    → Contract S (retrieve I rows now)
unfolding retrieve
keyword-Contract S I rows now numbers q =
    guarded-Answers S q (check_query q) _
      (elim (Result-cases (search I q.query_text q.max_results)) [
        | inl (hits, e) ↦ rw e (
            picked-Answers S I rows now q hits
              (subst (IfOk AreNumbers) e (search-numbers I q.query_text q.max_results numbers)))
        | inr (inl (why, e)) ↦ rw e (failed why)
        | inr (inr e) ↦ rw e stopped
      ])
