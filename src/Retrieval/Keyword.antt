-- ===== src/Retrieval/Keyword.antt =====
-- `KeywordIndex::search` and `KeywordRetriever` (crates/vault-retrieval/src/strategies/keyword.rs). The
-- index of Tantivy is a parameter, and so is the printing of a score.
use agent_memory_vault.Base.{
  ℕ, Bool, not, ◌&&◌, ◌||◌, none, some, List, [], ◌∷◌, ◌++◌, map, ◌==◌, if◌then◌else◌, length, any,
  ltb,
}
use agent_memory_vault.Base.Table.{select, delete}
use agent_memory_vault.Core.Text.{Text, codes}
use agent_memory_vault.Core.Trim.{trim}
use agent_memory_vault.Core.Float.{F32}
use agent_memory_vault.Core.Error.{Result, ok, err, ◌>>=◌, ◌>>◌, invalid_input}
use agent_memory_vault.Core.Memory.{Memory, MemoryId, Time, is_superseded, is_expired_at}
use agent_memory_vault.Retrieval.Query.{
  RetrievalQuery, RetrievedMemory, Retriever, check_query, is_authorized,
}
use agent_memory_vault.Retrieval.Ranking.{best}

-- `has_searchable_terms`, `parse_query` with the search, and `{score:.4}`.
pub record Index : Type 0 where
  pub has_searchable_terms : Text → Bool
  pub run : Text → ℕ → Result (List (MemoryId × F32))
  pub print_score : F32 → Text

-- `LUCENE_OPERATOR_CHARS`.
unfoldable pub is_operator : ℕ → Bool
is_operator c = any (λ o. o == c) (codes "+-!&|(){}[]^~*?:\\/\"'")

unfoldable pub sanitize_query : Text → Text
unfolding is_operator
sanitize_query text = map (λ c. if is_operator c then b' ' else c) text

unfoldable pub search : Index → Text → ℕ → Result (List (MemoryId × F32))
unfolding sanitize_query
search I query limit =
    let trimmed = trim query in
    let sanitized = sanitize_query trimmed in
    if length trimmed == 0 || limit == 0
    then ok []
    else if length (trim sanitized) == 0
    then ok []
    else if not (I.has_searchable_terms sanitized)
    then ok []
    else I.run sanitized limit

abbrev pub memory_key : Memory → ℕ
memory_key m = m.id

-- `get_memories_batch`: the rows in the order of the ids. A row serves one id only.
unfoldable pub take_rows : List MemoryId → List Memory → List Memory
take_rows [] found = []
take_rows (id ∷ ids) found = elim (select memory_key id found) [
  | none ↦ take_rows ids found
  | some m ↦ m ∷ take_rows ids (delete memory_key id found)
]

unfoldable pub get_memories_batch : List Memory → List MemoryId → Result (List Memory)
unfolding take_rows
get_memories_batch rows ids =
    if ltb 32_000 (length ids)
    then err (invalid_input (codes "get_memories_batch: ids exceed SQLite parameter cap"))
    else ok (take_rows ids rows)

-- What the loop over the hits skips.
unfoldable pub skips : RetrievalQuery → Time → Memory → Bool
skips q now m =
    not (is_authorized q m)
    || not q.options.include_archived && (is_superseded m || is_expired_at m now)

-- The loop over the hits, which takes each memory out of the map.
unfoldable pub pick :
    Index → RetrievalQuery → Time → List (MemoryId × F32) → List Memory → List RetrievedMemory
unfolding skips
pick I q now [] by_id = []
pick I q now ((id, score) ∷ hits) by_id = elim (select memory_key id by_id) [
  | none ↦ pick I q now hits by_id
  | some m ↦
      let rest = pick I q now hits (delete memory_key id by_id) in
      if skips q now m
      then rest
      else record {
        memory = m;
        score = score;
        explanation = codes "keyword(bm25) score=" ++ I.print_score score;
      }
        ∷ rest
]

abbrev pub hit_id : MemoryId × F32 → MemoryId
hit_id h = h.0

-- `KeywordRetriever::retrieve`.
unfoldable pub retrieve : Index → List Memory → Time → Retriever
unfolding search get_memories_batch pick
retrieve I rows now q =
    check_query q
    >> (if length q.authorized_boundaries == 0 then ok [] else do
      hits ← search I q.query_text q.max_results
      if length hits == 0
          then ok []
          else get_memories_batch rows (map hit_id hits) >>= λ memories.
              ok (best q.max_results (pick I q now hits memories)))
