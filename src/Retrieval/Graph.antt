-- ===== src/Retrieval/Graph.antt =====
-- `GraphRetriever` (crates/vault-retrieval/src/strategies/graph.rs). The graph store, the split of a text
-- into lower-case words, which reads the tables of Unicode, and the order in which a hash map is
-- walked are parameters. Of an entity and a relationship only what the retriever reads is kept.
use agent_memory_vault.Base.{
  ℕ, Bool, true, false, not, ◌&&◌, ◌||◌, Option, none, some, List, [], ◌∷◌, ◌++◌, map, ltb, leb,
  ◌==◌, if◌then◌else◌, length, any, keep, take,
}
use agent_memory_vault.Base.Sort.{sort_by}
use agent_memory_vault.Core.Text.{Text, codes, text_eq, text_le}
use agent_memory_vault.Core.Trim.{trim}
use agent_memory_vault.Core.Float.{F32}
use agent_memory_vault.Core.Error.{Result, ok, ◌>>=◌}
use agent_memory_vault.Core.Memory.{Memory, MemoryId, is_superseded, is_archived, is_some}
use agent_memory_vault.Retrieval.Query.{RetrievalQuery, RetrievedMemory, Retriever, is_authorized}
use agent_memory_vault.Retrieval.Keyword.{get_memories_batch}

abbrev pub max_matched_entities : ℕ
max_matched_entities = 8

abbrev pub max_hops : ℕ
max_hops = 2

abbrev pub max_candidate_memories : ℕ
max_candidate_memories = 32

-- 0.5.
abbrev pub graph_channel_score : F32
graph_channel_score = 0x3f000000

pub record Entity : Type 0 where
  pub id : ℕ
  pub name : Text

-- `source_memory_id` of a relationship.
abbrev pub Relationship : Type 0
Relationship = Option MemoryId

pub record Graph : Type 0 where
  pub tokenize : Text → List Text
  pub to_lowercase : Text → Text
  pub list_entities : List Text → Result (List Entity)
  pub relationships_for_entity : ℕ → List Text → Result (List Relationship)
  pub traverse : ℕ → List Text → ℕ → Result (List (Entity × List Relationship))
  pub walk : List MemoryId → List MemoryId

unfoldable pub starts_with_words : List Text → List Text → Bool
starts_with_words words [] = true
starts_with_words [] (_ ∷ _) = false
starts_with_words (w ∷ words) (n ∷ name) = text_eq w n && starts_with_words words name

-- `windows(name.len()).any(|w| w == name)`.
unfoldable pub has_window : List Text → List Text → Bool
unfolding starts_with_words
has_window [] name = false
has_window (w ∷ words) name = starts_with_words (w ∷ words) name || has_window words name

unfoldable pub mentions : List Text → List Text → Bool
unfolding has_window
mentions query_tokens name_tokens =
    if length name_tokens == 0 || ltb (length query_tokens) (length name_tokens)
    then false
    else has_window query_tokens name_tokens

unfoldable pub is_hub : Graph → Text → Bool
unfolding text_eq
is_hub G name =
    let n = G.to_lowercase (trim name) in
    any (λ h. text_eq h n) (codes "the user" ∷ codes "user" ∷ [])

unfoldable pub is_current : Memory → Bool
is_current m = not (is_superseded m) && not (is_some m.valid_until) && not (is_archived m)

-- The entities that the query names.
unfoldable pub matched_entities : Graph → List Text → List Entity → List Entity
unfolding mentions is_hub
matched_entities G query_tokens entities = take max_matched_entities (
    keep (λ e. mentions query_tokens (G.tokenize e.name))
      (keep (λ e. not (is_hub G e.name)) entities))

-- `connectors`: the names that connect a memory.
abbrev pub Connectors : Type 0
Connectors = List (MemoryId × List Text)

-- `insert` into a hash set.
abbrev pub insert_name : Text → List Text → List Text
insert_name n names = if any (λ x. text_eq x n) names then names else names ++ (n ∷ [])

-- `connectors.entry(src).or_default().insert(name)`.
unfoldable pub connect : MemoryId → Text → Connectors → Connectors
connect src name [] = (src, name ∷ []) ∷ []
connect src name ((k, names) ∷ cs) =
    let rest = connect src name cs in
    if k == src then (k, insert_name name names) ∷ cs else (k, names) ∷ rest

abbrev pub connect_source : Option MemoryId → Text → Connectors → Connectors
connect_source none name cs = cs
connect_source (some src) name cs = connect src name cs

-- The inner loop, with whether it has left the outer one.
unfoldable pub connect_all : Text → List Relationship → Connectors → Bool × Connectors
unfolding connect
connect_all name [] cs = (false, cs)
connect_all name (r ∷ rels) cs =
    let more = connect_source r name cs in
    let rest = connect_all name rels more in
    if leb max_candidate_memories (length more) then (true, more) else rest

abbrev pub path_relationships : List (Entity × List Relationship) → List Relationship
path_relationships [] = []
path_relationships (p ∷ paths) = p.1 ++ path_relationships paths

-- The outer loop.
unfoldable pub connect_entities : Graph → List Text → List Entity → Connectors → Result Connectors
unfolding connect_all
connect_entities G boundaries [] cs = ok cs
connect_entities G boundaries (e ∷ entities) cs =
    G.relationships_for_entity e.id boundaries >>= λ direct.
    G.traverse e.id boundaries max_hops >>= λ paths.
    elim (connect_all e.name (direct ++ path_relationships paths) cs).0 [
      | true ↦ ok (connect_all e.name (direct ++ path_relationships paths) cs).1
      | false ↦
          connect_entities G boundaries entities
            (connect_all e.name (direct ++ path_relationships paths) cs).1
    ]

abbrev pub names_of : MemoryId → Connectors → List Text
names_of id [] = []
names_of id ((k, names) ∷ cs) = if k == id then names else names_of id cs

-- `join(", ")`.
abbrev pub join_names : List Text → Text
join_names [] = []
join_names (n ∷ []) = n
join_names (n ∷ m ∷ names) = n ++ (codes ", " ++ join_names (m ∷ names))

unfoldable pub graph_hit : Connectors → Memory → RetrievedMemory
unfolding text_le
graph_hit cs m = record {
  memory = m;
  score = graph_channel_score;
  explanation = codes "graph: connected via " ++ join_names (sort_by text_le (names_of m.id cs));
}

-- The newer first, and of the same age the greater id.
abbrev pub recent_first : RetrievedMemory → RetrievedMemory → Bool
recent_first a b =
    ltb b.memory.created_at a.memory.created_at
    || a.memory.created_at == b.memory.created_at && leb b.memory.id a.memory.id

-- What is made of the rows.
unfoldable pub graph_hits : RetrievalQuery → Connectors → List Memory → List RetrievedMemory
unfolding graph_hit is_current
graph_hits q cs memories = take q.max_results (
    sort_by recent_first
      (map (graph_hit cs) (keep (λ m. is_authorized q m && is_current m) memories)))

abbrev pub connected_id : MemoryId × List Text → MemoryId
connected_id c = c.0

unfoldable pub retrieve : Graph → List Memory → Retriever
unfolding matched_entities connect_entities graph_hits
retrieve G rows q =
    let query_tokens = G.tokenize q.query_text in
    if length q.authorized_boundaries == 0 || length query_tokens == 0 then ok [] else do
      entities ← G.list_entities q.authorized_boundaries
      cs ← connect_entities G q.authorized_boundaries (matched_entities G query_tokens entities) []
      if length cs == 0
          then ok []
          else get_memories_batch rows (G.walk (map connected_id cs)) >>= λ memories.
              ok (graph_hits q cs memories)
