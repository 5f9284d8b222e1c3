-- ===== src/Consolidate/Clusters.antt =====
-- `find_candidate_clusters` (crates/vault-consolidator/src/phases/cluster.rs): the memories of a
-- boundary that may say the same. The embedding model, the vector search and the subtraction of `f32`
-- are parameters; a `HashSet` is the list of its members in the order of their insertion.
pub mod UnionFind
pub mod Labels
pub mod Connected
pub mod Groups
pub mod Partition
pub mod Active
pub mod Found
use agent_memory_vault.Base.{
  ℕ, suc, ◌+◌, ◌%◌, Bool, true, false, not, ◌&&◌, Option, none, some, List, [], ◌∷◌, ◌++◌, ltb, leb,
  ◌==◌, if◌then◌else◌, length, keep, map,
}
use agent_memory_vault.Base.Sort.{sort_by}
use agent_memory_vault.Core.Text.{Text, codes}
use agent_memory_vault.Core.Float.{F32, f32_one, f32_le, in_unit_range}
use agent_memory_vault.Core.Error.{Result, ok, err, panicked, ◌>>=◌, invalid_input}
use agent_memory_vault.Core.Memory.{Memory, MemoryId, Time, is_some}
use agent_memory_vault.Storage.Listing.{list_memories, in_boundary_since}
use agent_memory_vault.Consolidate.Stale.{member}
use agent_memory_vault.Consolidate.Clusters.UnionFind.{Group, union_find_components}

abbrev pub top_k_neighbors : ℕ
top_k_neighbors = 5

pub record Cluster : Type 0 where
  pub id : ℕ
  pub member_row_ids : List MemoryId

-- `EmbeddingProvider::embed`, `VectorStore::search` with its boundaries, and `-` of `f32`.
pub record Searching : Type 0 where
  pub embed : Text → Result (List F32)
  pub search : List F32 → ℕ → List Text → Result (List (MemoryId × F32))
  pub minus : F32 → F32 → F32

-- `HashSet::insert`.
unfoldable pub insert_id : MemoryId → List MemoryId → List MemoryId
insert_id id ids = if member id ids then ids else ids ++ (id ∷ [])

-- `iter().map(|m| m.id).collect::<HashSet<_>>()`.
unfoldable pub id_set : List Memory → List MemoryId → List MemoryId
unfolding insert_id
id_set [] ids = ids
id_set (m ∷ rest) ids = id_set rest (insert_id m.id ids)

-- `list_memories(..).filter(|m| m.valid_until.is_none())`.
unfoldable pub active_since : List Memory → Text → Option Time → List Memory
active_since rows boundary since =
    keep (λ m. not (is_some m.valid_until))
      (list_memories (in_boundary_since boundary since) none rows)

-- The two filters and the `map` over what the search found.
unfoldable pub neighbours : MemoryId → F32 → List (MemoryId × F32) → List MemoryId
neighbours self_id max_distance raw =
    map (λ n. n.0) (keep (λ n. f32_le n.1 max_distance) (keep (λ n. not (n.0 == self_id)) raw))

unfoldable pub collect_edges_for_memory :
    Searching → MemoryId → List F32 → Text → F32 → Result (List MemoryId)
unfolding neighbours
collect_edges_for_memory S self_id embedding boundary max_distance = do
  raw ← S.search embedding (top_k_neighbors + 1) (boundary ∷ [])
  ok (neighbours self_id max_distance raw)

-- `node_ids` and `edges`.
abbrev pub Graph : Type 0
Graph = List MemoryId × List (MemoryId × MemoryId)

-- The smaller id first.
abbrev pub canonical : MemoryId → MemoryId → MemoryId × MemoryId
canonical a b = if leb a b then (a, b) else (b, a)

-- The loop over one memory's neighbours.
unfoldable pub add_neighbours : List MemoryId → MemoryId → List MemoryId → Graph → Graph
unfolding insert_id
add_neighbours active id [] graph = graph
add_neighbours active id (n ∷ ns) graph =
    add_neighbours active id ns
      (if member n active then (insert_id n graph.0, graph.1 ++ (canonical id n ∷ [])) else graph)

-- The loop over the seeds.
unfoldable pub collect_graph :
    Searching → List MemoryId → Text → F32 → List Memory → Graph → Result Graph
unfolding collect_edges_for_memory add_neighbours
collect_graph S active boundary max_distance [] graph = ok graph
collect_graph S active boundary max_distance (m ∷ seeds) graph = do
  embedding ← S.embed m.content
  found ← collect_edges_for_memory S m.id embedding boundary max_distance
  collect_graph S active boundary max_distance seeds (add_neighbours active m.id found graph)

-- `a[0]` of a cluster, which has two members at least.
abbrev pub first_member : List MemoryId → MemoryId
first_member [] = 0
first_member (x ∷ _) = x

abbrev pub first_le : List MemoryId → List MemoryId → Bool
first_le a b = leb (first_member a) (first_member b)

unfoldable pub enumerate : ℕ → List (List MemoryId) → List Cluster
enumerate n [] = []
enumerate n (ms ∷ rest) =
    record { id = n % 0x1_0000_0000; member_row_ids = ms } ∷ enumerate (suc n) rest

abbrev pub group_members : Group → List MemoryId
group_members g = g.1

-- The groups of two and more, sorted.
unfoldable pub clusters_of : List Group → List Cluster
unfolding enumerate
clusters_of groups = enumerate 0 (
    sort_by first_le
      (map (sort_by leb) (keep (λ ms. leb 2 (length ms)) (map group_members groups))))

-- Steps 4 to 6; the model's `panicked` is a `find` that ran out of fuel.
unfoldable pub cluster_graph : Graph → Result (List Cluster)
unfolding clusters_of
cluster_graph graph = elim (union_find_components graph.0 graph.1) [
  | none ↦ panicked
  | some groups ↦ ok (clusters_of groups)
]

unfoldable pub active_ids : List Memory → Text → Option Time → List MemoryId
unfolding active_since id_set
active_ids rows boundary none = id_set (active_since rows boundary none) []
active_ids rows boundary (some _) = id_set (active_since rows boundary none) []

unfoldable pub find_candidate_clusters :
    Searching → List Memory → Text → F32 → Option Time → Result (List Cluster)
unfolding active_since id_set collect_graph cluster_graph active_ids
find_candidate_clusters S rows boundary threshold since =
    let seeds = active_since rows boundary since in
    let active = active_ids rows boundary since in
    if not (in_unit_range threshold)
    then err (invalid_input (codes "merge_similarity_threshold must be in [0.0, 1.0]"))
    else if length seeds == 0
    then ok []
    else if ltb (length active) 2
    then ok []
    else collect_graph S active boundary (S.minus f32_one threshold) seeds (id_set seeds [], [])
      >>= cluster_graph
