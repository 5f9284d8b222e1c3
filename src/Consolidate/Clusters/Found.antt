-- ===== src/Consolidate/Clusters/Found.antt =====
-- What `find_candidate_clusters` returns.
use agent_memory_vault.Base.{
  ℕ, suc, ◌≤◌, ◌≡◌, ◌≢◌, refl, subst, arith, Option, none, some, List, [], ◌∷◌, ◌++◌, ◌+◌, map,
  keep, length, true, false, ◌==◌, All, All-map, inl, inr, Bool-cases, ==_refl, ltb, leb,
}
use agent_memory_vault.Base.Sort.{sort_by, IsSorted, sort_by-IsSorted, All-sort_by, length-sort_by}
use agent_memory_vault.Base.Table.Rows.{All-snoc}
use agent_memory_vault.Core.Text.{Text, codes}
use agent_memory_vault.Core.Float.{F32, f32_one, in_unit_range}
use agent_memory_vault.Core.Error.{
  VaultError, Result, ok, err, panicked, ◌>>=◌, Result-cases, invalid_input,
}
use agent_memory_vault.Core.Memory.{Memory, MemoryId, Time}
use agent_memory_vault.Consolidate.Stale.{member}
use agent_memory_vault.Consolidate.Clusters.UnionFind.{Group}
use agent_memory_vault.Consolidate.Clusters.Groups.{together}
use agent_memory_vault.Consolidate.Clusters.Partition.{union_find_components-Partition}
use agent_memory_vault.Consolidate.Clusters.Active.{
  IsActive, IsActiveId, All-filtered, active_since-IsActive,
}
use agent_memory_vault.Consolidate.Clusters.{
  Cluster, Searching, Graph, neighbours, top_k_neighbors, insert_id, id_set, active_since,
  active_ids, canonical, add_neighbours, collect_graph, collect_edges_for_memory, enumerate,
  group_members, first_le, clusters_of, cluster_graph, find_candidate_clusters,
}

module _ (P : MemoryId → Type 0) where
  member-All : (x : MemoryId) (ids : List MemoryId) → All P ids → member x ids ≡ true → P x
  member-All x [] h m = absurd (ground (arith, m))
  member-All x (y ∷ ids) h m = elim (Bool-cases (y == x)) [
    | inl same ↦ subst P (ground (arith, same)) h.0
    | inr other ↦ member-All x ids h.1 (ground (arith, m))
  ]

  All-members : (ids : List MemoryId) → ((x : MemoryId) → member x ids ≡ true → P x) → All P ids
  All-members [] h = tt
  All-members (x ∷ ids) h = (h x (rw (==_refl x)), All-members ids (λ y m. h y (ground (arith, m))))

  insert_id-All :
      (id : MemoryId) (ids : List MemoryId) → P id → All P ids → All P (insert_id id ids)
  unfolding insert_id
  insert_id-All id ids p h = elim (Bool-cases (member id ids)) [
    | inl old ↦ rw (insert_id, old) h
    | inr new ↦ rw (insert_id, new) (All-snoc P ids id h p)
  ]

  id_set-All :
      (rows : List Memory) (ids : List MemoryId)
      → All (λ m. P m.id) rows
      → All P ids
      → All P (id_set rows ids)
  unfolding id_set
  id_set-All [] ids h k = k
  id_set-All (m ∷ rows) ids h k =
      id_set-All rows (insert_id m.id ids) h.1 (insert_id-All m.id ids h.0 k)

  add_neighbours-All :
      (active : List MemoryId) (id : MemoryId) (ns : List MemoryId) (graph : Graph)
      → All P active
      → All P graph.0
      → All P (add_neighbours active id ns graph).0
  unfolding add_neighbours
  add_neighbours-All active id [] graph a h = h
  add_neighbours-All active id (n ∷ ns) graph a h = elim (Bool-cases (member n active)) [
    | inl known ↦
        rw (add_neighbours, known)
          (add_neighbours-All active id ns (insert_id n graph.0, graph.1 ++ (canonical id n ∷ [])) a
            (insert_id-All n graph.0 (member-All n active a known) h))
    | inr unknown ↦ rw (add_neighbours, unknown) (add_neighbours-All active id ns graph a h)
  ]

  -- A graph, or an error.
  data HasNodes : Result Graph → Type 0 where
    failed : (why : VaultError) → HasNodes (err why)
    collected : (graph : Graph) → All P graph.0 → HasNodes (ok graph)

  collect_graph-HasNodes :
      (S : Searching) (active : List MemoryId) (boundary : Text) (max_distance : F32)
      (seeds : List Memory) (graph : Graph)
      → ((t : Text) → S.embed t ≢ panicked)
      → ((e : List F32) (n : ℕ) (bs : List Text) → S.search e n bs ≢ panicked)
      → All P active
      → All P graph.0
      → HasNodes (collect_graph S active boundary max_distance seeds graph)
  unfolding collect_graph collect_edges_for_memory
  collect_graph-HasNodes S active boundary d [] graph embeds searches a h = collected graph h
  collect_graph-HasNodes S active boundary d (m ∷ seeds) graph embeds searches a h =
      elim (Result-cases (S.embed m.content)) [
        | inl (e, embedded) ↦
            elim (Result-cases (S.search e (top_k_neighbors + 1) (boundary ∷ []))) [
              | inl (raw, searched) ↦
                  let ns = neighbours m.id d raw in
                  rw (collect_graph, embedded, collect_edges_for_memory, searched)
                    (collect_graph-HasNodes S active boundary d seeds
                      (add_neighbours active m.id ns graph) embeds searches a
                      (add_neighbours-All active m.id ns graph a h))
              | inr (inl (why, refused)) ↦
                  rw (collect_graph, embedded, collect_edges_for_memory, refused) (failed why)
              | inr (inr stopped) ↦
                  absurd (searches e (top_k_neighbors + 1) (boundary ∷ []) stopped)
            ]
        | inr (inl (why, refused)) ↦ rw (collect_graph, refused) (failed why)
        | inr (inr stopped) ↦ absurd (embeds m.content stopped)
      ]

  -- All members of all groups are nodes.
  groups-All :
      (nodes : List MemoryId) (groups rest : List Group)
      → ((x : MemoryId) → together x x rest ≡ true → together x x groups ≡ true)
      → ((x : MemoryId) → together x x groups ≡ true → member x nodes ≡ true)
      → All P nodes
      → All (λ ms. All P ms) (map group_members rest)
  groups-All nodes groups [] sub known h = tt
  groups-All nodes groups (g ∷ rest) sub known h = (
    All-members g.1 (λ x m. member-All x nodes h (known x (sub x (ground (arith, m))))),
    groups-All nodes groups rest (λ x t. sub x (ground (arith, t))) known h,
  )

  -- What is promised of a cluster's members.
  abbrev pub IsCluster : List MemoryId → Type 0
  IsCluster ms = (2 ≤ length ms) × IsSorted leb ms × All P ms

  sorted-IsCluster :
      (ms : List MemoryId) → leb 2 (length ms) ≡ true → All P ms → IsCluster (sort_by leb ms)
  sorted-IsCluster ms h k = (
    ground (arith, length-sort_by leb ms),
    sort_by-IsSorted leb (λ a b t. ground arith) (λ a b c t u. ground arith) ms,
    All-sort_by leb P ms k,
  )

  map-All {ℓ κ} :
      {A : Type ℓ} {B : Type κ} (Q : B → Type 0) (f : A → B) (xs : List A)
      → All (λ x. Q (f x)) xs
      → All Q (map f xs)
  map-All Q f [] h = tt
  map-All Q f (x ∷ xs) h = (h.0, map-All Q f xs h.1)

  enumerate-All :
      (n : ℕ) (lists : List (List MemoryId))
      → All IsCluster lists
      → All (λ (c : Cluster). IsCluster c.member_row_ids) (enumerate n lists)
  unfolding enumerate
  enumerate-All n [] h = tt
  enumerate-All n (ms ∷ rest) h = (h.0, enumerate-All (suc n) rest h.1)

clusters_of-All :
    (P : MemoryId → Type 0) (groups : List Group)
    → All (λ ms. All P ms) (map group_members groups)
    → All (λ (c : Cluster). IsCluster P c.member_row_ids) (clusters_of groups)
unfolding clusters_of
clusters_of-All P groups h =
    let lists = map group_members groups in
    let large = keep (λ ms. leb 2 (length ms)) lists in
    enumerate-All P 0 (sort_by first_le (map (sort_by leb) large)) (
      All-sort_by first_le (IsCluster P) (map (sort_by leb) large) (
        map-All P (IsCluster P) (sort_by leb) large (
          All-map (λ ms. All P ms × (leb 2 (length ms) ≡ true)) (λ ms. IsCluster P (sort_by leb ms))
            large (λ ms t. sorted-IsCluster P ms t.1 t.0)
            (All-filtered (λ ms. All P ms) (λ ms. leb 2 (length ms)) lists h))))

-- The outcome of the search for clusters.
pub data Found (rows : List Memory) (boundary : Text) (threshold : F32)
    : Result (List Cluster) → Type 0 where
  refused :
      (why : Text)
      → in_unit_range threshold ≡ false
      → Found rows boundary threshold (err (invalid_input why))
  failed :
      (why : VaultError) → in_unit_range threshold ≡ true → Found rows boundary threshold (err why)
  found :
      (clusters : List Cluster)
      → in_unit_range threshold ≡ true
      → All (λ (c : Cluster). IsCluster (IsActiveId rows boundary) c.member_row_ids) clusters
      → Found rows boundary threshold (ok clusters)

cluster_graph-Found :
    (rows : List Memory) (boundary : Text) (threshold : F32) (result : Result Graph)
    → in_unit_range threshold ≡ true
    → HasNodes (IsActiveId rows boundary) result
    → Found rows boundary threshold (result >>= cluster_graph)
unfolding cluster_graph
cluster_graph-Found rows boundary threshold result t (failed why) = Found.failed why t
cluster_graph-Found rows boundary threshold result t (collected graph h) =
    let P = IsActiveId rows boundary in
    let (groups, run, p) = union_find_components-Partition graph.0 graph.1 in
    rw (cluster_graph, run)
      (Found.found (clusters_of groups) t (
        clusters_of-All P groups
          (groups-All P graph.0 groups groups (λ x s. s) (λ x s. ((p.components x x).0 s).0) h)))

active-ids :
    (rows : List Memory) (boundary : Text) (since : Option Time) (ids : List MemoryId)
    → All (IsActiveId rows boundary) ids
    → All (IsActiveId rows boundary) (id_set (active_since rows boundary since) ids)
active-ids rows boundary since ids h =
    id_set-All (IsActiveId rows boundary) (active_since rows boundary since) ids
      (All-map (IsActive rows boundary) (λ m. IsActiveId rows boundary m.id)
        (active_since rows boundary since) (λ m t. (m, refl, t))
        (active_since-IsActive rows boundary since))
      h

active_ids-All :
    (rows : List Memory) (boundary : Text) (since : Option Time)
    → All (IsActiveId rows boundary) (active_ids rows boundary since)
unfolding active_ids
active_ids-All rows boundary none = active-ids rows boundary none [] tt
active_ids-All rows boundary (some t) = active-ids rows boundary none [] tt

-- Where neither the embedding model nor the vector search panics, `find_candidate_clusters` does not
-- panic: it refuses a threshold outside 0.0 to 1.0, passes on an error, or returns clusters, each
-- of two members at least, in ascending order, all of them ids of rows of the boundary that are
-- neither superseded nor archived and that have no `valid_until`, whatever vectors the search finds.
pub find_candidate_clusters-Found :
    (S : Searching) (rows : List Memory) (boundary : Text) (threshold : F32) (since : Option Time)
    → ((t : Text) → S.embed t ≢ panicked)
    → ((e : List F32) (n : ℕ) (bs : List Text) → S.search e n bs ≢ panicked)
    → Found rows boundary threshold (find_candidate_clusters S rows boundary threshold since)
unfolding find_candidate_clusters
find_candidate_clusters-Found S rows boundary threshold since embeds searches =
    let seeds = active_since rows boundary since in
    let active = active_ids rows boundary since in
    elim (Bool-cases (in_unit_range threshold)) [
      | inr outside ↦
          rw (find_candidate_clusters, outside)
            (Found.refused (codes "merge_similarity_threshold must be in [0.0, 1.0]") outside)
      | inl inside ↦ elim (Bool-cases (length seeds == 0)) [
        | inl idle ↦ rw (find_candidate_clusters, inside, idle) (Found.found [] inside tt)
        | inr more ↦ elim (Bool-cases (ltb (length active) 2)) [
          | inl alone ↦ rw (find_candidate_clusters, inside, more, alone) (Found.found [] inside tt)
          | inr several ↦
              rw (find_candidate_clusters, inside, more, several)
                (cluster_graph-Found rows boundary threshold
                  (collect_graph S active boundary (S.minus f32_one threshold) seeds
                    (id_set seeds [], []))
                  inside
                  (collect_graph-HasNodes (IsActiveId rows boundary) S active boundary
                    (S.minus f32_one threshold) seeds (id_set seeds [], []) embeds searches
                    (active_ids-All rows boundary since) (active-ids rows boundary since [] tt)))
        ]
      ]
    ]
