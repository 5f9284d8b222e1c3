-- ===== src/Consolidate/Clusters/UnionFind.antt =====
-- `union_find_components` (crates/vault-consolidator/src/phases/cluster.rs). The parent map, a
-- `HashMap`, is a function; the `BTreeMap` of `BTreeSet`s is the list of its entries in key order.
-- The loop of `find` runs on fuel: `none` means that it ran out.
use agent_memory_vault.Base.{
  ℕ, zero, suc, Option, none, some, List, [], ◌∷◌, ◌++◌, ltb, ◌==◌, if◌then◌else◌,
}
use agent_memory_vault.Core.Memory.{MemoryId}

abbrev pub Parents : Type 0
Parents = MemoryId → Option MemoryId

-- `parent.insert(id, root)`.
unfoldable pub insert : MemoryId → MemoryId → Parents → Parents
insert id root parent x = if x == id then some root else parent x

-- `nodes.iter().map(|id| (*id, *id)).collect()`.
unfoldable pub own_roots : List MemoryId → Parents
unfolding insert
own_roots [] x = none
own_roots (id ∷ nodes) x = insert id id (own_roots nodes) x

-- The `while let`: the root, and the ids that it went through.
unfoldable pub follow : ℕ → Parents → MemoryId → List MemoryId → Option (MemoryId × List MemoryId)
follow zero parent id path = none
follow (suc fuel) parent id path = elim (parent id) [
  | none ↦ some (id, path)
  | some next ↦
      let rest = follow fuel parent next (path ++ (id ∷ [])) in
      if next == id then some (id, path) else rest
]

-- `for p in path`: each now points at the root.
unfoldable pub compress : List MemoryId → MemoryId → Parents → Parents
compress [] root parent = parent
compress (p ∷ path) root parent = compress path root (insert p root parent)

-- A parent is never above its child, so an id is more than enough fuel.
unfoldable pub find : Parents → MemoryId → Option (MemoryId × Parents)
unfolding follow compress
find parent id = elim (follow (suc id) parent id []) [
  | none ↦ none
  | some found ↦ some (found.0, compress found.1 found.0 parent)
]

-- The smaller root becomes the other's parent.
unfoldable pub unite : MemoryId → MemoryId → Parents → Parents
unfolding insert
unite ra rb parent =
    if ra == rb then parent else if ltb ra rb then insert rb ra parent else insert ra rb parent

-- One round of the loop over the edges.
unfoldable pub join : Parents → MemoryId → MemoryId → Option Parents
unfolding find unite
join parent a b = elim (find parent a) [
  | none ↦ none
  | some x ↦ elim (find x.1 b) [ none ↦ none | some y ↦ some (unite x.0 y.0 y.1) ]
]

unfoldable pub join_all : Parents → List (MemoryId × MemoryId) → Option Parents
unfolding join
join_all parent [] = some parent
join_all parent ((a, b) ∷ edges) = elim (join parent a b) [
  | none ↦ none
  | some joined ↦ join_all joined edges
]

-- `BTreeSet::insert`.
unfoldable pub insert_member : MemoryId → List MemoryId → List MemoryId
insert_member id [] = id ∷ []
insert_member id (x ∷ xs) =
    if id == x then x ∷ xs else if ltb id x then id ∷ x ∷ xs else x ∷ insert_member id xs

-- A root with the nodes under it.
abbrev pub Group : Type 0
Group = MemoryId × List MemoryId

-- `groups.entry(root).or_default().insert(*node)`.
unfoldable pub insert_group : MemoryId → MemoryId → List Group → List Group
unfolding insert_member
insert_group root node [] = (root, node ∷ []) ∷ []
insert_group root node ((k, ms) ∷ groups) =
    if root == k
    then (k, insert_member node ms) ∷ groups
    else if ltb root k
    then (root, node ∷ []) ∷ (k, ms) ∷ groups
    else (k, ms) ∷ insert_group root node groups

unfoldable pub bucket : Parents → List MemoryId → List Group → Option (List Group)
unfolding find insert_group
bucket parent [] groups = some groups
bucket parent (node ∷ nodes) groups = elim (find parent node) [
  | none ↦ none
  | some x ↦ bucket x.1 nodes (insert_group x.0 node groups)
]

unfoldable pub union_find_components :
    List MemoryId → List (MemoryId × MemoryId) → Option (List Group)
unfolding own_roots join_all bucket
union_find_components nodes edges = elim (join_all (own_roots nodes) edges) [
  | none ↦ none
  | some parent ↦ bucket parent nodes []
]
