-- ===== src/Consolidate/Clusters/Partition.antt =====
-- `union_find_components` returns the connected components of its graph.
use agent_memory_vault.Base.{
  ◌≡◌, ◌↔◌, refl, sym, ap, subst, ◌∙◌, arith, Option, some, List, [], ◌∷◌, Bool, true, ◌&&◌, ◌||◌,
  ◌==◌, All, All-map, inl, inr, Bool-cases, ==_refl,
}
use agent_memory_vault.Core.Memory.{MemoryId}
use agent_memory_vault.Consolidate.Stale.{member}
use agent_memory_vault.Consolidate.Clusters.UnionFind.{
  Parents, Group, insert_member, insert_group, bucket, union_find_components,
}
use agent_memory_vault.Consolidate.Clusters.Labels.{Labels, find-label}
use agent_memory_vault.Consolidate.Clusters.Connected.{Edges, Connected, join_all-Components}
use agent_memory_vault.Consolidate.Clusters.Groups.{
  IsAscending, IsKeySorted, members_of, together, member-insert_member, insert_member-IsAscending,
  All-insert_group, insert_group-IsKeySorted, member-insert_group, members_of-together,
}

-- What the map promises of a group while the nodes are put in.
record IsGroup (label : MemoryId → MemoryId) (nodes : List MemoryId) (g : Group) : Type 0 where
  labelled : (x : MemoryId) → member x g.1 ≡ true → (label x ≡ g.0) × (member x nodes ≡ true)
  ascending : IsAscending g.1

new-IsGroup :
    (label : MemoryId → MemoryId) (nodes : List MemoryId) (node : MemoryId)
    → member node nodes ≡ true
    → IsGroup label nodes (label node, node ∷ [])
new-IsGroup label nodes node h = record {
  labelled = λ x e.
      let same : node ≡ x = ground (arith, e) in
      (ap label (sym same), subst (λ t. member t nodes ≡ true) same h);
  ascending = (tt, tt);
}

grow-IsGroup :
    (label : MemoryId → MemoryId) (nodes : List MemoryId) (node : MemoryId) (ms : List MemoryId)
    → member node nodes ≡ true
    → IsGroup label nodes (label node, ms)
    → IsGroup label nodes (label node, insert_member node ms)
grow-IsGroup label nodes node ms h g = record {
  labelled = λ x e. elim (Bool-cases (node == x)) [
    | inl hit ↦
        let same : node ≡ x = ground arith in
        (ap label (sym same), subst (λ t. member t nodes ≡ true) same h)
    | inr other ↦ g.labelled x (ground (arith, member-insert_member x node ms))
  ];
  ascending = insert_member-IsAscending node ms g.ascending;
}

abbrev Bucketed :
    List MemoryId
    → List MemoryId
    → (MemoryId → MemoryId)
    → List Group
    → Option (List Group)
    → Type 0
Bucketed whole nodes label groups result =
    (out : List Group) × (result ≡ some out)
    × All (IsGroup label whole) out
    × IsKeySorted out
    × ((r x : MemoryId)
        → member x (members_of r out)
          ≡ (member x nodes && label x == r || member x (members_of r groups)))

seen_next :
    (label : MemoryId → MemoryId) (r x node : MemoryId) (rest now : Bool)
    → (rest && label x == r || (label node == r && node == x || now))
      ≡ ((node == x || rest) && label x == r || now)
seen_next label r x node rest now = elim (Bool-cases (node == x)) [
  | inl hit ↦
      let same : label node ≡ label x = ap label (ground (arith, hit)) in ground (arith, same)
  | inr other ↦ ground arith
]

bucket-Bucketed :
    (whole nodes : List MemoryId) (parent : Parents) (label : MemoryId → MemoryId)
    (groups : List Group)
    → Labels parent label
    → All (λ x. member x whole ≡ true) nodes
    → All (IsGroup label whole) groups
    → IsKeySorted groups
    → Bucketed whole nodes label groups (bucket parent nodes groups)
unfolding bucket
bucket-Bucketed whole [] parent label groups l h all keys =
    (groups, refl, all, keys, λ r x. ground arith)
bucket-Bucketed whole (node ∷ nodes) parent label groups l h all keys =
    let (p, found, lp) = find-label parent label node l in
    let all' =
      All-insert_group (IsGroup label whole) (label node) node groups
        (new-IsGroup label whole node h.0) (λ ms g. grow-IsGroup label whole node ms h.0 g) all in
    let keys' = insert_group-IsKeySorted (label node) node groups keys in
    let (out, run, ok_all, ok_keys, has) =
      bucket-Bucketed whole nodes p label (insert_group (label node) node groups) lp h.1 all'
        keys' in
    (
      out,
      rw (bucket, found) run,
      ok_all,
      ok_keys,
      λ r x.
          has r x
          ∙ ap (λ (t : Bool). member x nodes && label x == r || t)
              (member-insert_group r x (label node) node groups keys)
          ∙ seen_next label r x node (member x nodes) (member x (members_of r groups)),
    )

together-labels :
    (label : MemoryId → MemoryId) (nodes : List MemoryId) (x y : MemoryId) (groups : List Group)
    → All (IsGroup label nodes) groups
    → together x y groups ≡ true
    → (label x ≡ label y) × (member x nodes ≡ true) × (member y nodes ≡ true)
together-labels label nodes x y [] all h = cc
together-labels label nodes x y (g ∷ groups) all h =
    elim (Bool-cases (member x g.1 && member y g.1)) [
      | inl both ↦
          let px = all.0.labelled x (ground (arith, both)) in
          let py = all.0.labelled y (ground (arith, both)) in (px.0 ∙ sym py.0, px.1, py.1)
      | inr apart ↦ together-labels label nodes x y groups all.1 (ground (arith, h))
    ]

members : (xs : List MemoryId) → All (λ x. member x xs ≡ true) xs
members [] = tt
members (x ∷ xs) = (
  rw (==_refl x),
  All-map (λ y. member y xs ≡ true) (λ y. member y (x ∷ xs) ≡ true) xs (λ y t. ground (arith, t))
      (members xs),
)

-- Groups in the order of their keys, each in the order of its members, with two ids in one group
-- exactly where both are nodes and edges join them.
pub record Partition (nodes : List MemoryId) (edges : Edges) (groups : List Group) : Type 0 where
  pub keys : IsKeySorted groups
  pub ascending : All (λ g. IsAscending g.1) groups
  pub components :
      (x y : MemoryId)
      → (together x y groups ≡ true)
        ↔ ((member x nodes ≡ true) × (member y nodes ≡ true) × Connected edges x y)

-- Whatever the nodes and the edges, `union_find_components` ends, within the fuel of its `find`s,
-- and returns groups with strictly ascending keys and strictly ascending members, in which two ids
-- stand together exactly where both are nodes and a path of edges joins them.
pub union_find_components-Partition :
    (nodes : List MemoryId) (edges : Edges)
    → (groups : List Group) × (union_find_components nodes edges ≡ some groups)
      × Partition nodes edges groups
unfolding union_find_components
union_find_components-Partition nodes edges =
    let (parent, label, run, l, same) = join_all-Components nodes edges in
    let (groups, out, all, keys, has) =
      bucket-Bucketed nodes nodes parent label [] l (members nodes) tt tt in
    let under : (x : MemoryId)
        → member x nodes ≡ true
        → member x (members_of (label x) groups) ≡ true =
      λ x h. has (label x) x ∙ ground (arith, h, ==_refl (label x)) in
    (
      groups,
      rw (union_find_components, run) out,
      record {
        keys = keys;
        ascending =
            All-map (IsGroup label nodes) (λ g. IsAscending g.1) groups (λ g t. t.ascending) all;
        components = λ x y. (
          λ h.
              let (e, hx, hy) = together-labels label nodes x y groups all h in
              (hx, hy, (same x y).0 e),
          λ h. members_of-together (label x) x y groups (under x h.0) (
              subst (λ t. member y (members_of t groups) ≡ true) (sym ((same x y).1 h.2))
                (under y h.1)),
        );
      },
    )
