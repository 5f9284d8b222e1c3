-- ===== src/Consolidate/Clusters/Connected.antt =====
-- After the loop over the edges two ids have one root exactly where a path of edges joins them.
use agent_memory_vault.Base.{
  ◌≡◌, ◌↔◌, refl, sym, ◌∙◌, subst, arith, Option, some, List, [], ◌∷◌, ==_refl, Bool, true, ◌&&◌,
  ◌==◌, any, inl, inr, Bool-cases,
}
use agent_memory_vault.Core.Memory.{MemoryId}
use agent_memory_vault.Consolidate.Clusters.UnionFind.{Parents, insert, own_roots, join_all}
use agent_memory_vault.Consolidate.Clusters.Labels.{Labels, Merges, join-Joined}

abbrev pub Edges : Type 0
Edges = List (MemoryId × MemoryId)

abbrev pub is_edge : Edges → MemoryId → MemoryId → Bool
is_edge edges a b = any (λ e. e.0 == a && e.1 == b) edges

-- A path of edges, walked either way.
pub data Connected (edges : Edges) : MemoryId → MemoryId → Type 0 where
  here : (x : MemoryId) → Connected edges x x
  along : (x y z : MemoryId) → is_edge edges x y ≡ true → Connected edges y z → Connected edges x z
  back : (x y z : MemoryId) → is_edge edges y x ≡ true → Connected edges y z → Connected edges x z

pub Connected-trans :
    (edges : Edges) (x y z : MemoryId)
    → Connected edges x y
    → Connected edges y z
    → Connected edges x z
Connected-trans edges x y z (Connected.here _) q = q
Connected-trans edges x y z (Connected.along _ w _ e p) q =
    Connected.along x w z e (Connected-trans edges w y z p q)
Connected-trans edges x y z (Connected.back _ w _ e p) q =
    Connected.back x w z e (Connected-trans edges w y z p q)

pub Connected-sym : (edges : Edges) (x y : MemoryId) → Connected edges x y → Connected edges y x
Connected-sym edges x y (Connected.here _) = Connected.here x
Connected-sym edges x y (Connected.along _ w _ e p) =
    Connected-trans edges y w x (Connected-sym edges w y p)
      (Connected.back w x x e (Connected.here x))
Connected-sym edges x y (Connected.back _ w _ e p) =
    Connected-trans edges y w x (Connected-sym edges w y p)
      (Connected.along w x x e (Connected.here x))

edge-Connected : (edges : Edges) (a b : MemoryId) → is_edge edges a b ≡ true → Connected edges a b
edge-Connected edges a b e = Connected.along a b b e (Connected.here b)

-- A labelling that joins only what the edges join.
abbrev pub IsSound : Edges → (MemoryId → MemoryId) → Type 0
IsSound whole label = (x y : MemoryId) → label x ≡ label y → Connected whole x y

-- and one that joins all that they join
abbrev pub IsComplete : Edges → (MemoryId → MemoryId) → Type 0
IsComplete edges label = (x y : MemoryId) → is_edge edges x y ≡ true → label x ≡ label y

-- Two paths that meet at the ends of an edge.
bridge :
    (whole : Edges) (label : MemoryId → MemoryId) (x a b y : MemoryId)
    → IsSound whole label
    → Connected whole a b
    → label x ≡ label a
    → label y ≡ label b
    → Connected whole x y
bridge whole label x a b y sound e p q =
    Connected-trans whole x a y (sound x a p) (Connected-trans whole a b y e (sound b y (sym q)))

merged-IsSound :
    (whole : Edges) (label merged : MemoryId → MemoryId) (a b : MemoryId)
    → Merges label merged a b
    → Connected whole a b
    → IsSound whole label
    → IsSound whole merged
merged-IsSound whole label merged a b m e sound x y h = elim (m.only x y h) [
  | inl same ↦ sound x y same
  | inr (inl ends) ↦ bridge whole label x a b y sound e ends.0 ends.1
  | inr (inr ends) ↦ bridge whole label x b a y sound (Connected-sym whole a b e) ends.0 ends.1
]

-- What the loop over the edges leaves.
abbrev pub JoinedAll : Edges → Edges → Option Parents → (MemoryId → MemoryId) → Type 0
JoinedAll whole edges result label =
    (parent : Parents) × (merged : MemoryId → MemoryId) × (result ≡ some parent)
    × Labels parent merged
    × IsSound whole merged
    × IsComplete edges merged
    × ((x y : MemoryId) → label x ≡ label y → merged x ≡ merged y)

join_all-JoinedAll :
    (whole edges : Edges) (parent : Parents) (label : MemoryId → MemoryId)
    → Labels parent label
    → IsSound whole label
    → ((a b : MemoryId) → is_edge edges a b ≡ true → Connected whole a b)
    → JoinedAll whole edges (join_all parent edges) label
unfolding join_all
join_all-JoinedAll whole [] parent label l sound h =
    (parent, label, refl, l, sound, λ x y e. cc, λ x y e. e)
join_all-JoinedAll whole ((a, b) ∷ edges) parent label l sound h =
    let (p, m, e, lp, merges) = join-Joined parent label a b l in
    let edge : Connected whole a b = h a b (rw (==_refl a, ==_refl b)) in
    let (q, last, run, lq, s, c, keeps) =
      join_all-JoinedAll whole edges p m lp (merged-IsSound whole label m a b merges edge sound)
        (λ x y t. h x y (ground (arith, t))) in
    (
      q,
      last,
      rw (join_all, e, run),
      lq,
      s,
      λ x y t. elim (Bool-cases (is_edge edges x y)) [
        | inl yes_edge ↦ c x y yes_edge
        | inr no_edge ↦ keeps x y (ground (arith, merges.joins))
      ],
      λ x y t. keeps x y (merges.keeps x y t),
    )

own_roots_self : (nodes : List MemoryId) (x y : MemoryId) → own_roots nodes x ≡ some y → y ≡ x
unfolding own_roots insert
own_roots_self [] x y h = cc
own_roots_self (id ∷ nodes) x y h = ground (arith, own_roots_self nodes x y)

own_roots-Labels : (nodes : List MemoryId) → Labels (own_roots nodes) (λ x. x)
own_roots-Labels nodes = record {
  below = λ x. omega arith;
  idempotent = λ x. refl;
  absent = λ x h. refl;
  step = own_roots_self nodes;
  descends = λ x y h. omega (arith, own_roots_self nodes x y h);
  root = λ x h. refl;
}

complete-Connected :
    (edges : Edges) (label : MemoryId → MemoryId) (x y : MemoryId)
    → IsComplete edges label
    → Connected edges x y
    → label x ≡ label y
complete-Connected edges label x y c (Connected.here _) = refl
complete-Connected edges label x y c (Connected.along _ w _ e p) =
    c x w e ∙ complete-Connected edges label w y c p
complete-Connected edges label x y c (Connected.back _ w _ e p) =
    sym (c w x e) ∙ complete-Connected edges label w y c p

abbrev pub Components : List MemoryId → Edges → Type 0
Components nodes edges =
    (parent : Parents) × (label : MemoryId → MemoryId) × (join_all (own_roots nodes) edges
      ≡ some parent)
    × Labels parent label
    × ((x y : MemoryId) → (label x ≡ label y) ↔ Connected edges x y)

-- The labels of the map that the loop leaves are the components.
pub join_all-Components : (nodes : List MemoryId) (edges : Edges) → Components nodes edges
join_all-Components nodes edges =
    let (parent, label, run, l, sound, complete, _) =
      join_all-JoinedAll edges edges (own_roots nodes) (λ x. x) (own_roots-Labels nodes)
        (λ x y e. subst (λ t. Connected edges x t) e (Connected.here x)) (edge-Connected edges) in
    (parent, label, run, l, λ x y. (sound x y, complete-Connected edges label x y complete))
