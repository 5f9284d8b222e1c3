-- ===== src/Consolidate/Clusters/Labels.antt =====
-- The parent map against a labelling of the ids by their roots, which `find` never changes and
-- `join` merges.
use agent_memory_vault.Base.{
  ℕ, zero, suc, ◌≤◌, ◌<◌, ◌≡◌, ◌⊎◌, refl, sym, ◌∙◌, subst, ap, arith, Option, none, some, List, [],
  ◌∷◌, ◌++◌, ltb, ◌==◌, if◌then◌else◌, All, Bool-cases, Option-cases, inl, inr,
}
use agent_memory_vault.Base.Table.Rows.{All-snoc}
use agent_memory_vault.Core.Memory.{MemoryId}
use agent_memory_vault.Consolidate.Clusters.UnionFind.{
  Parents, insert, follow, compress, find, unite, join,
}

-- The map leads every id to its label.
pub record Labels (parent : Parents) (label : MemoryId → MemoryId) : Type 0 where
  pub below : (x : MemoryId) → label x ≤ x
  pub idempotent : (x : MemoryId) → label (label x) ≡ label x
  pub absent : (x : MemoryId) → parent x ≡ none → label x ≡ x
  pub step : (x y : MemoryId) → parent x ≡ some y → label y ≡ label x
  pub descends : (x y : MemoryId) → parent x ≡ some y → y ≤ x
  pub root : (x : MemoryId) → parent x ≡ some x → label x ≡ x

-- An entry that leads to the label of its key keeps the labelling.
insert-Labels :
    (parent : Parents) (label : MemoryId → MemoryId) (id : MemoryId)
    → Labels parent label
    → Labels (insert id (label id) parent) label
unfolding insert
insert-Labels parent label id l = record {
  below = l.below;
  idempotent = l.idempotent;
  absent = λ x h. ground (arith, l.absent x);
  step = λ x y h. ground (arith, l.step x y, l.idempotent id);
  descends = λ x y h. ground (arith, l.descends x y, l.below id);
  root = λ x h. ground (arith, l.root x);
}

compress-Labels :
    (path : List MemoryId) (r : MemoryId) (parent : Parents) (label : MemoryId → MemoryId)
    → Labels parent label
    → All (λ p. label p ≡ r) path
    → Labels (compress path r parent) label
unfolding compress
compress-Labels [] r parent label l h = l
compress-Labels (p ∷ path) r parent label l h =
    compress-Labels path r (insert p r parent) label
      (subst (λ t. Labels (insert p t parent) label) h.0 (insert-Labels parent label p l)) h.1

-- With more fuel than the id the loop ends, at the label, and all that it went through has that
-- label.
follow-label :
    (fuel : ℕ) (parent : Parents) (label : MemoryId → MemoryId) (id : MemoryId)
    (path : List MemoryId)
    → Labels parent label
    → id < fuel
    → All (λ p. label p ≡ label id) path
    → (rest : List MemoryId) × (follow fuel parent id path ≡ some (label id, rest))
      × All (λ p. label p ≡ label id) rest
unfolding follow
follow-label zero parent label id path l h hp = elim h [ ]
follow-label (suc fuel) parent label id path l h hp = elim (Option-cases (parent id)) [
  | inl none_e ↦ (path, rw (follow, none_e, l.absent id none_e), hp)
  | inr (next, e) ↦ elim (Bool-cases (next == id)) [
    | inl same ↦
        let here : next ≡ id = ground arith in
        let own : label id ≡ id = l.root id (e ∙ ap some here) in
        (path, rw (follow, e, same, own), hp)
    | inr more ↦
        let down : next < fuel = ground (arith, l.descends id next e) in
        let up : label next ≡ label id = l.step id next e in
        let (rest, run, all) = follow-label fuel parent label next (path ++ (id ∷ [])) l down (
          subst (λ t. All (λ p. label p ≡ t) (path ++ (id ∷ []))) (sym up)
            (All-snoc (λ p. label p ≡ label id) path id hp refl)) in
        (rest, rw (follow, e, more, run, up), subst (λ t. All (λ p. label p ≡ t) rest) up all)
  ]
]

-- `find` answers with the label, and the compressed map has the same labels.
pub find-label :
    (parent : Parents) (label : MemoryId → MemoryId) (id : MemoryId)
    → Labels parent label
    → (compressed : Parents) × (find parent id ≡ some (label id, compressed))
      × Labels compressed label
unfolding find
find-label parent label id l =
    let (rest, run, all) = follow-label (suc id) parent label id [] l (omega arith) tt in
    (
      compress rest (label id) parent,
      rw (find, run),
      compress-Labels rest (label id) parent label l all,
    )

-- What holds between the ids of one label: any equivalence that holds before and joins the edge.
pub record Merges (label : MemoryId → MemoryId) (merged : MemoryId → MemoryId) (a b : MemoryId)
    : Type 0 where
  pub keeps : (x y : MemoryId) → label x ≡ label y → merged x ≡ merged y
  pub joins : merged a ≡ merged b
  -- and nothing else is joined
  pub only :
      (x y : MemoryId)
      → merged x ≡ merged y
      → (label x ≡ label y)
        ⊎ ((label x ≡ label a) × (label y ≡ label b) ⊎ (label x ≡ label b) × (label y ≡ label a))

-- The labels after the larger of two roots came under the smaller.
abbrev merge : MemoryId → MemoryId → (MemoryId → MemoryId) → MemoryId → MemoryId
merge low high label x = if label x == high then low else label x

insert-merge :
    (parent : Parents) (label : MemoryId → MemoryId) (low high : MemoryId)
    → Labels parent label
    → label low ≡ low
    → label high ≡ high
    → low < high
    → Labels (insert high low parent) (merge low high label)
unfolding insert
insert-merge parent label low high l own top h = record {
  below = λ x. ground (arith, l.below x);
  idempotent = λ x. ground (arith, l.idempotent x);
  absent = λ x e. ground (arith, l.absent x);
  step = λ x y e. ground (arith, l.step x y);
  descends = λ x y e. ground (arith, l.descends x y);
  root = λ x e. ground (arith, l.root x);
}

merge-Merges :
    (label : MemoryId → MemoryId) (a b : MemoryId)
    → Merges label (merge (label a) (label b) label) a b
merge-Merges label a b = record {
  keeps = λ x y e. ground arith;
  joins = ground arith;
  only = λ x y e. ground arith;
}

Merges-flip :
    (label merged : MemoryId → MemoryId) (a b : MemoryId)
    → Merges label merged a b
    → Merges label merged b a
Merges-flip label merged a b m = record {
  keeps = m.keeps;
  joins = sym m.joins;
  only = λ x y e. ground (arith, m.only x y e);
}

Merges-same :
    (label : MemoryId → MemoryId) (a b : MemoryId) → label a ≡ label b → Merges label label a b
Merges-same label a b e = record { keeps = λ x y h. h; joins = e; only = λ x y h. inl h }

-- What a round of the loop over the edges does to the labels.
abbrev pub Joined : Option Parents → (MemoryId → MemoryId) → MemoryId → MemoryId → Type 0
Joined result label a b =
    (parent : Parents) × (merged : MemoryId → MemoryId) × (result ≡ some parent)
    × Labels parent merged
    × Merges label merged a b

unite-Joined :
    (parent : Parents) (label : MemoryId → MemoryId) (a b : MemoryId)
    → Labels parent label
    → Joined (some (unite (label a) (label b) parent)) label a b
unfolding unite
unite-Joined parent label a b l = elim (Bool-cases (label a == label b)) [
  | inl same ↦ (parent, label, rw (unite, same), l, Merges-same label a b (ground arith))
  | inr other ↦ elim (Bool-cases (ltb (label a) (label b))) [
    | inl less ↦ (
      insert (label b) (label a) parent,
      merge (label a) (label b) label,
      rw (unite, other, less),
      insert-merge parent label (label a) (label b) l (l.idempotent a) (l.idempotent b)
          (ground arith),
      merge-Merges label a b,
    )
    | inr more ↦ (
      insert (label a) (label b) parent,
      merge (label b) (label a) label,
      rw (unite, other, more),
      insert-merge parent label (label b) (label a) l (l.idempotent b) (l.idempotent a)
          (ground arith),
      Merges-flip label (merge (label b) (label a) label) b a (merge-Merges label b a),
    )
  ]
]

pub join-Joined :
    (parent : Parents) (label : MemoryId → MemoryId) (a b : MemoryId)
    → Labels parent label
    → Joined (join parent a b) label a b
unfolding join
join-Joined parent label a b l =
    let (p, found_a, lp) = find-label parent label a l in
    let (q, found_b, lq) = find-label p label b lp in
    let (r, merged, e, lr, m) = unite-Joined q label a b lq in
    (r, merged, rw (join, found_a, found_b, e), lr, m)
