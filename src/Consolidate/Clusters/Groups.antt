-- ===== src/Consolidate/Clusters/Groups.antt =====
-- The sorted map of sorted sets that the nodes are put into.
use agent_memory_vault.Base.{
  ◌<◌, ◌≡◌, refl, sym, subst, arith, List, [], ◌∷◌, Bool, true, ◌&&◌, ◌||◌, ◌==◌, ltb,
  if◌then◌else◌, any, All, All-map, inl, inr, Bool-cases,
}
use agent_memory_vault.Core.Memory.{MemoryId}
use agent_memory_vault.Consolidate.Stale.{member}
use agent_memory_vault.Consolidate.Clusters.UnionFind.{Group, insert_member, insert_group}

-- Strictly ascending.
abbrev pub IsAscending : List MemoryId → Type 0
IsAscending [] = Unit
IsAscending (x ∷ xs) = All (λ y. x < y) xs × IsAscending xs

-- The keys ascend strictly.
abbrev pub IsKeySorted : List Group → Type 0
IsKeySorted [] = Unit
IsKeySorted (g ∷ groups) = All (λ h. g.0 < h.0) groups × IsKeySorted groups

-- The members under a key.
abbrev pub members_of : MemoryId → List Group → List MemoryId
members_of root [] = []
members_of root (g ∷ groups) = if root == g.0 then g.1 else members_of root groups

-- Two ids stand in one group.
abbrev pub together : MemoryId → MemoryId → List Group → Bool
together x y groups = any (λ g. member x g.1 && member y g.1) groups

-- A set gains the id and nothing else.
pub member-insert_member :
    (x id : MemoryId) (ms : List MemoryId)
    → member x (insert_member id ms) ≡ (id == x || member x ms)
unfolding insert_member
member-insert_member x id [] = ground arith
member-insert_member x id (m ∷ ms) = ground (arith, member-insert_member x id ms)

All-insert_member :
    (P : MemoryId → Type 0) (id : MemoryId) (ms : List MemoryId)
    → P id
    → All P ms
    → All P (insert_member id ms)
unfolding insert_member
All-insert_member P id [] p h = (p, tt)
All-insert_member P id (m ∷ ms) p h = elim (Bool-cases (id == m)) [
  | inl same ↦ rw (same, insert_member) h
  | inr other ↦ elim (Bool-cases (ltb id m)) [
    | inl less ↦ rw (other, less, insert_member) (p, h)
    | inr more ↦ rw (other, more, insert_member) (h.0, All-insert_member P id ms p h.1)
  ]
]

pub insert_member-IsAscending :
    (id : MemoryId) (ms : List MemoryId) → IsAscending ms → IsAscending (insert_member id ms)
unfolding insert_member
insert_member-IsAscending id [] h = (tt, tt)
insert_member-IsAscending id (m ∷ ms) h = elim (Bool-cases (id == m)) [
  | inl same ↦ rw (same, insert_member) h
  | inr other ↦ elim (Bool-cases (ltb id m)) [
    | inl less ↦
        let front : id < m = ground arith in
        rw (other, less, insert_member)
          ((front, All-map (λ y. m < y) (λ y. id < y) ms (λ y t. omega arith) h.0), h)
    | inr more ↦
        let behind : m < id = ground arith in
        rw (other, more, insert_member)
          (All-insert_member (λ y. m < y) id ms behind h.0, insert_member-IsAscending id ms h.1)
  ]
]

-- What holds of all groups holds after an insertion, if it holds of the group that grows.
pub All-insert_group :
    (P : Group → Type 0) (root node : MemoryId) (groups : List Group)
    → P (root, node ∷ [])
    → ((ms : List MemoryId) → P (root, ms) → P (root, insert_member node ms))
    → All P groups
    → All P (insert_group root node groups)
unfolding insert_group
All-insert_group P root node [] new grow h = (new, tt)
All-insert_group P root node ((k, ms) ∷ groups) new grow h = elim (Bool-cases (root == k)) [
  | inl same ↦
      let at : root ≡ k = ground arith in
      rw (same, insert_group)
        (
          subst (λ t. P (t, insert_member node ms)) at
              (grow ms (subst (λ t. P (t, ms)) (sym at) h.0)),
          h.1,
        )
  | inr other ↦ elim (Bool-cases (ltb root k)) [
    | inl less ↦ rw (other, less, insert_group) (new, h)
    | inr more ↦
        rw (other, more, insert_group) (h.0, All-insert_group P root node groups new grow h.1)
  ]
]

pub insert_group-IsKeySorted :
    (root node : MemoryId) (groups : List Group)
    → IsKeySorted groups
    → IsKeySorted (insert_group root node groups)
unfolding insert_group
insert_group-IsKeySorted root node [] h = (tt, tt)
insert_group-IsKeySorted root node ((k, ms) ∷ groups) h = elim (Bool-cases (root == k)) [
  | inl same ↦ rw (same, insert_group) h
  | inr other ↦ elim (Bool-cases (ltb root k)) [
    | inl less ↦
        let front : root < k = ground arith in
        rw (other, less, insert_group)
          ((front, All-map (λ g. k < g.0) (λ g. root < g.0) groups (λ g t. omega arith) h.0), h)
    | inr more ↦
        let behind : k < root = ground arith in
        rw (other, more, insert_group)
          (
            All-insert_group (λ g. k < g.0) root node groups behind (λ _ t. t) h.0,
            insert_group-IsKeySorted root node groups h.1,
          )
  ]
]

members_of-none :
    (root : MemoryId) (groups : List Group)
    → All (λ g. root < g.0) groups
    → members_of root groups ≡ []
members_of-none root [] h = refl
members_of-none root (g ∷ groups) h = ground (arith, members_of-none root groups h.1, h.0)

-- A node is under its root after the insertion, and every other is where it was.
pub member-insert_group :
    (r x root node : MemoryId) (groups : List Group)
    → IsKeySorted groups
    → member x (members_of r (insert_group root node groups))
      ≡ (root == r && node == x || member x (members_of r groups))
unfolding insert_group
member-insert_group r x root node [] h = ground arith
member-insert_group r x root node ((k, ms) ∷ groups) h = elim (Bool-cases (root == k)) [
  | inl same ↦ rw (same, insert_group) (ground (arith, member-insert_member x node ms))
  | inr other ↦ elim (Bool-cases (ltb root k)) [
    | inl less ↦
        let front : root < k = ground arith in
        let absent =
          members_of-none root groups
            (All-map (λ g. k < g.0) (λ g. root < g.0) groups (λ g t. omega arith) h.0) in
        rw (other, less, insert_group) (ground (arith, absent))
    | inr more ↦
        rw (other, more, insert_group)
          (ground (arith, member-insert_group r x root node groups h.1))
  ]
]

pub members_of-together :
    (r x y : MemoryId) (groups : List Group)
    → member x (members_of r groups) ≡ true
    → member y (members_of r groups) ≡ true
    → together x y groups ≡ true
members_of-together r x y [] hx hy = cc
members_of-together r x y (g ∷ groups) hx hy = ground (arith, members_of-together r x y groups)
