-- ===== src/Consolidate/Clusters/Active.antt =====
-- A cluster holds active memories of its boundary only.
use mathlib.Core.List.{Memᴰ}
use agent_memory_vault.Base.{
  ◌≡◌, refl, arith, Option, none, some, List, [], ◌∷◌, keep, Bool, true, false, not, All, All-map,
  All-kept, All-keep,
}
use agent_memory_vault.Base.Sort.{All-sort_by}
use agent_memory_vault.Core.Text.{Text, text_eq-eq}
use agent_memory_vault.Core.Memory.{Memory, MemoryId, Time, is_some}
use agent_memory_vault.Storage.Listing.{list_memories, in_boundary_since, matches, newest_first}
use agent_memory_vault.Consolidate.Clusters.{active_since}

-- A row of the boundary that is neither superseded nor archived, and that holds without end.
pub record IsActive (rows : List Memory) (boundary : Text) (m : Memory) : Type 0 where
  pub row : Memᴰ m rows
  pub boundary_eq : m.boundary ≡ boundary
  pub current : m.superseded_by ≡ none
  pub warm : m.archived_at ≡ none
  pub open_ended : m.valid_until ≡ none

-- The id of such a row.
abbrev pub IsActiveId : List Memory → Text → MemoryId → Type 0
IsActiveId rows boundary id = (m : Memory) × (m.id ≡ id) × IsActive rows boundary m

none_of {ℓ} : {A : Type ℓ} (o : Option A) → is_some o ≡ false → o ≡ none
none_of none h = refl
none_of (some a) h = cc

rows-Mem {ℓ} : {A : Type ℓ} (xs : List A) → All (λ x. Memᴰ x xs) xs
rows-Mem [] = tt
rows-Mem (x ∷ xs) = (
  Memᴰ.head refl,
  All-map (λ y. Memᴰ y xs) (λ y. Memᴰ y (x ∷ xs)) xs (λ y h. Memᴰ.tail h) (rows-Mem xs),
)

All-both {ℓ κ μ} :
    {A : Type ℓ} (P : A → Type κ) (Q : A → Type μ) (xs : List A)
    → All P xs
    → All Q xs
    → All (λ x. P x × Q x) xs
All-both P Q [] h k = tt
All-both P Q (x ∷ xs) h k = ((h.0, k.0), All-both P Q xs h.1 k.1)

-- The members of a filtered list have what all had, and pass the test.
pub All-filtered {ℓ κ} :
    {A : Type ℓ} (P : A → Type κ) (p : A → Bool) (xs : List A)
    → All P xs
    → All (λ x. P x × (p x ≡ true)) (keep p xs)
All-filtered P p xs h = All-both P (λ x. p x ≡ true) (keep p xs) (All-kept P p xs h) (All-keep p xs)

listed-IsActive :
    (rows : List Memory) (boundary : Text) (since : Option Time) (m : Memory)
    → Memᴰ m rows
    → matches (in_boundary_since boundary since) m ≡ true
    → is_some m.valid_until ≡ false
    → IsActive rows boundary m
unfolding matches
listed-IsActive rows boundary since m row h u = record {
  row = row;
  boundary_eq = text_eq-eq m.boundary boundary (ground (arith, h));
  current = none_of m.superseded_by (ground (arith, h));
  warm = none_of m.archived_at (ground (arith, h));
  open_ended = none_of m.valid_until u;
}

pub active_since-IsActive :
    (rows : List Memory) (boundary : Text) (since : Option Time)
    → All (IsActive rows boundary) (active_since rows boundary since)
unfolding active_since list_memories
active_since-IsActive rows boundary since =
    let f = in_boundary_since boundary since in
    let found =
      All-sort_by newest_first (λ m. Memᴰ m rows × (matches f m ≡ true)) (keep (matches f) rows)
        (All-filtered (λ m. Memᴰ m rows) (matches f) rows (rows-Mem rows)) in
    All-map (λ m. (Memᴰ m rows × (matches f m ≡ true)) × (not (is_some m.valid_until) ≡ true))
      (IsActive rows boundary) (active_since rows boundary since)
      (λ m h. listed-IsActive rows boundary since m h.0.0 h.0.1 (ground (arith, h.1)))
      (All-filtered (λ m. Memᴰ m rows × (matches f m ≡ true)) (λ m. not (is_some m.valid_until))
        (list_memories f none rows) found)
