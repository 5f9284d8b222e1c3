-- ===== src/Consolidate/Dedup/Best.antt =====
-- The plan keeps the best memory and supersedes every other.
use mathlib.Core.List.Perm
use mathlib.Core.List.{Perm}
use agent_memory_vault.Base.{ℕ, ◌≤◌, ◌≡◌, List, ◌∷◌, map, All, ◌⊎◌}
use agent_memory_vault.Core.Memory.{Memory}
use agent_memory_vault.Consolidate.Dedup.{DedupPlan, ids_except}
use agent_memory_vault.Consolidate.Dedup.Criteria.{id_of, IsAsGood}

-- The chosen memory stands at the chosen place.
abbrev Placed : ℕ → Memory → ℕ → List Memory → ℕ × Memory → Type 0
Placed best m i rest r =
    ((r.0 ≡ best) × (r.1 ≡ m))
    ⊎ ((i ≤ r.0) × Perm (r.1.id ∷ ids_except r.0 i rest) (map id_of rest))

-- What a plan promises for the memories of a cluster.
pub record Planned (members : List Memory) (plan : DedupPlan) : Type 0 where
  pub kept : Memory
  pub survivor : plan.survivor ≡ kept.id
  pub best : All (λ x. IsAsGood x kept) members
  pub partition : Perm (plan.survivor ∷ plan.superseded) (map id_of members)
