-- ===== src/Consolidate/Stale.antt =====
-- `resolve_stale_ids` (crates/vault-consolidator/src/consolidator.rs): which memories a contradiction
-- verdict may retire. A `HashSet` is the list of its members, which are distinct.
pub mod Survivor
use agent_memory_vault.Base.{
  ℕ, Bool, true, false, not, ◌&&◌, List, [], ◌∷◌, ◌++◌, leb, ◌==◌, if◌then◌else◌, length, any,
}
use agent_memory_vault.Core.Memory.{MemoryId}

pub data StaleResolution : Type 0 where
  nothing : StaleResolution
  invalidate : List MemoryId → StaleResolution
  -- in_group, group
  refused_mass_invalidate : ℕ → ℕ → StaleResolution

-- `contains` of a set and of a vector.
abbrev pub member : MemoryId → List MemoryId → Bool
member id ids = any (λ x. x == id) ids

-- The loop over the verdict's ids.
unfoldable pub collect : List MemoryId → List MemoryId → List MemoryId → List MemoryId
collect [] group in_group = in_group
collect (id ∷ ids) group in_group =
    collect ids group
      (if member id group && not (member id in_group) then in_group ++ (id ∷ []) else in_group)

unfoldable pub resolve_stale_ids : List MemoryId → List MemoryId → StaleResolution
unfolding collect
resolve_stale_ids verdict_ids group_ids =
    let in_group = collect verdict_ids group_ids [] in
    if length in_group == 0
    then nothing
    else if leb (length group_ids) (length in_group)
    then refused_mass_invalidate (length in_group) (length group_ids)
    else invalidate in_group
