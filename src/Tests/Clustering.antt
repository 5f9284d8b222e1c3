-- ===== src/Tests/Clustering.antt =====
-- The theorems on clusters and duplicates at concrete inputs.
use agent_memory_vault.Base.{◌≡◌, some, [], ◌∷◌, List}
use agent_memory_vault.Core.Text.{codes}
use agent_memory_vault.Core.Float.{f32_one}
use agent_memory_vault.Core.Error.{ok}
use agent_memory_vault.Consolidate.Clusters.UnionFind.{Group, union_find_components}
use agent_memory_vault.Consolidate.Clusters.Partition.{Partition, union_find_components-Partition}
use agent_memory_vault.Consolidate.Clusters.{Searching, find_candidate_clusters}
use agent_memory_vault.Consolidate.Clusters.Found.{Found, find_candidate_clusters-Found}
use agent_memory_vault.Consolidate.Dedup.{DedupPlan, Wording, dedup_plan}
use agent_memory_vault.Tests.Samples.{memory}

union_find_components-Partition_example :
    (groups : List Group) × (union_find_components (4 ∷ 1 ∷ 2 ∷ 3 ∷ []) ((3, 4) ∷ (1, 3) ∷ [])
      ≡ some groups)
    × Partition (4 ∷ 1 ∷ 2 ∷ 3 ∷ []) ((3, 4) ∷ (1, 3) ∷ []) groups
union_find_components-Partition_example =
    union_find_components-Partition (4 ∷ 1 ∷ 2 ∷ 3 ∷ []) ((3, 4) ∷ (1, 3) ∷ [])

-- Every search finds the memories 4, 5 and 6.
abbrev searching : Searching
searching = record {
  embed = λ t. ok t;
  search = λ e n bs. ok ((4, 0) ∷ (5, 0) ∷ (6, f32_one) ∷ []);
  minus = λ a b. 0;
}

find_candidate_clusters-Found_example :
    Found
      (memory 4 ∷ memory 5 ∷ [])
      (codes "work")
      f32_one
      (find_candidate_clusters searching (memory 4 ∷ memory 5 ∷ []) (codes "work") f32_one (some 1))
find_candidate_clusters-Found_example =
    find_candidate_clusters-Found searching (memory 4 ∷ memory 5 ∷ []) (codes "work") f32_one
      (some 1) (λ t p. cc) (λ e n bs p. cc)

-- Every text is its one word, and every product is one.
abbrev wording : Wording
wording = record {
  token_sequence = λ s. s ∷ [];
  times = λ a b. f32_one;
  plus = λ a b. f32_one;
  divide = λ a b. f32_one;
  of_nat = λ n. n;
}

abbrev plan : DedupPlan
plan = dedup_plan (memory 5) (memory 4 ∷ [])
