-- ===== src/Retrieval/Hybrid.antt =====
-- `HybridRetriever` (crates/vault-retrieval/src/strategies/hybrid.rs): reciprocal rank fusion of two
-- retrievers. The arithmetic of `f32`, the printing of a score, the order in which a `HashSet` is
-- walked, and which of the two channels fails first where both fail, are parameters.
use agent_memory_vault.Base.{
  ℕ, suc, ◌+◌, min, max, Bool, Option, none, some, List, [], ◌∷◌, ◌++◌, map, ◌==◌, if◌then◌else◌,
  length,
}
use agent_memory_vault.Base.Table.{select}
use agent_memory_vault.Core.Text.{Text, codes}
use agent_memory_vault.Core.Float.{F32, f32_zero, f32_one}
use agent_memory_vault.Core.Error.{Result, ok, err, panicked, ◌>>=◌, ◌>>◌}
use agent_memory_vault.Core.Memory.{Memory, MemoryId}
use agent_memory_vault.Retrieval.Query.{
  RetrievalQuery, RetrievedMemory, Retriever, check_query, max_results_cap,
}
use agent_memory_vault.Retrieval.Ranking.{best}
use agent_memory_vault.Retrieval.Keyword.{memory_key}

pub record HybridConfig : Type 0 where
  pub top_n_each : ℕ
  pub rrf_k : ℕ

unfoldable pub default_config : HybridConfig
default_config = record { top_n_each = 200; rrf_k = 60 }

-- `usize as f32`, `+` and `/`; `rrf={:.4} (sem_rank={} · kw_rank={})`; the walk over the ids; and
-- whether the semantic channel is the first to fail.
pub record Fusion : Type 0 where
  pub of_nat : ℕ → F32
  pub plus : F32 → F32 → F32
  pub divide : F32 → F32 → F32
  pub print_fused : F32 → Option ℕ → Option ℕ → Text
  pub walk : List MemoryId → List MemoryId
  pub semantic_fails_first : Bool

abbrev pub Ranks : Type 0
Ranks = MemoryId → Option ℕ

-- `insert(m.memory.id, i + 1)` for the i-th result.
unfoldable pub rank_map : ℕ → List RetrievedMemory → Ranks → Ranks
rank_map i [] ranks = ranks
rank_map i (r ∷ rs) ranks =
    rank_map (suc i) rs (λ id. if r.memory.id == id then some (i + 1) else ranks id)

abbrev pub result_memory : RetrievedMemory → Memory
result_memory r = r.memory

-- `by_id.entry(id).or_insert_with(..)` over a list: the first memory of each id, which is also the
-- union of the ids.
unfoldable pub first_copies : List Memory → List Memory → List Memory
first_copies [] by_id = by_id
first_copies (m ∷ ms) by_id =
    first_copies ms
      (elim (select memory_key m.id by_id) [ none ↦ by_id ++ (m ∷ []) | some _ ↦ by_id ])

abbrev pub contribution : Fusion → ℕ → Option ℕ → F32
contribution F k none = f32_zero
contribution F k (some r) = F.divide f32_one (F.plus (F.of_nat k) (F.of_nat r))

-- A memory with its score and the explanation that it is emitted with.
unfoldable pub fused : Fusion → ℕ → Ranks → Ranks → Memory → RetrievedMemory
fused F k sem_rank kw_rank m =
    let rrf = F.plus (contribution F k (sem_rank m.id)) (contribution F k (kw_rank m.id)) in
    record {
      memory = m;
      score = rrf;
      explanation = codes "hybrid: rrf=" ++ F.print_fused rrf (sem_rank m.id) (kw_rank m.id);
    }

-- The loop over the ids.
unfoldable pub score_ids :
    Fusion → ℕ → Ranks → Ranks → List Memory → List MemoryId → List RetrievedMemory
unfolding fused
score_ids F k sem_rank kw_rank by_id [] = []
score_ids F k sem_rank kw_rank by_id (id ∷ ids) = elim (select memory_key id by_id) [
  | none ↦ score_ids F k sem_rank kw_rank by_id ids
  | some m ↦ fused F k sem_rank kw_rank m ∷ score_ids F k sem_rank kw_rank by_id ids
]

abbrev pub no_ranks : Ranks
no_ranks id = none

unfoldable pub fuse :
    Fusion → HybridConfig → ℕ → List RetrievedMemory → List RetrievedMemory → List RetrievedMemory
unfolding rank_map first_copies score_ids
fuse F config max_results sem_results kw_results =
    let by_id = first_copies (map result_memory sem_results ++ map result_memory kw_results) [] in
    best max_results (
      score_ids F config.rrf_k (rank_map 0 sem_results no_ranks) (rank_map 0 kw_results no_ranks)
        by_id (F.walk (map memory_key by_id)))

-- `try_join!`: both results, or the first failure.
unfoldable pub try_join {ℓ} : {A : Type ℓ} → Bool → Result A → Result A → Result (A × A)
try_join first (ok a) (ok b) = ok (a, b)
try_join first (ok a) (err e) = err e
try_join first (ok a) panicked = panicked
try_join first (err e) (ok b) = err e
try_join first (err e) (err e') = err (if first then e else e')
try_join first (err e) panicked = if first then err e else panicked
try_join first panicked (ok b) = panicked
try_join first panicked (err e) = if first then panicked else err e
try_join first panicked panicked = panicked

-- `clamp(1, MAX_RESULTS_CAP)`.
unfoldable pub widened : HybridConfig → RetrievalQuery → RetrievalQuery
widened config q = record q { max_results = min (max config.top_n_each 1) max_results_cap }

unfoldable pub retrieve : Fusion → HybridConfig → Retriever → Retriever → Retriever
unfolding fuse try_join widened
retrieve F config semantic keyword q =
    check_query q
    >> (if length q.authorized_boundaries == 0 then ok [] else do
      both ←
          try_join F.semantic_fails_first (semantic (widened config q)) (keyword (widened config q))
      ok (fuse F config q.max_results both.0 both.1))
