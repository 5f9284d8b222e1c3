-- ===== src/Retrieval/Ranking.antt =====
-- The order of results: the better score first, and of equal scores the newer memory. Rust's sort
-- is stable; where a score is not a number its order is not one, and Rust promises nothing.
use agent_memory_vault.Base.{Bool, true, false, List, leb, if◌then◌else◌, ℕ, take}
use agent_memory_vault.Base.Sort.{sort_by}
use agent_memory_vault.Core.Float.{F32, f32_lt}
use agent_memory_vault.Core.Memory.{Time}
use agent_memory_vault.Retrieval.Query.{RetrievedMemory}

-- `b.score.partial_cmp(&a.score).unwrap_or(Equal).then_with(|| b.created_at.cmp(&a.created_at))` is
-- not `Greater`.
unfoldable pub not_after : F32 → Time → F32 → Time → Bool
not_after a at b bt = if f32_lt a b then false else if f32_lt b a then true else leb bt at

abbrev pub ranks_before : RetrievedMemory → RetrievedMemory → Bool
ranks_before a b = not_after a.score a.memory.created_at b.score b.memory.created_at

-- The sort and the `truncate` that end each strategy.
abbrev pub best : ℕ → List RetrievedMemory → List RetrievedMemory
best n results = take n (sort_by ranks_before results)
