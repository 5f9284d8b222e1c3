-- ===== src/Retrieval/Query.antt =====
-- The contract of a retriever (crates/vault-retrieval/src/retriever.rs): queries, results, and the
-- validation that the strategies share.
use agent_memory_vault.Base.{ℕ, Bool, ◌||◌, Option, List, ltb, ◌==◌, length, any}
use agent_memory_vault.Core.Text.{Text, codes, text_eq}
use agent_memory_vault.Core.Trim.{trim}
use agent_memory_vault.Core.Float.{F32}
use agent_memory_vault.Core.Error.{Result, ◌>>◌}
use agent_memory_vault.Core.Memory.{Memory, reject_if}

abbrev pub max_results_cap : ℕ
max_results_cap = 200

abbrev pub max_query_bytes : ℕ
max_query_bytes = 2_048

pub record RetrievalOptions : Type 0 where
  pub score_threshold : Option F32
  pub include_archived : Bool

pub record RetrievalQuery : Type 0 where
  pub query_text : Text
  pub authorized_boundaries : List Text
  pub max_results : ℕ
  pub options : RetrievalOptions

pub record RetrievedMemory : Type 0 where
  pub memory : Memory
  pub score : F32
  pub explanation : Text

-- `Retriever::retrieve`.
abbrev pub Retriever : Type 0
Retriever = RetrievalQuery → Result (List RetrievedMemory)

-- The checks of the keyword, the hybrid and the abstaining retriever.
unfoldable pub check_query : RetrievalQuery → Result (Unit {0})
check_query q = do
  reject_if (length (trim q.query_text) == 0) (codes "query_text must be non-empty after trim")
  reject_if (ltb max_query_bytes (length q.query_text)) (codes "query_text exceeds MAX_QUERY_BYTES")
  reject_if (q.max_results == 0 || ltb max_results_cap q.max_results)
      (codes "max_results must be in 1..=MAX_RESULTS_CAP")

abbrev pub is_authorized : RetrievalQuery → Memory → Bool
is_authorized q m = any (λ b. text_eq b m.boundary) q.authorized_boundaries
