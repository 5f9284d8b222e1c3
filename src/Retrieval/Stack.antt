-- ===== src/Retrieval/Stack.antt =====
-- The retriever of `memory_search`, as crates/vault-app/src/application.rs wires it.
use agent_memory_vault.Base.{Option, none, some, List}
use agent_memory_vault.Core.Memory.{Memory, Time}
use agent_memory_vault.Retrieval.Query.{Retriever}
use agent_memory_vault.Retrieval.Graph
use agent_memory_vault.Retrieval.Graph.{Graph}
use agent_memory_vault.Retrieval.Keyword
use agent_memory_vault.Retrieval.Keyword.{Index}
use agent_memory_vault.Retrieval.Semantic
use agent_memory_vault.Retrieval.Semantic.{Vectors}
use agent_memory_vault.Retrieval.Hybrid
use agent_memory_vault.Retrieval.Hybrid.{Fusion, default_config}
use agent_memory_vault.Retrieval.Reranked
use agent_memory_vault.Retrieval.Reranked.{Reranker}

-- Step 7: the fusion of the semantic and the keyword channel.
unfoldable pub hybrid : Fusion → Vectors → Index → List Memory → Time → Retriever
hybrid F V I rows now =
    Hybrid.retrieve F default_config (Semantic.retrieve V rows now) (Keyword.retrieve I rows now)

-- The graph channel, where it is enabled.
abbrev pub graph_channel : Option Graph → List Memory → Option Retriever
graph_channel none rows = none
graph_channel (some G) rows = some (Graph.retrieve G rows)

-- Step 8: reranked where a reranker is configured, with the graph channel.
unfoldable pub memory_search :
    Fusion → Vectors → Index → Option Reranker → Option Graph → List Memory → Time → Retriever
unfolding hybrid Graph.retrieve
memory_search F V I none G rows now = hybrid F V I rows now
memory_search F V I (some R) G rows now =
    Reranked.retrieve R (hybrid F V I rows now) (some (Semantic.retrieve V rows now))
      (graph_channel G rows)
