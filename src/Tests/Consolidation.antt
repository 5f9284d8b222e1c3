-- ===== src/Tests/Consolidation.antt =====
-- The theorems on the consolidator's decisions at concrete inputs.
use agent_memory_vault.Base.{◌≡◌, refl, false, none, some, [], ◌∷◌, arith}
use agent_memory_vault.Core.Text.{codes}
use agent_memory_vault.Core.Json
use agent_memory_vault.Core.Memory.{Memory, semantic, days}
use agent_memory_vault.Consolidate.Stale.{resolve_stale_ids}
use agent_memory_vault.Consolidate.Stale.Survivor.{Resolved, resolve_stale_ids-Resolved}
use agent_memory_vault.Consolidate.Cold.{
  Decaying, plan_archive, plan_decay, last_decay_at, set_decay_marker,
}
use agent_memory_vault.Consolidate.Cold.Idempotent.{
  archive_planned, plan_archive-archive_planned, plan_decay-set_decay_marker,
}

resolve_stale_ids-Resolved_example :
    Resolved (3 ∷ 9 ∷ 3 ∷ []) (1 ∷ 3 ∷ []) (resolve_stale_ids (3 ∷ 9 ∷ 3 ∷ []) (1 ∷ 3 ∷ []))
resolve_stale_ids-Resolved_example =
    resolve_stale_ids-Resolved (3 ∷ 9 ∷ 3 ∷ []) (1 ∷ 3 ∷ []) (refl, (refl, tt))

abbrev fact : Memory
fact = record {
  id = 4;
  content = codes "tea";
  memory_type = semantic;
  source_agent = none;
  boundary = codes "work";
  created_at = 1;
  valid_from = 1;
  valid_until = none;
  confidence = 0x3f000000;
  access_count = 0;
  last_accessed = 1;
  superseded_by = none;
  archived_at = none;
  embedding = none;
  metadata = Json.null;
}

plan_archive-archive_planned_example :
    plan_archive
      (archive_planned (plan_archive (fact ∷ []) 2 (days 3)) (days 3) (fact ∷ []))
      2
      (days 3)
    ≡ []
plan_archive-archive_planned_example = plan_archive-archive_planned (fact ∷ []) 2 (days 3) (days 3)

-- Times as one code, and a product that changes the confidence.
abbrev decaying : Decaying
decaying = record {
  decayed = λ c. 0;
  negligible = λ a b. false;
  to_rfc3339 = λ t. t ∷ [];
  parse_from_rfc3339 = λ s. elim s [ [] ↦ none | t ∷ _ ↦ some t ];
}

plan_decay-set_decay_marker_example :
    (last_decay_at decaying (set_decay_marker decaying Json.null (days 5)) ≡ some (days 5))
    × (plan_decay decaying
          (record fact { confidence = 0; metadata = set_decay_marker decaying Json.null (days 5) }
            ∷ [])
          2
          (days 6)
        ≡ plan_decay decaying [] 2 (days 6))
plan_decay-set_decay_marker_example =
    plan_decay-set_decay_marker decaying (λ t. refl) fact [] 0 2 (days 6) (days 5) (omega arith)
