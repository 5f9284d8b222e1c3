-- ===== src/Storage/Audit/Names.antt =====
-- The wire names of the audit enums are read back as what they name.
use agent_memory_vault.Base.{◌≡◌, refl, some}
use agent_memory_vault.Core.Text.{text_eq}
use agent_memory_vault.Storage.Audit.{
  AuditEventType, ActorKind, AuditResult, event_type_str, event_type_parse, actor_kind_str,
  actor_kind_parse, result_str, result_parse, memory_create, memory_read, memory_update,
  memory_delete, memory_list, schema_migration, cascade_dead_letter, store_corruption,
  cascade_queue_overflow, mcp_tool_invoke, tauri_command_invoke, memory_superseded,
  memory_invalidated, memory_deduped, memory_decayed, memory_archived, user, agent, system, success,
  denied, error,
}

pub event_type_parse-event_type_str :
    (x : AuditEventType) → event_type_parse (event_type_str x) ≡ some x
unfolding event_type_parse event_type_str text_eq
event_type_parse-event_type_str memory_create = refl
event_type_parse-event_type_str memory_read = refl
event_type_parse-event_type_str memory_update = refl
event_type_parse-event_type_str memory_delete = refl
event_type_parse-event_type_str memory_list = refl
event_type_parse-event_type_str schema_migration = refl
event_type_parse-event_type_str cascade_dead_letter = refl
event_type_parse-event_type_str store_corruption = refl
event_type_parse-event_type_str cascade_queue_overflow = refl
event_type_parse-event_type_str mcp_tool_invoke = refl
event_type_parse-event_type_str tauri_command_invoke = refl
event_type_parse-event_type_str memory_superseded = refl
event_type_parse-event_type_str memory_invalidated = refl
event_type_parse-event_type_str memory_deduped = refl
event_type_parse-event_type_str memory_decayed = refl
event_type_parse-event_type_str memory_archived = refl

pub actor_kind_parse-actor_kind_str : (x : ActorKind) → actor_kind_parse (actor_kind_str x) ≡ some x
unfolding actor_kind_parse actor_kind_str text_eq
actor_kind_parse-actor_kind_str user = refl
actor_kind_parse-actor_kind_str agent = refl
actor_kind_parse-actor_kind_str system = refl

pub result_parse-result_str : (x : AuditResult) → result_parse (result_str x) ≡ some x
unfolding result_parse result_str text_eq
result_parse-result_str success = refl
result_parse-result_str denied = refl
result_parse-result_str error = refl

-- Each of the three `parse` functions reads every name that its `as_str` writes.
pub parse-as_str :
    (t : AuditEventType) (k : ActorKind) (r : AuditResult)
    → (event_type_parse (event_type_str t) ≡ some t)
      × (actor_kind_parse (actor_kind_str k) ≡ some k)
      × (result_parse (result_str r) ≡ some r)
parse-as_str t k r = (
  event_type_parse-event_type_str t,
  actor_kind_parse-actor_kind_str k,
  result_parse-result_str r,
)
