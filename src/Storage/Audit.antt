-- ===== src/Storage/Audit.antt =====
-- Audit events (crates/vault-storage/src/audit.rs): the kinds of events, their wire names, and the
-- builder of an event.
pub mod Chain
pub mod Tamper
pub mod Names
use agent_memory_vault.Base.{ℕ, Bool, true, false, Option, none, some, List, [], ◌∷◌, if◌then◌else◌}
use agent_memory_vault.Core.Text.{Text, codes, text_eq}
use agent_memory_vault.Core.Memory.{Time}

abbrev pub audit_genesis_hash : Text
audit_genesis_hash = codes "0000000000000000000000000000000000000000000000000000000000000000"

pub data AuditEventType : Type 0 where
  memory_create memory_read memory_update memory_delete memory_list schema_migration
        cascade_dead_letter store_corruption cascade_queue_overflow mcp_tool_invoke
        tauri_command_invoke memory_superseded memory_invalidated memory_deduped memory_decayed
        memory_archived :
      AuditEventType

unfoldable pub event_type_str : AuditEventType → Text
event_type_str memory_create = codes "memory.create"
event_type_str memory_read = codes "memory.read"
event_type_str memory_update = codes "memory.update"
event_type_str memory_delete = codes "memory.delete"
event_type_str memory_list = codes "memory.list"
event_type_str schema_migration = codes "schema.migration"
event_type_str cascade_dead_letter = codes "cascade.dead_letter"
event_type_str store_corruption = codes "store.corruption"
event_type_str cascade_queue_overflow = codes "cascade.queue_overflow"
event_type_str mcp_tool_invoke = codes "mcp.tool_invoke"
event_type_str tauri_command_invoke = codes "ui.tauri_command_invoke"
event_type_str memory_superseded = codes "memory.superseded"
event_type_str memory_invalidated = codes "memory.invalidated"
event_type_str memory_deduped = codes "memory.deduped"
event_type_str memory_decayed = codes "memory.decayed"
event_type_str memory_archived = codes "memory.archived"

unfoldable pub event_type_parse : Text → Option AuditEventType
event_type_parse s =
    if text_eq s (codes "memory.create")
    then some memory_create
    else if text_eq s (codes "memory.read")
    then some memory_read
    else if text_eq s (codes "memory.update")
    then some memory_update
    else if text_eq s (codes "memory.delete")
    then some memory_delete
    else if text_eq s (codes "memory.list")
    then some memory_list
    else if text_eq s (codes "schema.migration")
    then some schema_migration
    else if text_eq s (codes "cascade.dead_letter")
    then some cascade_dead_letter
    else if text_eq s (codes "store.corruption")
    then some store_corruption
    else if text_eq s (codes "cascade.queue_overflow")
    then some cascade_queue_overflow
    else if text_eq s (codes "mcp.tool_invoke")
    then some mcp_tool_invoke
    else if text_eq s (codes "ui.tauri_command_invoke")
    then some tauri_command_invoke
    else if text_eq s (codes "memory.superseded")
    then some memory_superseded
    else if text_eq s (codes "memory.invalidated")
    then some memory_invalidated
    else if text_eq s (codes "memory.deduped")
    then some memory_deduped
    else if text_eq s (codes "memory.decayed")
    then some memory_decayed
    else if text_eq s (codes "memory.archived")
    then some memory_archived
    else none

pub data ActorKind : Type 0 where
  user agent system : ActorKind

unfoldable pub actor_kind_str : ActorKind → Text
actor_kind_str user = codes "user"
actor_kind_str agent = codes "agent"
actor_kind_str system = codes "system"

unfoldable pub actor_kind_parse : Text → Option ActorKind
actor_kind_parse s =
    if text_eq s (codes "user")
    then some user
    else if text_eq s (codes "agent")
    then some agent
    else if text_eq s (codes "system")
    then some system
    else none

pub data AuditResult : Type 0 where
  success denied error : AuditResult

unfoldable pub result_str : AuditResult → Text
result_str success = codes "success"
result_str denied = codes "denied"
result_str error = codes "error"

unfoldable pub result_parse : Text → Option AuditResult
result_parse s =
    if text_eq s (codes "success")
    then some success
    else if text_eq s (codes "denied")
    then some denied
    else if text_eq s (codes "error")
    then some error
    else none

pub record PendingAuditEvent : Type 0 where
  pub event_type : AuditEventType
  pub resource_type : Option Text
  pub resource_id : Option Text
  pub boundary : Option Text
  pub actor_kind : ActorKind
  pub actor_name : Option Text
  pub user_id : Option Text
  pub device_id : Option Text
  pub result : AuditResult
  pub details_json : Text

-- `PendingAuditEvent::success`.
abbrev pub successful : AuditEventType → ActorKind → PendingAuditEvent
successful event_type actor_kind = record {
  event_type = event_type;
  resource_type = none;
  resource_id = none;
  boundary = none;
  actor_kind = actor_kind;
  actor_name = none;
  user_id = none;
  device_id = none;
  result = success;
  details_json = codes "{}";
}

abbrev pub with_resource : Text → Text → PendingAuditEvent → PendingAuditEvent
with_resource kind id p = record p { resource_type = some kind; resource_id = some id }

abbrev pub with_boundary : Text → PendingAuditEvent → PendingAuditEvent
with_boundary boundary p = record p { boundary = some boundary }

-- `PendingAuditEvent::error`.
abbrev pub failed : PendingAuditEvent → PendingAuditEvent
failed p = record p { result = error }

abbrev pub with_details_json : Text → PendingAuditEvent → PendingAuditEvent
with_details_json json p = record p { details_json = json }

pub record AuditEvent : Type 0 where
  pub seq : ℕ
  pub event_id : ℕ
  pub timestamp : Time
  pub user_id : Option Text
  pub device_id : Option Text
  pub event_type : AuditEventType
  pub resource_type : Option Text
  pub resource_id : Option Text
  pub boundary : Option Text
  pub actor_kind : ActorKind
  pub actor_name : Option Text
  pub result : AuditResult
  pub details_json : Text
  pub prev_event_hash : Text
  pub event_hash : Text

-- The rows of `audit_log`, by ascending `seq`.
abbrev pub Log : Type 0
Log = List AuditEvent
