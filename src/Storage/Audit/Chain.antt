-- ===== src/Storage/Audit/Chain.antt =====
-- The hash chain (crates/vault-storage/src/audit.rs) and the append to it (`tx_append_audit` of
-- crates/vault-storage/src/metadata_store.rs). BLAKE3, serde_json and the printing of ids and times
-- are parameters.
use agent_memory_vault.Base.{ℕ, suc, Option, [], ◌∷◌, ◌++◌, ◌==◌, if◌then◌else◌, any, not}
use agent_memory_vault.Core.Text.{Text, codes, text_eq}
use agent_memory_vault.Core.Error.{Result, ok, err, storage}
use agent_memory_vault.Core.Memory.{Time}
use agent_memory_vault.Storage.Audit.{
  AuditEventType, ActorKind, AuditResult, event_type_str, actor_kind_str, result_str,
  PendingAuditEvent, AuditEvent, Log, audit_genesis_hash,
}

pub record CanonicalBody : Type 0 where
  pub event_id : Text
  pub timestamp : Text
  pub user_id : Option Text
  pub device_id : Option Text
  pub event_type : Text
  pub resource_type : Option Text
  pub resource_id : Option Text
  pub boundary : Option Text
  pub actor_kind : Text
  pub actor_name : Option Text
  pub result : Text
  pub details_json : Text

pub record Encoding : Type 0 where
  -- `serde_json::to_vec`
  pub to_json : CanonicalBody → Text
  -- The BLAKE3 hash of some bytes, in hexadecimal digits.
  pub blake3_hex : Text → Text
  -- `Uuid::hyphenated`
  pub uuid_text : ℕ → Text
  -- `DateTime::to_rfc3339`
  pub rfc3339 : Time → Text

-- `SELECT event_hash FROM audit_log ORDER BY seq DESC LIMIT 1`, or what is given where there is
-- no row.
abbrev pub tip_from : Text → Log → Text
tip_from prev [] = prev
tip_from prev (e ∷ log) = tip_from e.event_hash log

-- The `seq` that AUTOINCREMENT gives the next row of a table from which no row is deleted.
abbrev pub next_seq_from : ℕ → Log → ℕ
next_seq_from last [] = suc last
next_seq_from last (e ∷ log) = next_seq_from e.seq log

module _ (E : Encoding) where
  unfoldable pub canonical_bytes :
      ℕ
      → Time
      → Option Text
      → Option Text
      → AuditEventType
      → Option Text
      → Option Text
      → Option Text
      → ActorKind
      → Option Text
      → AuditResult
      → Text
      → Text
  canonical_bytes event_id timestamp user_id device_id event_type resource_type resource_id boundary
        actor_kind actor_name result details_json =
      E.to_json (record {
        event_id = E.uuid_text event_id;
        timestamp = E.rfc3339 timestamp;
        user_id = user_id;
        device_id = device_id;
        event_type = event_type_str event_type;
        resource_type = resource_type;
        resource_id = resource_id;
        boundary = boundary;
        actor_kind = actor_kind_str actor_kind;
        actor_name = actor_name;
        result = result_str result;
        details_json = details_json;
      })

  unfoldable pub compute_event_hash : Text → Text → Text
  compute_event_hash prev_hash_hex canonical = E.blake3_hex (prev_hash_hex ++ canonical)

  unfoldable pub seal : ℕ → Time → Text → PendingAuditEvent → Text × Text
  seal event_id timestamp prev_hash_hex p =
      let canonical =
        canonical_bytes event_id timestamp p.user_id p.device_id p.event_type p.resource_type
          p.resource_id p.boundary p.actor_kind p.actor_name p.result p.details_json in
      (canonical, compute_event_hash prev_hash_hex canonical)

  -- The row that is inserted; `event_id` and `timestamp` are those of the caller's clock.
  unfoldable pub new_event : ℕ → Time → PendingAuditEvent → Log → AuditEvent
  new_event event_id timestamp p log =
      let prev_hash = tip_from audit_genesis_hash log in
      record {
        seq = next_seq_from 0 log;
        event_id = event_id;
        timestamp = timestamp;
        user_id = p.user_id;
        device_id = p.device_id;
        event_type = p.event_type;
        resource_type = p.resource_type;
        resource_id = p.resource_id;
        boundary = p.boundary;
        actor_kind = p.actor_kind;
        actor_name = p.actor_name;
        result = p.result;
        details_json = p.details_json;
        prev_event_hash = prev_hash;
        event_hash = (seal event_id timestamp prev_hash p).1;
      }

  -- The unique column `event_id` refuses a row.
  unfoldable pub tx_append_audit : ℕ → Time → PendingAuditEvent → Log → Result (AuditEvent × Log)
  unfolding new_event
  tx_append_audit event_id timestamp p log =
      if any (λ e. e.event_id == event_id) log
      then err (storage (codes "insert audit event"))
      else let event = new_event event_id timestamp p log in ok (event, log ++ (event ∷ []))

  -- The canonical bytes of a stored event.
  unfoldable pub canonical_of : AuditEvent → Text
  canonical_of e =
      canonical_bytes e.event_id e.timestamp e.user_id e.device_id e.event_type e.resource_type
        e.resource_id e.boundary e.actor_kind e.actor_name e.result e.details_json

  -- The loop of `verify_chain`, from the hash that the next event has to name.
  unfoldable pub verify_from : Text → Log → Result (Unit {0})
  unfolding canonical_of compute_event_hash
  verify_from prev [] = ok tt
  verify_from prev (e ∷ log) =
      let rest = verify_from e.event_hash log in
      if not (text_eq e.prev_event_hash prev)
      then err (storage (codes "audit chain broken"))
      else if not (text_eq (compute_event_hash prev (canonical_of e)) e.event_hash)
      then err (storage (codes "audit event hash mismatch"))
      else rest

  unfoldable pub verify_chain : Log → Result (Unit {0})
  unfolding verify_from
  verify_chain log = verify_from audit_genesis_hash log
