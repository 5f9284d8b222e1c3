-- ===== src/App/Mcp.antt =====
-- The tool handlers `handle_write`, `handle_update` and `handle_delete` of `StdioServer`
-- (crates/vault-mcp/src/server.rs), over the adapter of the vault. The date parsers of chrono are
-- parameters.
pub mod Named
pub mod Gate
pub mod Update
use agent_memory_vault.Base.{
  ℕ, Bool, true, false, not, Option, none, some, List, if◌then◌else◌, any,
}
use agent_memory_vault.Core.Text.{Text, codes, text_eq}
use agent_memory_vault.Core.Trim.{trim}
use agent_memory_vault.Core.Json
use agent_memory_vault.Core.Float.{F32}
use agent_memory_vault.Core.Error.{
  Result, ok, err, panicked, ◌>>=◌, ◌>>◌, access_denied, invalid_input,
}
use agent_memory_vault.Core.Boundary
use agent_memory_vault.Core.Memory.{
  Memory, MemoryType, episodic, semantic, procedural, NewMemory, MemoryId, Time, try_new,
}
use agent_memory_vault.Storage.Backoff.{F64}
use agent_memory_vault.Storage.Audit.Chain.{Encoding}
use agent_memory_vault.Storage.Cascade.{Codec, Draws}
use agent_memory_vault.App.Adapter
use agent_memory_vault.App.Adapter.{KeywordWriter, World, Fresh, lookup_boundary}

pub record WriteToolParams : Type 0 where
  pub content : Text
  pub boundary : Text
  pub memory_type : Option Text
  pub source_agent : Option Text
  pub confidence : Option F32
  pub as_of : Option Text

-- `parse_from_rfc3339`, and `NaiveDate::parse_from_str` with the midnight of that date.
pub record Dates : Type 0 where
  pub rfc3339 : Text → Option Time
  pub date : Text → Option Time

unfoldable pub parse_as_of : Dates → Text → Result Time
unfolding trim
parse_as_of P s =
    let trimmed = trim s in
    elim (P.rfc3339 trimmed) [
      | some t ↦ ok t
      | none ↦ elim (P.date trimmed) [
        | some t ↦ ok t
        | none ↦ err (invalid_input (codes "as_of must be an ISO-8601 date"))
      ]
    ]

abbrev pub parse_valid_from : Dates → Option Text → Result (Option Time)
parse_valid_from P none = ok none
parse_valid_from P (some s) = parse_as_of P s >>= λ t. ok (some t)

-- The match on `params.memory_type`.
unfoldable pub parse_memory_type : Option Text → Result MemoryType
unfolding text_eq
parse_memory_type none = ok semantic
parse_memory_type (some s) =
    if text_eq s (codes "semantic")
    then ok semantic
    else if text_eq s (codes "episodic")
    then ok episodic
    else if text_eq s (codes "procedural")
    then ok procedural
    else err (invalid_input (codes "unknown memory_type"))

-- 0.9.
abbrev pub default_confidence : F32
default_confidence = 0x3f666666

abbrev pub confidence_or : Option F32 → F32
confidence_or none = default_confidence
confidence_or (some c) = c

abbrev pub new_memory : WriteToolParams → Text → MemoryType → Option Time → NewMemory
new_memory params boundary memory_type valid_from = record {
  content = params.content;
  memory_type = memory_type;
  boundary = boundary;
  source_agent = params.source_agent;
  confidence = confidence_or params.confidence;
  valid_from = valid_from;
  valid_until = none;
  metadata = Json.object Json.end;
}

-- `self.authorized_boundaries.contains(&boundary)`.
unfoldable pub is_authorized : List Text → Text → Bool
unfolding text_eq
is_authorized authorized b = any (λ a. text_eq a b) authorized

module _ (authorized : List Text) where
  -- The boundary that the request names, where the agent may use it.
  unfoldable pub named_boundary : WriteToolParams → Result Text
  unfolding Boundary.new is_authorized
  named_boundary params = elim (Boundary.new params.boundary) [
    | ok boundary ↦
        if not (is_authorized authorized boundary)
        then err (access_denied (codes "boundary not in authorized set"))
        else ok boundary
    | err _ ↦ err (invalid_input (codes "boundary:"))
    | panicked ↦ panicked
  ]

  -- `handle_write` up to the call of the adapter; `now` and `id` are of the validation only.
  unfoldable pub check_write : Dates → MemoryId → Time → WriteToolParams → Result NewMemory
  unfolding named_boundary parse_memory_type parse_as_of try_new
  check_write P id now params = do
    boundary ← named_boundary params
    memory_type ← parse_memory_type params.memory_type
    valid_from ← parse_valid_from P params.as_of
    let args = new_memory params boundary memory_type valid_from
    _ ← try_new id now args
    ok args

  -- `handle_update` up to the call of the adapter.
  unfoldable pub check_update : WriteToolParams → Result NewMemory
  unfolding named_boundary parse_memory_type
  check_update params = do
    boundary ← named_boundary params
    memory_type ← parse_memory_type params.memory_type
    ok (new_memory params boundary memory_type none)

module _ {ℓ} {I : Type ℓ} (F : F64) (E : Encoding) (K : Codec) (D : Draws) (N : KeywordWriter I)
    (authorized : List Text) where
  module _ (embed : Text → Result (List F32)) (dimension : ℕ) (fresh : Fresh) where
    unfoldable pub handle_write :
        Dates → MemoryId → Time → WriteToolParams → World I → Result MemoryId × World I
    unfolding check_write Adapter.write
    handle_write P id now params w = elim (check_write authorized P id now params) [
      | ok args ↦ Adapter.write F E K D N embed dimension fresh args w
      | err e ↦ (err e, w)
      | panicked ↦ (panicked, w)
    ]

    unfoldable pub handle_update :
        Draws → MemoryId → WriteToolParams → World I → Result (Unit {0}) × World I
    unfolding check_update Adapter.update
    handle_update R id params w = elim (check_update authorized params) [
      | ok args ↦ Adapter.update F E K D N embed dimension fresh R id args w
      | err e ↦ (err e, w)
      | panicked ↦ (panicked, w)
    ]

  -- `handle_delete` behind its lookup.
  unfoldable pub delete_found :
      MemoryId → Result (Option Text) × World I → Result (Unit {0}) × World I
  unfolding is_authorized Adapter.delete
  delete_found id (err e, w) = (err e, w)
  delete_found id (panicked, w) = (panicked, w)
  delete_found id (ok none, w) = (ok tt, w)
  delete_found id (ok (some stored), w) =
      if not (is_authorized authorized stored)
      then (err (access_denied (codes "memory stored in a boundary not in the authorized set")), w)
      else Adapter.delete F E K D N id w

  -- The lookup has draws of its own.
  unfoldable pub handle_delete : Draws → MemoryId → World I → Result (Unit {0}) × World I
  unfolding lookup_boundary delete_found
  handle_delete R id w = delete_found id (lookup_boundary F E R id w)
