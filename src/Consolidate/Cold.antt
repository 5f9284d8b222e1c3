-- ===== src/Consolidate/Cold.antt =====
-- Which memories the consolidator archives and which it decays
-- (crates/vault-consolidator/src/phases/archive.rs and decay.rs). The product by 0.9 and the test
-- against f32::EPSILON, and chrono's RFC 3339 texts, are parameters.
pub mod Idempotent
use agent_memory_vault.Base.{
  ℕ, ◌+◌, Bool, true, false, not, ◌||◌, Option, none, some, List, [], ◌∷◌, ltb, leb, if◌then◌else◌,
}
use agent_memory_vault.Core.Text.{Text, codes}
use agent_memory_vault.Core.Float.{F32}
use agent_memory_vault.Core.Json
use agent_memory_vault.Core.Json.{Value, Fields}
use agent_memory_vault.Core.Memory.{
  Memory, MemoryId, Time, days, is_some, is_archived, is_superseded, until_passed,
}

-- `now.signed_duration_since(then) < threshold`, in numbers that do not go below 0.
abbrev pub within : Time → Time → ℕ → Bool
within now then_ threshold = ltb now (then_ + threshold)

pub record PlannedArchive : Type 0 where
  pub id : MemoryId
  pub idle_since : Time

-- The four guards of the loop, by which a memory is skipped.
unfoldable pub keeps_warm : ℕ → Time → Memory → Bool
keeps_warm archive_after_days now m =
    is_some m.archived_at
    || (is_some m.superseded_by
        || (until_passed m.valid_until now || within now m.last_accessed (days archive_after_days)))

unfoldable pub plan_archive : List Memory → ℕ → Time → List PlannedArchive
unfolding keeps_warm
plan_archive [] archive_after_days now = []
plan_archive (m ∷ ms) archive_after_days now =
    let rest = plan_archive ms archive_after_days now in
    if keeps_warm archive_after_days now m
    then rest
    else record { id = m.id; idle_since = m.last_accessed } ∷ rest

pub record PlannedDecay : Type 0 where
  pub id : MemoryId
  pub old_confidence : F32
  pub new_confidence : F32

-- What `plan_decay` and the marker use of f32 and of chrono.
pub record Decaying : Type 0 where
  -- `c * DECAY_FACTOR`
  pub decayed : F32 → F32
  -- `(a - b).abs() < f32::EPSILON`
  pub negligible : F32 → F32 → Bool
  pub to_rfc3339 : Time → Text
  pub parse_from_rfc3339 : Text → Option Time

abbrev pub as_str : Option Value → Option Text
as_str (some (Json.string s)) = some s
as_str _ = none

abbrev pub and_get : Text → Option Value → Option Value
and_get key none = none
and_get key (some v) = Json.get key v

-- `{}` in place of what is no object.
abbrev pub fields_of : Value → Fields
fields_of (Json.object fs) = fs
fields_of _ = Json.end

module _ (C : Decaying) where
  abbrev pub parsed : Option Text → Option Time
  parsed none = none
  parsed (some s) = C.parse_from_rfc3339 s

  unfoldable pub last_decay_at : Value → Option Time
  last_decay_at metadata =
      parsed (as_str (and_get (codes "last_decay_at") (Json.get (codes "decay") metadata)))

  unfoldable pub set_decay_marker : Value → Time → Value
  set_decay_marker metadata decayed_at = Json.object (
      Json.set_field (codes "decay")
        (Json.object
          (Json.field (codes "last_decay_at") (Json.string (C.to_rfc3339 decayed_at)) Json.end))
        (fields_of metadata))

  abbrev pub decayed_within : Time → Option Time → ℕ → Bool
  decayed_within now none threshold = false
  decayed_within now (some last) threshold = within now last threshold

  -- The guards of the loop, by which a memory is skipped.
  unfoldable pub skips_decay : ℕ → Time → Memory → Bool
  unfolding last_decay_at
  skips_decay decay_after_days now m =
      let threshold = days decay_after_days in
      is_some m.superseded_by
      || (until_passed m.valid_until now
          || (within now m.last_accessed threshold
              || (decayed_within now (last_decay_at m.metadata) threshold
                  || C.negligible m.confidence (C.decayed m.confidence))))

  unfoldable pub plan_decay : List Memory → ℕ → Time → List PlannedDecay
  unfolding skips_decay
  plan_decay [] decay_after_days now = []
  plan_decay (m ∷ ms) decay_after_days now =
      let rest = plan_decay ms decay_after_days now in
      if skips_decay decay_after_days now m
      then rest
      else record {
        id = m.id;
        old_confidence = m.confidence;
        new_confidence = C.decayed m.confidence;
      }
        ∷ rest
