-- ===== src/Consolidate/Cold/Idempotent.antt =====
-- A second run right after the first plans nothing that the first has done.
use agent_memory_vault.Base.{
  ℕ, ◌+◌, ◌<◌, ◌≡◌, refl, sym, ap, ◌∙◌, subst, inl, inr, Bool, true, false, ◌||◌, some, List, [],
  ◌∷◌, arith, ◌==◌, if◌then◌else◌, map, any, All, Bool-cases, lt→ltb,
}
use agent_memory_vault.Core.Text.{codes, text_eq}
use agent_memory_vault.Core.Float.{F32}
use agent_memory_vault.Core.Json
use agent_memory_vault.Core.Json.{Value, Fields}
use agent_memory_vault.Core.Memory.{Memory, Time, days, is_some, until_passed}
use agent_memory_vault.Consolidate.Cold.{
  PlannedArchive, keeps_warm, plan_archive, Decaying, last_decay_at, set_decay_marker, skips_decay,
  plan_decay, within, fields_of, parsed, as_str, and_get,
}

-- `apply_archive` of the memories that a plan names.
pub archive_planned : List PlannedArchive → Time → List Memory → List Memory
archive_planned plan at ms =
    map (λ m. if any (λ p. p.id == m.id) plan then record m { archived_at = some at } else m) ms

abbrev archived_by : List PlannedArchive → Time → Memory → Memory
archived_by plan at m =
    if any (λ p. p.id == m.id) plan then record m { archived_at = some at } else m

-- All of these memories that are not warm are in the plan.
abbrev Planned : ℕ → Time → List PlannedArchive → List Memory → Type 0
Planned n now plan ms = All (λ m. (keeps_warm n now m || any (λ p. p.id == m.id) plan) ≡ true) ms

Planned-more :
    (n : ℕ) (now : Time) (p : PlannedArchive) (plan : List PlannedArchive) (ms : List Memory)
    → Planned n now plan ms
    → Planned n now (p ∷ plan) ms
Planned-more n now p plan [] h = tt
Planned-more n now p plan (m ∷ ms) h = (ground (arith, h.0), Planned-more n now p plan ms h.1)

plan_warm :
    (n : ℕ) (now : Time) (m : Memory) (ms : List Memory)
    → keeps_warm n now m ≡ true
    → plan_archive (m ∷ ms) n now ≡ plan_archive ms n now
unfolding plan_archive
plan_warm n now m ms h = rw h refl

plan_cold :
    (n : ℕ) (now : Time) (m : Memory) (ms : List Memory)
    → keeps_warm n now m ≡ false
    → plan_archive (m ∷ ms) n now
      ≡ record { id = m.id; idle_since = m.last_accessed } ∷ plan_archive ms n now
unfolding plan_archive
plan_cold n now m ms h = rw h refl

plan_archive-Planned :
    (n : ℕ) (now : Time) (ms : List Memory) → Planned n now (plan_archive ms n now) ms
plan_archive-Planned n now [] = tt
plan_archive-Planned n now (m ∷ ms) =
    let later = plan_archive-Planned n now ms in
    elim (Bool-cases (keeps_warm n now m)) [
      | inl warm ↦
          subst (λ plan. Planned n now plan (m ∷ ms)) (sym (plan_warm n now m ms warm))
            (ground arith, later)
      | inr cold ↦
          subst (λ plan. Planned n now plan (m ∷ ms)) (sym (plan_cold n now m ms cold))
            (
              ground arith,
              Planned-more n now (record { id = m.id; idle_since = m.last_accessed })
                  (plan_archive ms n now) ms later,
            )
    ]

archived_warm :
    (n : ℕ) (now at : Time) (m : Memory)
    → keeps_warm n now (record m { archived_at = some at }) ≡ true
unfolding keeps_warm
archived_warm n now at m = refl

archived_by_warm :
    (n : ℕ) (now at : Time) (plan : List PlannedArchive) (m : Memory)
    → (keeps_warm n now m || any (λ p. p.id == m.id) plan) ≡ true
    → keeps_warm n now (archived_by plan at m) ≡ true
archived_by_warm n now at plan m h = elim (Bool-cases (any (λ p. p.id == m.id) plan)) [
  | inl named ↦ rw (named, if◌then◌else◌) (archived_warm n now at m)
  | inr other ↦ rw (other, if◌then◌else◌) (ground arith)
]

nothing_left :
    (n : ℕ) (now at : Time) (plan : List PlannedArchive) (ms : List Memory)
    → Planned n now plan ms
    → plan_archive (archive_planned plan at ms) n now ≡ []
unfolding archive_planned
nothing_left n now at plan [] h = unfold plan_archive in refl
nothing_left n now at plan (m ∷ ms) h =
    plan_warm n now (archived_by plan at m) (archive_planned plan at ms)
      (archived_by_warm n now at plan m h.0)
    ∙ nothing_left n now at plan ms h.1

-- Where the memories of a plan have been archived, a second plan at the same time is empty.
pub plan_archive-archive_planned :
    (ms : List Memory) (archive_after_days : ℕ) (now at : Time)
    → plan_archive
        (archive_planned (plan_archive ms archive_after_days now) at ms)
        archive_after_days
        now
      ≡ []
plan_archive-archive_planned ms n now at =
    nothing_left n now at (plan_archive ms n now) ms (plan_archive-Planned n now ms)

any_guard : (a b c : Bool) → (a || (b || (c || true))) ≡ true
any_guard true b c = refl
any_guard false true c = refl
any_guard false false true = refl
any_guard false false false = refl

module _ (C : Decaying) (parses : (t : Time) → C.parse_from_rfc3339 (C.to_rfc3339 t) ≡ some t) where
  -- The marker that is set is the one that is read, whatever the metadata were.
  marker_read :
      (metadata : Value) (at : Time) → last_decay_at C (set_decay_marker C metadata at) ≡ some at
  unfolding last_decay_at set_decay_marker Json.get Json.get_field text_eq
  marker_read metadata at =
      ap (λ o. parsed C (as_str (and_get (codes "last_decay_at") o)))
        (Json.get_field-set_field_self (codes "decay")
          (Json.object
            (Json.field (codes "last_decay_at") (Json.string (C.to_rfc3339 at)) Json.end))
          (fields_of metadata))
      ∙ parses at

  marked_skips :
      (m : Memory) (confidence : F32) (n : ℕ) (now at : Time)
      → now < at + days n
      → skips_decay C n now
          (record m { confidence = confidence; metadata = set_decay_marker C m.metadata at })
        ≡ true
  unfolding skips_decay
  marked_skips m confidence n now at h =
      rw (marker_read m.metadata at, lt→ltb _ _ h)
        (any_guard (is_some m.superseded_by) (until_passed m.valid_until now)
          (within now m.last_accessed (days n)))

  -- Where chrono reads its own texts back, the marker that a decay sets is read as the time of the
  -- decay, and the memory is in no plan until a whole period has passed since, whatever its
  -- confidence and its other metadata are.
  pub plan_decay-set_decay_marker :
      (m : Memory) (ms : List Memory) (confidence : F32) (decay_after_days : ℕ) (now at : Time)
      → now < at + days decay_after_days
      → let m' : Memory = record m {
        confidence = confidence;
        metadata = set_decay_marker C m.metadata at;
      } in
        (last_decay_at C m'.metadata ≡ some at)
        × (plan_decay C (m' ∷ ms) decay_after_days now ≡ plan_decay C ms decay_after_days now)
  unfolding plan_decay
  plan_decay-set_decay_marker m ms confidence n now at h =
      (marker_read m.metadata at, rw (marked_skips m confidence n now at h) refl)
