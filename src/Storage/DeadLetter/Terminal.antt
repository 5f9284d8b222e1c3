-- ===== src/Storage/DeadLetter/Terminal.antt =====
-- A resolution is final.
use agent_memory_vault.Base.{
  ℕ, ◌≡◌, ◌≢◌, refl, true, false, Option, none, some, [], ◌∷◌, arith, ◌==◌, sym, ap, ◌∙◌, inl, inr,
  Bool-cases, Option-cases, subst, if◌then◌else◌, any, ◌++◌,
}
use agent_memory_vault.Base.Table
use agent_memory_vault.Core.Text.{Text, text_eq, text_eq-eq, text_eq_refl}
use agent_memory_vault.Core.Error.{Result, ok, err, not_found, invalid_input}
use agent_memory_vault.Core.Memory.{Time}
use agent_memory_vault.Storage.Truncate.{truncate_utf8}
use agent_memory_vault.Storage.DeadLetter.{
  Resolution, retried_succeeded, retried_failed, acknowledged, auto_recovered, DeadLetterEntry,
  Letters, letter_id, as_str, from_str, resolve_row, resolve_current, resolve, get, insert,
  NewDeadLetter, failure_reason_max_bytes,
}

-- The names of the resolutions are read back as what they name.
pub from_str-as_str : (r : Resolution) → from_str (as_str r) ≡ ok r
unfolding from_str as_str text_eq
from_str-as_str retried_succeeded = refl
from_str-as_str retried_failed = refl
from_str-as_str acknowledged = refl
from_str-as_str auto_recovered = refl

as_str-eq : (a b : Resolution) → as_str a ≡ as_str b → a ≡ b
as_str-eq a b e =
    let read : ok a ≡ ok b = sym (from_str-as_str a) ∙ ap from_str e ∙ from_str-as_str b in cc

-- What a call of `resolve` with this resolution does, by the row that has the id.
pub data Resolved (id : ℕ) (r : Resolution) (now : Time) (d : Letters)
    : Option DeadLetterEntry → Result Letters → Type 0 where
  missing : (why : Text) → Resolved id r now d none (err (not_found why))
  first :
      (e : DeadLetterEntry) (d' : Letters)
      → e.resolution ≡ none
      → ((j : ℕ)
          → get j d' ≡ (
              if j == id
              then some (record e { resolution = some r; resolved_at = some now })
              else get j d))
      → Resolved id r now d (some e) (ok d')
  again : (e : DeadLetterEntry) → e.resolution ≡ some r → Resolved id r now d (some e) (ok d)
  refused :
      (e : DeadLetterEntry) (other : Resolution) (why : Text)
      → e.resolution ≡ some other
      → other ≢ r
      → Resolved id r now d (some e) (err (invalid_input why))

resolve_row_eq :
    (r : Resolution) (now : Time) (e : DeadLetterEntry)
    → e.resolution ≡ none
    → resolve_row r now e ≡ record e { resolution = some r; resolved_at = some now }
resolve_row_eq r now e h = rw h refl

resolve_row_id :
    (r : Resolution) (now : Time) (e : DeadLetterEntry) → (resolve_row r now e).id ≡ e.id
resolve_row_id r now e = elim (Option-cases e.resolution) [
  | inl h ↦ rw h refl
  | inr (x, h) ↦ rw h refl
]

current-Resolved :
    (id : ℕ) (r : Resolution) (now : Time) (d : Letters) (e : DeadLetterEntry)
    (o : Option Resolution)
    → get id d ≡ some e
    → e.resolution ≡ o
    → Resolved id r now d (some e) (resolve_current o id r now d)
unfolding resolve_current get
current-Resolved id r now d e none found h =
    first e (Table.update letter_id id (resolve_row r now) d) h (λ j. elim (Bool-cases (j == id)) [
      | inl same ↦
          let k : id ≡ j = ground arith in
          rw same (
            subst
              (λ i.
                Table.select letter_id i (Table.update letter_id id (resolve_row r now) d)
                ≡ some (record e { resolution = some r; resolved_at = some now }))
              k
              (Table.select-update_self letter_id (resolve_row r now) (resolve_row_id r now) id d
                  {x = e} found
                ∙ ap some (resolve_row_eq r now e h)))
      | inr other ↦ rw other (
          Table.select-update_ne letter_id (resolve_row r now) (resolve_row_id r now) j id d
            (λ k. ground arith))
    ])
current-Resolved id r now d e (some old) found h =
    elim (Bool-cases (text_eq (as_str old) (as_str r))) [
      | inl t ↦ rw t (again e (h ∙ ap some (as_str-eq old r (text_eq-eq _ _ t))))
      | inr f ↦ rw f (
          refused e old _ h (λ eq. absurd (
            let t = text_eq_refl (as_str r) in
            let u : text_eq (as_str old) (as_str r) ≡ true =
              ap (λ x. text_eq (as_str x) (as_str r)) eq ∙ t in
            cc)))
    ]

-- A first resolution sets the resolution and the time of the row and touches no other; the same
-- resolution again changes nothing; another resolution of a resolved row and one of a missing row
-- are refused.
pub resolve-Resolved :
    (id : ℕ) (r : Resolution) (now : Time) (d : Letters)
    → Resolved id r now d (get id d) (resolve id r now d)
unfolding resolve get
resolve-Resolved id r now d = elim (Option-cases (Table.select letter_id id d)) [
  | inl e ↦ rw (e, resolve) (missing _)
  | inr (x, e) ↦ rw (e, resolve) (current-Resolved id r now d x x.resolution e refl)
]

-- A letter with an id that is not in use is put behind the others, unresolved.
pub insert_new :
    (fresh : ℕ) (new : NewDeadLetter) (d : Letters)
    → any (λ e. e.id == fresh) d ≡ false
    → (l : DeadLetterEntry) × (insert fresh new d ≡ ok (fresh, d ++ (l ∷ [])))
      × (l.memory_id ≡ new.memory_id)
      × (l.failed_operation ≡ new.failed_operation)
      × (l.attempts_made ≡ new.attempts_made)
      × (l.resolution ≡ none)
unfolding insert
insert_new fresh new d h =
    let l : DeadLetterEntry = record {
      id = fresh;
      memory_id = new.memory_id;
      failed_operation = new.failed_operation;
      failure_reason = truncate_utf8 new.failure_reason failure_reason_max_bytes;
      attempts_made = new.attempts_made;
      first_failed_at = new.first_failed_at;
      last_attempted_at = new.last_attempted_at;
      payload_format_version = new.payload_format_version;
      payload = new.payload;
      resolution = none;
      resolved_at = none;
    } in
    (l, rw h refl, refl, refl, refl, refl)
