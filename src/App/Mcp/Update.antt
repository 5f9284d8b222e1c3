-- ===== src/App/Mcp/Update.antt =====
-- What `handle_update` does to the memory that it names.
use agent_memory_vault.Base.{
  ◌≡◌, refl, ap, ◌∙◌, sym, ℕ, Option, some, List, true, inl, inr, Bool-cases,
}
use agent_memory_vault.Core.Text.{Text}
use agent_memory_vault.Core.Float.{F32}
use agent_memory_vault.Core.Error.{
  VaultError, Result, ok, err, panicked, IfOk, IfOk-bind, always, after_check, Result-cases,
}
use agent_memory_vault.Core.Boundary
use agent_memory_vault.Core.Memory.{Memory, MemoryId, NewMemory, validate, try_new, try_new_with_id}
use agent_memory_vault.Storage.Backoff.{F64}
use agent_memory_vault.Storage.Queue
use agent_memory_vault.Storage.Audit.Chain.{Encoding}
use agent_memory_vault.Storage.Cascade.{Ack, Codec, Draws, Vault, as_row, tx_get_memory}
use agent_memory_vault.Storage.Cascade.Write.{update_memory}
use agent_memory_vault.Storage.Cascade.Invariant.{IsValid}
use agent_memory_vault.Storage.Cascade.Atomic.{Atomic, refused, acknowledged, write_memory-Atomic}
use agent_memory_vault.Storage.Reading.{get_memory, Read, failed, read, get_memory-Read}
use agent_memory_vault.App.Normalize.{normalize_for_canonical_save}
use agent_memory_vault.App.Adapter
use agent_memory_vault.App.Adapter.{
  KeywordWriter, World, Fresh, finish, existing_row, patched, prepare_update, update_read,
  boundary_of,
}
use agent_memory_vault.App.Mcp.{
  WriteToolParams, is_authorized, named_boundary, check_update, parse_memory_type, handle_update,
}
use agent_memory_vault.App.Mcp.Named.{try_new-boundary}

new_name : (name : Text) → IfOk (λ b. b ≡ name) (Boundary.new name)
unfolding Boundary.new
new_name name = after_check {A = Text} (λ b. b ≡ name) (Boundary.validate name) name refl

-- The boundary is the agent's, and it is the one that is named.
abbrev IsNamed : List Text → WriteToolParams → Text → Type 0
IsNamed authorized params b = (is_authorized authorized b ≡ true) × (b ≡ params.boundary)

named_boundary-IsNamed :
    (authorized : List Text) (params : WriteToolParams)
    → IfOk (IsNamed authorized params) (named_boundary authorized params)
unfolding named_boundary
named_boundary-IsNamed authorized params = elim (Result-cases (Boundary.new params.boundary)) [
  | inl (b, h) ↦
      let same : b ≡ params.boundary = rw h at (new_name params.boundary) in
      elim (Bool-cases (is_authorized authorized b)) [
        | inl in_set ↦ rw (named_boundary, h, in_set, IfOk) (in_set, same)
        | inr out ↦ rw (named_boundary, h, out, IfOk) tt
      ]
  | inr (inl (e, h)) ↦ rw (named_boundary, h, IfOk) tt
  | inr (inr h) ↦ rw (named_boundary, h, IfOk) tt
]

check_update-IsNamed :
    (authorized : List Text) (params : WriteToolParams)
    → IfOk (λ a. IsNamed authorized params a.boundary) (check_update authorized params)
unfolding check_update
check_update-IsNamed authorized params =
    IfOk-bind _ _ (named_boundary authorized params) _ (named_boundary-IsNamed authorized params)
      (λ b h.
        IfOk-bind (λ _. Unit) _ (parse_memory_type params.memory_type) _ (always _) (λ t _. h))

try_new_with_id-kept :
    (id new_id : MemoryId) (now : ℕ) (args : NewMemory)
    → IfOk (λ m. (m.id ≡ id) × (m.boundary ≡ args.boundary)) (try_new_with_id id new_id now args)
unfolding try_new_with_id
try_new_with_id-kept id new_id now args =
    IfOk-bind _ _ (try_new new_id now args) _ (try_new-boundary new_id now args) (λ m h. (refl, h))

prepare_update-kept :
    (embed : Text → Result (List F32)) (fresh : Fresh) (id : MemoryId) (args : NewMemory)
    (found : Option Memory)
    → IfOk
        (λ r. (r.0.id ≡ id) × (r.0.boundary ≡ args.boundary))
        (prepare_update embed fresh id args found)
unfolding prepare_update try_new_with_id patched
prepare_update-kept embed fresh id args found =
    IfOk-bind (λ _. Unit) _ (existing_row found) _ (always _)
      (λ old _.
        IfOk-bind (λ m. (m.id ≡ id) × (m.boundary ≡ args.boundary)) _
          (try_new_with_id id fresh.new_id fresh.now args) _
          (try_new_with_id-kept id fresh.new_id fresh.now args)
          (λ m h.
            IfOk-bind (λ _. Unit) _ (validate (patched fresh.later old m)) _ (always _)
              (λ _ _. IfOk-bind (λ _. Unit) _ (embed m.content) _ (always _) (λ _ _. h))))

-- The boundary that the vault has for the memory.
abbrev pub stored_in {ℓ} : {I : Type ℓ} → MemoryId → World I → Option Text
stored_in id w = boundary_of (tx_get_memory id w.vault.tables.memories)

module _ {ℓ} {I : Type ℓ} (F : F64) (E : Encoding) (K : Codec) (D : Draws) (N : KeywordWriter I)
    (authorized : List Text) where
  finished :
      (m : Memory) (embedding : List F32) (maintain : I → Option VaultError × I) (index : I)
      (v : Vault) (o : Result Ack × Vault)
      → Atomic F E K D Queue.update m embedding v o
      → (finish F E K D N {A = Unit {0}} tt maintain index o).0 ≡ ok tt
      → tx_get_memory m.id
          (finish F E K D N {A = Unit {0}} tt maintain index o).1.vault.tables.memories
        ≡ some (as_row m)
  unfolding finish
  finished m embedding maintain index v _ (refused why overflow) h = cc
  finished m embedding maintain index v _ (acknowledged at t' overflow d) h = d.stored

  module _ (embed : Text → Result (List F32)) (dimension : ℕ) (fresh : Fresh) where
    -- What a call of the handler promises for the boundary of the memory.
    abbrev Moved : MemoryId → Text → Result (Unit {0}) × World I → Type 0
    Moved id b o = o.0 ≡ ok tt → stored_in id o.1 ≡ some b

    prepared :
        (id : MemoryId) (args : NewMemory) (index : I) (v : Vault) (r : Result (Memory × List F32))
        → IfOk (λ r. (r.0.id ≡ id) × (r.0.boundary ≡ args.boundary)) r
        → IsValid E v.tables
        → Moved id args.boundary (elim r as (λ _. Result (Unit {0}) × World I) [
          | ok r ↦
              finish F E K D N tt
                (N.upsert id r.0.content)
                index
                (update_memory F E K D dimension r.0 r.1 v)
          | err e ↦ (err e, record { vault = v; keyword = index })
          | panicked ↦ (panicked, record { vault = v; keyword = index })
        ])
    prepared id args index v (ok r) b i = λ h.
        let there =
          finished r.0 r.1 (N.upsert id r.0.content) index v
            (update_memory F E K D dimension r.0 r.1 v)
            (write_memory-Atomic F E K D dimension r.0 r.1 v i).1 h in
        let rows =
          (finish F E K D N {A = Unit {0}} tt (N.upsert id r.0.content) index
            (update_memory F E K D dimension r.0 r.1 v)).1.vault.tables.memories in
        let found : tx_get_memory id rows ≡ some (as_row r.0) =
          ap (λ k. tx_get_memory k rows) (sym b.0) ∙ there in
        ap boundary_of found ∙ ap (λ x. some x) b.1
    prepared id args index v (err e) b i = λ h. cc
    prepared id args index v panicked b i = λ h. cc

    read-Moved :
        (R : Draws) (id : MemoryId) (args : NewMemory) (index : I) (v : Vault)
        (o : Result (Option Memory) × Vault)
        → Read F E R id v o
        → IsValid E v.tables
        → Moved id args.boundary (update_read F E K D N embed dimension fresh id args index o)
    unfolding update_read
    read-Moved R id args index v _ (failed why) i = λ h. cc
    read-Moved R id args index v _ (read t same valid) i =
        prepared id args index (record v { tables = t }) _
          (prepare_update-kept embed fresh id args (tx_get_memory id v.tables.memories)) (valid i)

    normalized-Moved :
        (R : Draws) (id : MemoryId) (args : NewMemory) (w : World I) (content : Result Text)
        → IsValid E w.vault.tables
        → Moved id args.boundary (elim content as (λ _. Result (Unit {0}) × World I) [
          | ok content ↦
              update_read F E K D N embed dimension fresh id
                (record args { content = content })
                w.keyword
                (get_memory F E R id w.vault)
          | err e ↦ (err e, w)
          | panicked ↦ (panicked, w)
        ])
    normalized-Moved R id args w (ok content) i =
        read-Moved R id (record args { content = content }) w.keyword w.vault
          (get_memory F E R id w.vault) (get_memory-Read F E R id w.vault) i
    normalized-Moved R id args w (err e) i = λ h. cc
    normalized-Moved R id args w panicked i = λ h. cc

    update-Moved :
        (R : Draws) (id : MemoryId) (args : NewMemory) (w : World I)
        → IsValid E w.vault.tables
        → Moved id args.boundary (Adapter.update F E K D N embed dimension fresh R id args w)
    unfolding Adapter.update
    update-Moved R id args w i =
        normalized-Moved R id args w (normalize_for_canonical_save args.content) i

    checked :
        (R : Draws) (id : MemoryId) (params : WriteToolParams) (w : World I) (r : Result NewMemory)
        → IfOk (λ a. IsNamed authorized params a.boundary) r
        → IsValid E w.vault.tables
        → (elim r as (λ _. Result (Unit {0}) × World I) [
          | ok args ↦ Adapter.update F E K D N embed dimension fresh R id args w
          | err e ↦ (err e, w)
          | panicked ↦ (panicked, w)
        ]).0
          ≡ ok tt
        → (is_authorized authorized params.boundary ≡ true)
          × (stored_in id
                (elim r as (λ _. Result (Unit {0}) × World I) [
                  | ok args ↦ Adapter.update F E K D N embed dimension fresh R id args w
                  | err e ↦ (err e, w)
                  | panicked ↦ (panicked, w)
                ]).1
              ≡ some params.boundary)
    checked R id params w (ok args) b i h = (
      ap (is_authorized authorized) (sym b.1) ∙ b.0,
      update-Moved R id args w i h ∙ ap (λ x. some x) b.1,
    )
    checked R id params w (err e) b i h = cc
    checked R id params w panicked b i h = cc

    -- On valid tables, where `handle_update` succeeds: the boundary that the request names is one of the
    -- agent's, and the memory of the id is in that boundary from then on, whatever boundary it was in
    -- before, the agent's or not.
    pub handle_update-named :
        (R : Draws) (id : MemoryId) (params : WriteToolParams) (w : World I)
        → IsValid E w.vault.tables
        → (handle_update F E K D N authorized embed dimension fresh R id params w).0 ≡ ok tt
        → (is_authorized authorized params.boundary ≡ true)
          × (stored_in id (handle_update F E K D N authorized embed dimension fresh R id params w).1
              ≡ some params.boundary)
    unfolding handle_update
    handle_update-named R id params w i h =
        checked R id params w (check_update authorized params)
          (check_update-IsNamed authorized params) i h
