-- ===== src/App/Adapter.antt =====
-- `VaultAdapter` (crates/vault-app/src/adapter.rs): the writing operations of the trait `Adapter`.
-- The keyword index of Tantivy, the embedding model, and what is drawn from the clock and the id
-- generator are parameters.
use agent_memory_vault.Base.{ℕ, Option, none, some, List}
use agent_memory_vault.Core.Text.{Text, codes}
use agent_memory_vault.Core.Float.{F32}
use agent_memory_vault.Core.Error.{VaultError, Result, ok, err, panicked, ◌>>=◌, ◌>>◌, not_found}
use agent_memory_vault.Core.Memory
use agent_memory_vault.Core.Memory.{Memory, NewMemory, MemoryId, Time, try_new, try_new_with_id}
use agent_memory_vault.Storage.Backoff.{F64}
use agent_memory_vault.Storage.Audit.Chain.{Encoding}
use agent_memory_vault.Storage.Cascade.{Ack, Codec, Draws, Vault}
use agent_memory_vault.Storage.Reading.{get_memory}
use agent_memory_vault.Storage.Cascade.Write.{write_memory, update_memory, delete_memory}
use agent_memory_vault.App.Normalize.{normalize_for_canonical_save}

-- What a call of the keyword index leaves of it, and the error of it, if there is one.
pub record KeywordWriter {ℓ} (I : Type ℓ) : Type ℓ where
  pub upsert : MemoryId → Text → I → Option VaultError × I
  pub delete : MemoryId → I → Option VaultError × I

pub record World {ℓ} (I : Type ℓ) : Type ℓ where
  pub vault : Vault
  pub keyword : I

-- What a call draws: the id of a new memory, and `Utc::now()` before and after the validation.
pub record Fresh : Type 0 where
  pub new_id : MemoryId
  pub now : Time
  pub later : Time

-- The fields that an update keeps from the row that is there.
unfoldable pub patched : Time → Memory → Memory → Memory
patched now existing updated = record updated {
  source_agent = existing.source_agent;
  created_at = existing.created_at;
  valid_from = existing.valid_from;
  valid_until = existing.valid_until;
  access_count = existing.access_count;
  superseded_by = existing.superseded_by;
  metadata = existing.metadata;
  last_accessed = now;
}

abbrev pub existing_row : Option Memory → Result Memory
existing_row none = err (not_found (codes "memory not found"))
existing_row (some m) = ok m

module _ (embed : Text → Result (List F32)) where
  -- `write` up to the call of the storage.
  unfoldable pub prepare_write : Fresh → NewMemory → Result (Memory × List F32)
  unfolding normalize_for_canonical_save try_new
  prepare_write fresh args = do
    content ← normalize_for_canonical_save args.content
    memory ← try_new fresh.new_id fresh.now (record args { content = content })
    embedding ← embed memory.content
    ok (memory, embedding)

  -- `update` from the row that it has read up to the call of the storage; the content is normalized.
  unfoldable pub prepare_update :
      Fresh → MemoryId → NewMemory → Option Memory → Result (Memory × List F32)
  unfolding try_new_with_id patched Memory.validate
  prepare_update fresh id args found = do
    existing ← existing_row found
    candidate ← try_new_with_id id fresh.new_id fresh.now args
    let updated = patched fresh.later existing candidate
    Memory.validate updated
    embedding ← embed updated.content
    ok (updated, embedding)

module _ {ℓ} {I : Type ℓ} (F : F64) (E : Encoding) (K : Codec) (D : Draws)
    (N : KeywordWriter I) where
  -- The end of the three calls: the index follows where the storage has succeeded, and an error of it
  -- is only logged.
  unfoldable pub finish {κ} :
      {A : Type κ} → A → (I → Option VaultError × I) → I → Result Ack × Vault → Result A × World I
  finish result maintain index (ok _, v) =
      (ok result, record { vault = v; keyword = (maintain index).1 })
  finish result maintain index (err e, v) = (err e, record { vault = v; keyword = index })
  finish result maintain index (panicked, v) = (panicked, record { vault = v; keyword = index })

  module _ (embed : Text → Result (List F32)) (dimension : ℕ) (fresh : Fresh) where
    unfoldable pub write : NewMemory → World I → Result MemoryId × World I
    unfolding prepare_write write_memory finish
    write args w = elim (prepare_write embed fresh args) [
      | ok r ↦
          finish r.0.id (N.upsert r.0.id r.0.content) w.keyword
            (write_memory F E K D dimension r.0 r.1 w.vault)
      | err e ↦ (err e, w)
      | panicked ↦ (panicked, w)
    ]

    -- `update` behind its read.
    unfoldable pub update_read :
        MemoryId → NewMemory → I → Result (Option Memory) × Vault → Result (Unit {0}) × World I
    unfolding prepare_update update_memory finish
    update_read id args index (ok found, v) = elim (prepare_update embed fresh id args found) [
      | ok r ↦ finish tt (N.upsert id r.0.content) index (update_memory F E K D dimension r.0 r.1 v)
      | err e ↦ (err e, record { vault = v; keyword = index })
      | panicked ↦ (panicked, record { vault = v; keyword = index })
    ]
    update_read id args index (err e, v) = (err e, record { vault = v; keyword = index })
    update_read id args index (panicked, v) = (panicked, record { vault = v; keyword = index })

    -- The read has draws of its own.
    unfoldable pub update : Draws → MemoryId → NewMemory → World I → Result (Unit {0}) × World I
    unfolding normalize_for_canonical_save get_memory update_read
    update R id args w = elim (normalize_for_canonical_save args.content) [
      | ok content ↦
          update_read id (record args { content = content }) w.keyword (get_memory F E R id w.vault)
      | err e ↦ (err e, w)
      | panicked ↦ (panicked, w)
    ]

  unfoldable pub delete : MemoryId → World I → Result (Unit {0}) × World I
  unfolding delete_memory finish
  delete id w = finish tt (N.delete id) w.keyword (delete_memory F E K D id w.vault)

abbrev pub boundary_of : Option Memory → Option Text
boundary_of none = none
boundary_of (some m) = some m.boundary

unfoldable pub lookup_boundary {ℓ} :
    {I : Type ℓ} → F64 → Encoding → Draws → MemoryId → World I → Result (Option Text) × World I
unfolding get_memory
lookup_boundary F E R id w =
    let r = get_memory F E R id w.vault in
    ((r.0 >>= λ m. ok (boundary_of m)), record w { vault = r.1 })
