-- ===== src/Tests/App.antt =====
-- The theorems on the tool handlers and on the normalization at concrete inputs.
use agent_memory_vault.Base.{ℕ, ◌+◌, ◌*◌, ◌≡◌, refl, true, none, some, List, [], ◌∷◌}
use agent_memory_vault.Core.Text.{Text, codes}
use agent_memory_vault.Core.Boundary.{is_name_byte}
use agent_memory_vault.Core.Float.{in_unit_range}
use agent_memory_vault.Core.Error.{VaultError, ok}
use agent_memory_vault.Core.Memory.{MemoryId}
use agent_memory_vault.Storage.Backoff.{compute_next_attempt}
use agent_memory_vault.Storage.Audit.Chain.{tx_append_audit}
use agent_memory_vault.Storage.Cascade.{Draws, tx_insert_retry_queue}
use agent_memory_vault.Storage.Cascade.Invariant.{IsValid}
use agent_memory_vault.App.Normalize.{normalize_for_canonical_save}
use agent_memory_vault.App.Normalize.Shape.{Shaped, normalize_for_canonical_save-Shaped}
use agent_memory_vault.App.Adapter.{KeywordWriter, World, Fresh}
use agent_memory_vault.App.Mcp.{WriteToolParams, Dates, is_authorized, handle_update}
use agent_memory_vault.App.Mcp.Gate.{Call, write, delete, foreign, handle_all, handle_all-foreign}
use agent_memory_vault.App.Mcp.Update.{stored_in, handle_update-named}
use agent_memory_vault.Tests.Float64.{fixed}
use agent_memory_vault.Tests.Samples.{encoding, codec, draws, vault, tables-IsValid}

-- The keyword index as the list of its ids; a deletion fails.
abbrev keywords : KeywordWriter (List MemoryId)
keywords = record {
  upsert = λ id content index. (none, id ∷ index);
  delete = λ id index. (some (VaultError.storage (codes "delete")), index);
}

abbrev world : World (List MemoryId)
world = record { vault = vault; keyword = 4 ∷ [] }

-- The draws of a later call.
abbrev draws_of : ℕ → Draws
draws_of k = record { uuid = λ n. n + 100 * (k + 1); clock = λ n. n + 1_000 * (k + 1) }

abbrev dates : Dates
dates = record { rfc3339 = λ s. none; date = λ s. some 17 }

abbrev fresh : Fresh
fresh = record { new_id = 30; now = 2_000; later = 2_001 }

abbrev params : WriteToolParams
params = record {
  content = codes "I prefer coffee";
  boundary = codes "home";
  memory_type = none;
  source_agent = none;
  confidence = none;
  as_of = none;
}

abbrev at_home : List Text
at_home = codes "home" ∷ []

abbrev calls : List Call
calls =
    write draws fresh 31 1_999 params
    ∷ delete (draws_of 1) (draws_of 2) 4
    ∷ delete (draws_of 3) (draws_of 4) 30
    ∷ []

handle_all-foreign_example :
    (foreign at_home
        (handle_all fixed encoding codec keywords at_home
          (λ t. ok (0 ∷ []))
          1
          dates
          calls
          world).vault.tables.memories
      ≡ foreign at_home vault.tables.memories)
    × IsValid encoding
        (handle_all fixed encoding codec keywords at_home
          (λ t. ok (0 ∷ []))
          1
          dates
          calls
          world).vault.tables
handle_all-foreign_example =
    handle_all-foreign fixed encoding codec keywords at_home (λ t. ok (0 ∷ [])) 1 dates calls world
      tables-IsValid

normalize_for_canonical_save-Shaped_example :
    Shaped
      (codes " i think that tea is fine")
      (normalize_for_canonical_save (codes " i think that tea is fine"))
normalize_for_canonical_save-Shaped_example =
    normalize_for_canonical_save-Shaped (codes " i think that tea is fine")

-- The agent of `home` updates the memory 4, which is of `work`.
updated :
    (handle_update fixed encoding codec draws keywords at_home
      (λ t. ok (0 ∷ []))
      1
      fresh
      (draws_of 1)
      4
      params
      world).0
    ≡ ok tt
unfolding handle_update is_name_byte in_unit_range tx_append_audit tx_insert_retry_queue
    compute_next_attempt
updated = refl

handle_update-named_example :
    (is_authorized at_home (codes "home") ≡ true)
    × (stored_in 4
          (handle_update fixed encoding codec draws keywords at_home
            (λ t. ok (0 ∷ []))
            1
            fresh
            (draws_of 1)
            4
            params
            world).1
        ≡ some (codes "home"))
handle_update-named_example =
    handle_update-named fixed encoding codec draws keywords at_home (λ t. ok (0 ∷ [])) 1 fresh
      (draws_of 1) 4 params world tables-IsValid updated

-- A second normalization goes on where the first has stopped.
normalize_twice :
    (normalize_for_canonical_save (codes "I think I think tea") ≡ ok (codes "I think tea."))
    × (normalize_for_canonical_save (codes "I think tea.") ≡ ok (codes "Tea."))
unfolding normalize_for_canonical_save
normalize_twice = (refl, refl)
