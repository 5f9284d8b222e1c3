-- ===== src/Tests/Access.antt =====
-- The theorems on tokens and on the worker's drain at concrete inputs.
use agent_memory_vault.Base.{ℕ, ◌+◌, ◌≡◌, refl, true, none, some, [], ◌∷◌, arith}
use agent_memory_vault.Core.Text.{codes, text_eq}
use agent_memory_vault.Core.Json
use agent_memory_vault.Core.Boundary
use agent_memory_vault.Core.Error.{ok}
use agent_memory_vault.Storage.Tokens.{
  AgentToken, TokenCodec, find_active, decode_agent_row, register_agent_token, new_boundaries,
  parse_names, parse_time, parse_optional_time, lookup_agent_by_token_hash, revoke_agent_token,
}
use agent_memory_vault.Storage.Tokens.Calls.{register, perform_all}
use agent_memory_vault.Storage.Tokens.Revocation.{lookup_agent-revoke}
use agent_memory_vault.Storage.Worker.{World, VectorStore, Reading}
use agent_memory_vault.Storage.Worker.Drain.{Rounds, drain}
use agent_memory_vault.Storage.Worker.Drain.Emptied.{IsEmptied, drain-IsEmptied}
use agent_memory_vault.Tests.Float64.{pos, fixed}
use agent_memory_vault.Tests.Samples.{encoding, codec, draws, tables, queue-IsValid}

-- Hashes and times as they are, and no boundaries.
abbrev tokens : TokenCodec
tokens = record {
  blake3_hex = λ s. s;
  names_json = λ ns. ok [];
  parse_names = λ s. some [];
  to_rfc3339 = λ t. t ∷ [];
  parse_from_rfc3339 = λ s. elim s [ [] ↦ none | t ∷ _ ↦ some t ];
}

abbrev claude : AgentToken
claude = record { agent_name = codes "claude"; boundaries = []; created_at = 7; revoked_at = none }

found :
    lookup_agent_by_token_hash tokens
      (codes "h")
      (perform_all tokens (register (codes "claude") (codes "h") [] 7 ∷ []) [])
    ≡ ok (some claude)
unfolding lookup_agent_by_token_hash find_active decode_agent_row register_agent_token
    new_boundaries parse_names parse_time parse_optional_time text_eq
found = refl

lookup_agent-revoke_example :
    ((revoke_agent_token tokens
        (codes "claude")
        8
        (perform_all tokens (register (codes "claude") (codes "h") [] 7 ∷ []) [])).0
      ≡ ok true)
    × (lookup_agent_by_token_hash tokens (codes "h") (
          perform_all tokens
            (register (codes "other") (codes "h") [] 9 ∷ [])
            (revoke_agent_token tokens
              (codes "claude")
              8
              (perform_all tokens (register (codes "claude") (codes "h") [] 7 ∷ []) [])).1)
        ≡ ok none)
lookup_agent-revoke_example =
    lookup_agent-revoke tokens (register (codes "claude") (codes "h") [] 7 ∷ [])
      (register (codes "other") (codes "h") [] 9 ∷ []) (codes "h") 8 claude found

-- A vector store that counts its calls.
abbrev counting : VectorStore ℕ
counting = record { upsert = λ id e b s. ok (s + 1); delete = λ id s. ok (s + 1) }

abbrev world : World ℕ
world = record { tables = tables; letters = []; vectors = 0 }

abbrev reading : Reading
reading = record { error_text = λ e. codes "down"; payload_value = λ s. Json.string s }

-- A round takes one unit of time.
abbrev rounds : Rounds fixed
rounds = record {
  instant = λ i. i;
  polled_at = λ i. i + 8;
  draws = λ i. draws;
  clock = λ i. i + 8;
  factor = λ i. pos 0;
}

work-new : Boundary.new (codes "work") ≡ ok (codes "work")
unfolding Boundary.new Boundary.validate Boundary.is_name_byte
work-new = refl

drain-IsEmptied_example :
    IsEmptied fixed encoding codec reading counting world 0
      (drain fixed encoding codec reading counting 5 rounds 3 0 0 world)
drain-IsEmptied_example =
    drain-IsEmptied fixed encoding codec reading counting 5 rounds 3 1 0 0 world
      (record { upserts = λ m e b s. (s + 1, refl); deletes = λ m s. (s + 1, refl) }) queue-IsValid
      (
        record {
          payload = record { embedding = []; boundary = codes "work" };
          decodes = refl;
          valid = work-new;
        },
        tt,
      )
      (record { due = λ j h. (omega (arith, h), tt); early = λ j a b. omega (arith, b) })
      (omega arith)
