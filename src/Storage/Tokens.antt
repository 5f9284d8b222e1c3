-- ===== src/Storage/Tokens.antt =====
-- The capability tokens of agents (crates/vault-storage/src/agent_token_store.rs, and the keys of
-- crates/vault-storage/src/migrations/0007_agent_tokens.sql). BLAKE3, serde_json and the texts of times
-- are parameters.
pub mod Calls
pub mod Unique
pub mod Dead
pub mod Revocation
use agent_memory_vault.Base.{
  ℕ, Bool, true, false, not, ◌&&◌, ◌||◌, Option, none, some, List, [], ◌∷◌, ◌++◌, any, ◌==◌, ◌+◌,
  if◌then◌else◌,
}
use agent_memory_vault.Base.Sort.{sort_by}
use agent_memory_vault.Core.Text.{Text, codes, text_eq, text_le}
use agent_memory_vault.Core.Error.{Result, ok, err, panicked, ◌>>=◌, storage}
use agent_memory_vault.Core.Boundary
use agent_memory_vault.Core.Memory.{Time, is_some}

pub record AgentToken : Type 0 where
  pub agent_name : Text
  pub boundaries : List Text
  pub created_at : Time
  pub revoked_at : Option Time

-- A row of the table `agent_tokens`.
pub record TokenRow : Type 0 where
  pub agent_name : Text
  pub token_hash : Text
  pub boundaries : Text
  pub created_at : Text
  pub revoked_at : Option Text

abbrev pub Tokens : Type 0
Tokens = List TokenRow

pub record TokenCodec : Type 0 where
  pub blake3_hex : Text → Text
  pub names_json : List Text → Result Text
  pub parse_names : Text → Option (List Text)
  pub to_rfc3339 : Time → Text
  pub parse_from_rfc3339 : Text → Option Time

abbrev pub is_active : TokenRow → Bool
is_active r = not (is_some r.revoked_at)

-- `WHERE token_hash = ? AND revoked_at IS NULL`.
unfoldable pub find_active : Text → Tokens → Option TokenRow
find_active hash [] = none
find_active hash (r ∷ rows) =
    if text_eq r.token_hash hash && is_active r then some r else find_active hash rows

-- `UPDATE .. WHERE agent_name = ? AND revoked_at IS NULL`: the number of rows, and the table.
unfoldable pub update_active : Text → (TokenRow → TokenRow) → Tokens → ℕ × Tokens
update_active name change [] = (0, [])
update_active name change (r ∷ rows) =
    let rest = update_active name change rows in
    if text_eq r.agent_name name && is_active r
    then (rest.0 + 1, change r ∷ rest.1)
    else (rest.0, r ∷ rest.1)

abbrev pub rescope : Text → TokenRow → TokenRow
rescope json r = record r { boundaries = json }

abbrev pub retire : Text → TokenRow → TokenRow
retire now r = record r { revoked_at = some now }

module _ (C : TokenCodec) where
  abbrev pub hash_capability_token : Text → Text
  hash_capability_token token = C.blake3_hex token

  -- `names.iter().map(Boundary::new).collect()`.
  unfoldable pub new_boundaries : List Text → Result (List Text)
  new_boundaries [] = ok []
  new_boundaries (n ∷ ns) = elim (Boundary.new n) [
    | ok b ↦ new_boundaries ns >>= λ bs. ok (b ∷ bs)
    | err _ ↦ err (storage (codes "invalid stored boundary"))
    | panicked ↦ panicked
  ]

  unfoldable pub parse_time : Text → Result Time
  parse_time s = elim (C.parse_from_rfc3339 s) [
    | none ↦ err (storage (codes "decode timestamp"))
    | some t ↦ ok t
  ]

  unfoldable pub parse_optional_time : Option Text → Result (Option Time)
  unfolding parse_time
  parse_optional_time none = ok none
  parse_optional_time (some s) = parse_time s >>= λ t. ok (some t)

  unfoldable pub parse_names : Text → Result (List Text)
  parse_names json = elim (C.parse_names json) [
    | none ↦ err (storage (codes "decode agent boundaries"))
    | some names ↦ ok names
  ]

  unfoldable pub decode_agent_row : TokenRow → Result AgentToken
  unfolding new_boundaries parse_time parse_optional_time parse_names
  decode_agent_row r = do
    names ← parse_names r.boundaries
    boundaries ← new_boundaries names
    created_at ← parse_time r.created_at
    revoked_at ← parse_optional_time r.revoked_at
    ok (record {
      agent_name = r.agent_name;
      boundaries = boundaries;
      created_at = created_at;
      revoked_at = revoked_at;
    })

  -- The INSERT fails where the name, the primary key, or the hash, a unique index, is there.
  unfoldable pub register_agent_token :
      Text → Text → List Text → Time → Tokens → Result (Unit {0}) × Tokens
  register_agent_token name hash boundaries now rows = elim (C.names_json boundaries) [
    | err e ↦ (err e, rows)
    | panicked ↦ (panicked, rows)
    | ok json ↦
        if any (λ r. text_eq r.agent_name name || text_eq r.token_hash hash) rows
        then (err (storage (codes "register agent token")), rows)
        else (
          ok tt,
          rows
              ++ (record {
                agent_name = name;
                token_hash = hash;
                boundaries = json;
                created_at = C.to_rfc3339 now;
                revoked_at = none;
              }
                  ∷ []),
        )
  ]

  unfoldable pub lookup_agent_by_token_hash : Text → Tokens → Result (Option AgentToken)
  unfolding find_active decode_agent_row
  lookup_agent_by_token_hash hash rows = elim (find_active hash rows) [
    | none ↦ ok none
    | some r ↦ decode_agent_row r >>= λ a. ok (some a)
  ]

  unfoldable pub decode_all : Tokens → Result (List AgentToken)
  unfolding decode_agent_row
  decode_all [] = ok []
  decode_all (r ∷ rows) = decode_agent_row r >>= λ a. decode_all rows >>= λ rest. ok (a ∷ rest)

  unfoldable pub list_agent_tokens : Tokens → Result (List AgentToken)
  unfolding decode_all
  list_agent_tokens rows =
      decode_all (sort_by (λ (a b : TokenRow). text_le a.agent_name b.agent_name) rows)

  unfoldable pub set_agent_boundaries : Text → List Text → Tokens → Result Bool × Tokens
  unfolding update_active
  set_agent_boundaries name boundaries rows = elim (C.names_json boundaries) [
    | err e ↦ (err e, rows)
    | panicked ↦ (panicked, rows)
    | ok json ↦ let u = update_active name (rescope json) rows in (ok (u.0 == 1), u.1)
  ]

  unfoldable pub revoke_agent_token : Text → Time → Tokens → Result Bool × Tokens
  unfolding update_active
  revoke_agent_token name now rows =
      let u = update_active name (retire (C.to_rfc3339 now)) rows in (ok (u.0 == 1), u.1)
