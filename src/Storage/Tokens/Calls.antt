-- ===== src/Storage/Tokens/Calls.antt =====
-- Any sequence of calls on the table of tokens.
use agent_memory_vault.Base.{◌≡◌, refl, arith, Bool, false, List, [], ◌∷◌, any}
use agent_memory_vault.Core.Text.{Text, text_eq}
use agent_memory_vault.Core.Memory.{Time}
use agent_memory_vault.Storage.Tokens.{
  TokenRow, Tokens, TokenCodec, register_agent_token, update_active, set_agent_boundaries,
  revoke_agent_token,
}

-- The calls that change the table.
pub data Call : Type 0 where
  register : Text → Text → List Text → Time → Call
  set_boundaries : Text → List Text → Call
  revoke : Text → Time → Call

abbrev pub has_hash : Text → Tokens → Bool
has_hash hash rows = any (λ r. text_eq r.token_hash hash) rows

abbrev pub has_name : Text → Tokens → Bool
has_name name rows = any (λ r. text_eq r.agent_name name) rows

-- No name and no hash stands in the table twice.
abbrev pub IsUnique : Tokens → Type 0
IsUnique [] = Unit
IsUnique (r ∷ rows) =
    (has_name r.agent_name rows ≡ false) × ((has_hash r.token_hash rows ≡ false) × IsUnique rows)

module _ (C : TokenCodec) where
  abbrev pub perform : Call → Tokens → Tokens
  perform (register name hash boundaries now) rows =
      (register_agent_token C name hash boundaries now rows).1
  perform (set_boundaries name boundaries) rows = (set_agent_boundaries C name boundaries rows).1
  perform (revoke name now) rows = (revoke_agent_token C name now rows).1

  abbrev pub perform_all : List Call → Tokens → Tokens
  perform_all [] rows = rows
  perform_all (c ∷ cs) rows = perform_all cs (perform c rows)

pub has_hash-update_active :
    (hash name : Text) (f : TokenRow → TokenRow) (rows : Tokens)
    → ((r : TokenRow) → (f r).token_hash ≡ r.token_hash)
    → has_hash hash (update_active name f rows).1 ≡ has_hash hash rows
unfolding update_active
has_hash-update_active hash name f [] keeps = refl
has_hash-update_active hash name f (r ∷ rows) keeps =
    ground (arith, keeps r, has_hash-update_active hash name f rows keeps)
