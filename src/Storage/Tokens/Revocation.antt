-- ===== src/Storage/Tokens/Revocation.antt =====
-- A revoked token never resolves again.
use agent_memory_vault.Base.{
  ◌≡◌, refl, subst, arith, true, none, some, List, [], Option-cases, inl, inr,
}
use agent_memory_vault.Core.Text.{Text}
use agent_memory_vault.Core.Error.{ok}
use agent_memory_vault.Core.Memory.{Time}
use agent_memory_vault.Storage.Tokens.{
  AgentToken, TokenRow, Tokens, TokenCodec, find_active, lookup_agent_by_token_hash,
  decode_agent_row, revoke_agent_token,
}
use agent_memory_vault.Storage.Tokens.Calls.{Call, IsUnique, perform_all}
use agent_memory_vault.Storage.Tokens.Unique.{perform_all-IsUnique}
use agent_memory_vault.Storage.Tokens.Dead.{dead-find_active, perform_all-IsDead, revoked-IsDead}

-- The name of what the lookup answers with is the row's.
decoded-name :
    (C : TokenCodec) (hash : Text) (rows : Tokens) (r : TokenRow) (agent : AgentToken)
    → find_active hash rows ≡ some r
    → lookup_agent_by_token_hash C hash rows ≡ ok (some agent)
    → r.agent_name ≡ agent.agent_name
unfolding lookup_agent_by_token_hash decode_agent_row
decoded-name C hash rows r agent found e = ground (arith, found, e)

-- A hash that resolves in a table that any calls have built from the empty one belongs to one agent:
-- revoking that agent succeeds, and from then on the hash resolves to nothing, whatever agents are
-- registered, re-scoped and revoked afterwards, also where the registration asks for that hash.
pub lookup_agent-revoke :
    (C : TokenCodec) (before calls : List Call) (hash : Text) (now : Time) (agent : AgentToken)
    → lookup_agent_by_token_hash C hash (perform_all C before []) ≡ ok (some agent)
    → ((revoke_agent_token C agent.agent_name now (perform_all C before [])).0 ≡ ok true)
      × (lookup_agent_by_token_hash C hash (
            perform_all C calls
              (revoke_agent_token C agent.agent_name now (perform_all C before [])).1)
          ≡ ok none)
unfolding lookup_agent_by_token_hash revoke_agent_token
lookup_agent-revoke C before calls hash now agent e =
    let rows = perform_all C before [] in
    let u : IsUnique rows = perform_all-IsUnique C before [] tt in
    elim (Option-cases (find_active hash rows)) [
      | inl absent ↦ absurd (ground (arith, absent, e))
      | inr (r, found) ↦
          let name : r.agent_name ≡ agent.agent_name = decoded-name C hash rows r agent found e in
          let (one, d) = revoked-IsDead hash (C.to_rfc3339 now) rows {r = r} u found in
          subst
            (λ (t : Text).
              ((revoke_agent_token C t now rows).0 ≡ ok true)
              × (lookup_agent_by_token_hash C hash
                    (perform_all C calls (revoke_agent_token C t now rows).1)
                  ≡ ok none))
            name
            (
              rw (revoke_agent_token, one) refl,
              rw
                  (
                    lookup_agent_by_token_hash,
                    dead-find_active hash
                        (perform_all C calls (revoke_agent_token C r.agent_name now rows).1)
                        (perform_all-IsDead hash C calls
                          (revoke_agent_token C r.agent_name now rows).1 d).revoked,
                  )
                  refl,
            )
    ]
