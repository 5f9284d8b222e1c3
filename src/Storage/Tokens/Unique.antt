-- ===== src/Storage/Tokens/Unique.antt =====
-- The keys of the table: no name and no hash stands in it twice.
use agent_memory_vault.Base.{
  ◌≡◌, refl, arith, false, ◌&&◌, ◌||◌, none, List, [], ◌∷◌, ◌++◌, any, Bool-cases, inl, inr,
}
use agent_memory_vault.Core.Text.{Text, text_eq}
use agent_memory_vault.Core.Error.{Result-cases}
use agent_memory_vault.Storage.Tokens.{
  TokenRow, Tokens, TokenCodec, is_active, register_agent_token, update_active, rescope, retire,
  set_agent_boundaries, revoke_agent_token,
}
use agent_memory_vault.Storage.Tokens.Calls.{
  Call, register, set_boundaries, revoke, has_hash, has_name, IsUnique, perform, perform_all,
  has_hash-update_active,
}

has_name-update_active :
    (n name : Text) (f : TokenRow → TokenRow) (rows : Tokens)
    → ((r : TokenRow) → (f r).agent_name ≡ r.agent_name)
    → has_name n (update_active name f rows).1 ≡ has_name n rows
unfolding update_active
has_name-update_active n name f [] keeps = refl
has_name-update_active n name f (r ∷ rows) keeps =
    ground (arith, keeps r, has_name-update_active n name f rows keeps)

update_active-IsUnique :
    (name : Text) (f : TokenRow → TokenRow) (rows : Tokens)
    → ((r : TokenRow) → (f r).agent_name ≡ r.agent_name)
    → ((r : TokenRow) → (f r).token_hash ≡ r.token_hash)
    → IsUnique rows
    → IsUnique (update_active name f rows).1
unfolding update_active
update_active-IsUnique name f [] kn kh u = tt
update_active-IsUnique name f (r ∷ rows) kn kh u =
    let rest = update_active-IsUnique name f rows kn kh u.1.1 in
    let names = has_name-update_active r.agent_name name f rows kn in
    let hashes = has_hash-update_active r.token_hash name f rows kh in
    elim (Bool-cases (text_eq r.agent_name name && is_active r)) [
      | inl hit ↦
          rw (update_active, hit, kn r, kh r)
            (ground (arith, names, u.0), (ground (arith, hashes, u.1.0), rest))
      | inr miss ↦
          rw (update_active, miss)
            (ground (arith, names, u.0), (ground (arith, hashes, u.1.0), rest))
    ]

-- Two names, or two hashes, compare alike either way.
text_eq-flip : (a b : Text) → text_eq a b ≡ text_eq b a
unfolding text_eq
text_eq-flip [] [] = refl
text_eq-flip [] (_ ∷ _) = refl
text_eq-flip (_ ∷ _) [] = refl
text_eq-flip (a ∷ s) (b ∷ t) = ground (arith, text_eq-flip s t)

has_name-snoc :
    (n : Text) (rows : Tokens) (r : TokenRow)
    → has_name n (rows ++ (r ∷ [])) ≡ (has_name n rows || text_eq r.agent_name n)
has_name-snoc n [] r = ground arith
has_name-snoc n (x ∷ rows) r = ground (arith, has_name-snoc n rows r)

has_hash-snoc_eq :
    (h : Text) (rows : Tokens) (r : TokenRow)
    → has_hash h (rows ++ (r ∷ [])) ≡ (has_hash h rows || text_eq r.token_hash h)
has_hash-snoc_eq h [] r = ground arith
has_hash-snoc_eq h (x ∷ rows) r = ground (arith, has_hash-snoc_eq h rows r)

snoc-IsUnique :
    (rows : Tokens) (r : TokenRow)
    → IsUnique rows
    → any (λ x. text_eq x.agent_name r.agent_name || text_eq x.token_hash r.token_hash) rows ≡ false
    → IsUnique (rows ++ (r ∷ []))
snoc-IsUnique [] r u f = (refl, (refl, tt))
snoc-IsUnique (x ∷ rows) r u f = (
  ground (arith, has_name-snoc x.agent_name rows r, text_eq-flip x.agent_name r.agent_name, f, u.0),
  (
    ground (
      arith,
      has_hash-snoc_eq x.token_hash rows r,
      text_eq-flip x.token_hash r.token_hash,
      f,
      u.1.0,
    ),
    snoc-IsUnique rows r u.1.1 (ground (arith, f)),
  ),
)

perform-IsUnique :
    (C : TokenCodec) (c : Call) (rows : Tokens) → IsUnique rows → IsUnique (perform C c rows)
unfolding register_agent_token set_agent_boundaries revoke_agent_token
perform-IsUnique C (register name h boundaries now) rows u =
    elim (Result-cases (C.names_json boundaries)) [
      | inl (json, e) ↦
          elim (Bool-cases (any (λ r. text_eq r.agent_name name || text_eq r.token_hash h) rows)) [
            | inl taken ↦ rw (perform, register_agent_token, e, taken) u
            | inr free ↦
                rw (perform, register_agent_token, e, free)
                  (snoc-IsUnique rows
                    (record {
                      agent_name = name;
                      token_hash = h;
                      boundaries = json;
                      created_at = C.to_rfc3339 now;
                      revoked_at = none;
                    })
                    u free)
          ]
      | inr (inl (why, e)) ↦ rw (perform, register_agent_token, e) u
      | inr (inr e) ↦ rw (perform, register_agent_token, e) u
    ]
perform-IsUnique C (set_boundaries name boundaries) rows u =
    elim (Result-cases (C.names_json boundaries)) [
      | inl (json, e) ↦
          rw (perform, set_agent_boundaries, e)
            (update_active-IsUnique name (rescope json) rows (λ r. refl) (λ r. refl) u)
      | inr (inl (why, e)) ↦ rw (perform, set_agent_boundaries, e) u
      | inr (inr e) ↦ rw (perform, set_agent_boundaries, e) u
    ]
perform-IsUnique C (revoke name now) rows u =
    update_active-IsUnique name (retire (C.to_rfc3339 now)) rows (λ r. refl) (λ r. refl) u

pub perform_all-IsUnique :
    (C : TokenCodec) (calls : List Call) (rows : Tokens)
    → IsUnique rows
    → IsUnique (perform_all C calls rows)
perform_all-IsUnique C [] rows u = u
perform_all-IsUnique C (c ∷ cs) rows u =
    perform_all-IsUnique C cs (perform C c rows) (perform-IsUnique C c rows u)
