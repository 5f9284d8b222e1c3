-- ===== src/Storage/Tokens/Dead.antt =====
-- A hash whose rows are revoked stays so.
use agent_memory_vault.Base.{
  ◌≡◌, refl, sym, subst, ◌∙◌, arith, true, false, ◌&&◌, ◌||◌, none, some, List, [], ◌∷◌, ◌++◌, any,
  All, Bool-cases, inl, inr,
}
use agent_memory_vault.Base.Table.Rows.{All-snoc}
use agent_memory_vault.Core.Text.{Text, text_eq, text_eq-eq, text_eq_refl}
use agent_memory_vault.Core.Error.{Result-cases}
use agent_memory_vault.Storage.Tokens.{
  TokenRow, Tokens, TokenCodec, is_active, register_agent_token, find_active, update_active,
  rescope, retire, set_agent_boundaries, revoke_agent_token,
}
use agent_memory_vault.Storage.Tokens.Calls.{
  Call, register, set_boundaries, revoke, has_hash, has_name, IsUnique, perform, perform_all,
  has_hash-update_active,
}

-- The hash is in the table, in rows that are revoked.
pub record IsDead (hash : Text) (rows : Tokens) : Type 0 where
  pub there : has_hash hash rows ≡ true
  pub revoked : All (λ r. (text_eq r.token_hash hash && is_active r) ≡ false) rows

pub dead-find_active :
    (hash : Text) (rows : Tokens)
    → All (λ r. (text_eq r.token_hash hash && is_active r) ≡ false) rows
    → find_active hash rows ≡ none
unfolding find_active
dead-find_active hash [] h = refl
dead-find_active hash (r ∷ rows) h = ground (arith, h.0, dead-find_active hash rows h.1)

not_there :
    (x r : TokenRow) (rows : Tokens)
    → has_name x.agent_name rows ≡ false
    → has_name r.agent_name rows ≡ true
    → text_eq x.agent_name r.agent_name ≡ false
not_there x r rows h t = elim (Bool-cases (text_eq x.agent_name r.agent_name)) [
  | inr other ↦ other
  | inl same ↦
      let taken : has_name x.agent_name rows ≡ true =
        subst (λ n. has_name n rows ≡ true) (sym (text_eq-eq x.agent_name r.agent_name same)) t in
      absurd (ground (arith, taken, h))
]

free-has_hash :
    (name h : Text) (rows : Tokens)
    → any (λ r. text_eq r.agent_name name || text_eq r.token_hash h) rows ≡ false
    → has_hash h rows ≡ false
free-has_hash name h [] f = refl
free-has_hash name h (r ∷ rows) f = ground (arith, f, free-has_hash name h rows)

has_hash-snoc :
    (hash : Text) (rows : Tokens) (r : TokenRow)
    → has_hash hash rows ≡ true
    → has_hash hash (rows ++ (r ∷ [])) ≡ true
has_hash-snoc hash [] r h = absurd (ground (arith, h))
has_hash-snoc hash (x ∷ rows) r h = ground (arith, h, has_hash-snoc hash rows r)

module _ (hash : Text) where
  fresh-hash :
      (name h : Text) (rows : Tokens)
      → any (λ r. text_eq r.agent_name name || text_eq r.token_hash h) rows ≡ false
      → has_hash hash rows ≡ true
      → text_eq h hash ≡ false
  fresh-hash name h rows free there = elim (Bool-cases (text_eq h hash)) [
    | inr other ↦ other
    | inl same ↦
        let taken : has_hash h rows ≡ true =
          subst (λ t. has_hash t rows ≡ true) (sym (text_eq-eq h hash same)) there in
        absurd (ground (arith, taken, free-has_hash name h rows free))
  ]

  snoc-IsDead :
      (rows : Tokens) (r : TokenRow)
      → text_eq r.token_hash hash ≡ false
      → IsDead hash rows
      → IsDead hash (rows ++ (r ∷ []))
  snoc-IsDead rows r other d = record {
    there = has_hash-snoc hash rows r d.there;
    revoked =
        All-snoc (λ r. (text_eq r.token_hash hash && is_active r) ≡ false) rows r d.revoked
          (rw other refl);
  }

  update_active-dead :
      (name : Text) (f : TokenRow → TokenRow) (rows : Tokens)
      → ((r : TokenRow)
          → (text_eq r.token_hash hash && is_active r) ≡ false
          → (text_eq (f r).token_hash hash && is_active (f r)) ≡ false)
      → All (λ r. (text_eq r.token_hash hash && is_active r) ≡ false) rows
      → All (λ r. (text_eq r.token_hash hash && is_active r) ≡ false) (update_active name f rows).1
  unfolding update_active
  update_active-dead name f [] keeps h = tt
  update_active-dead name f (r ∷ rows) keeps h =
      let rest = update_active-dead name f rows keeps h.1 in
      elim (Bool-cases (text_eq r.agent_name name && is_active r)) [
        | inl hit ↦ rw (update_active, hit) (keeps r h.0, rest)
        | inr miss ↦ rw (update_active, miss) (h.0, rest)
      ]

  update_active-IsDead :
      (name : Text) (f : TokenRow → TokenRow) (rows : Tokens)
      → ((r : TokenRow) → (f r).token_hash ≡ r.token_hash)
      → ((r : TokenRow) → is_active r ≡ false → is_active (f r) ≡ false)
      → IsDead hash rows
      → IsDead hash (update_active name f rows).1
  update_active-IsDead name f rows keeps stays d = record {
    there = has_hash-update_active hash name f rows keeps ∙ d.there;
    revoked = update_active-dead name f rows (λ r h. ground (arith, h, keeps r, stays r)) d.revoked;
  }

  perform-IsDead :
      (C : TokenCodec) (c : Call) (rows : Tokens)
      → IsDead hash rows
      → IsDead hash (perform C c rows)
  unfolding register_agent_token set_agent_boundaries revoke_agent_token
  perform-IsDead C (register name h boundaries now) rows d =
      elim (Result-cases (C.names_json boundaries)) [
        | inl (json, e) ↦
            elim (Bool-cases
              (any (λ r. text_eq r.agent_name name || text_eq r.token_hash h) rows)) [
                | inl taken ↦ rw (perform, register_agent_token, e, taken) d
                | inr free ↦
                    rw (perform, register_agent_token, e, free)
                      (snoc-IsDead rows
                        (record {
                          agent_name = name;
                          token_hash = h;
                          boundaries = json;
                          created_at = C.to_rfc3339 now;
                          revoked_at = none;
                        })
                        (fresh-hash name h rows free d.there) d)
              ]
        | inr (inl (why, e)) ↦ rw (perform, register_agent_token, e) d
        | inr (inr e) ↦ rw (perform, register_agent_token, e) d
      ]
  perform-IsDead C (set_boundaries name boundaries) rows d =
      elim (Result-cases (C.names_json boundaries)) [
        | inl (json, e) ↦
            rw (perform, set_agent_boundaries, e)
              (update_active-IsDead name (rescope json) rows (λ r. refl) (λ r h. h) d)
        | inr (inl (why, e)) ↦ rw (perform, set_agent_boundaries, e) d
        | inr (inr e) ↦ rw (perform, set_agent_boundaries, e) d
      ]
  perform-IsDead C (revoke name now) rows d =
      update_active-IsDead name (retire (C.to_rfc3339 now)) rows (λ r. refl) (λ r h. refl) d

  pub perform_all-IsDead :
      (C : TokenCodec) (calls : List Call) (rows : Tokens)
      → IsDead hash rows
      → IsDead hash (perform_all C calls rows)
  perform_all-IsDead C [] rows d = d
  perform_all-IsDead C (c ∷ cs) rows d =
      perform_all-IsDead C cs (perform C c rows) (perform-IsDead C c rows d)

  -- No other row has the hash.
  unique-dead :
      (rows : Tokens)
      → has_hash hash rows ≡ false
      → All (λ r. (text_eq r.token_hash hash && is_active r) ≡ false) rows
  unique-dead [] h = tt
  unique-dead (r ∷ rows) h = (ground (arith, h), unique-dead rows (ground (arith, h)))

  update_active-miss :
      (name : Text) (f : TokenRow → TokenRow) (rows : Tokens)
      → has_name name rows ≡ false
      → update_active name f rows ≡ (0, rows)
  unfolding update_active
  update_active-miss name f [] h = refl
  update_active-miss name f (r ∷ rows) h = ground (arith, h, update_active-miss name f rows)

  -- The row that is found has a name of the table.
  find_active-has_name :
      (rows : Tokens) {r : TokenRow}
      → find_active hash rows ≡ some r
      → has_name r.agent_name rows ≡ true
  unfolding find_active
  find_active-has_name [] {r = r} e = absurd (ground (arith, e))
  find_active-has_name (x ∷ rows) {r = r} e =
      elim (Bool-cases (text_eq x.token_hash hash && is_active x)) [
        | inl hit ↦
            let same : x ≡ r = ground (arith, hit, e) in
            subst (λ t. has_name t.agent_name (x ∷ rows) ≡ true) same
              (rw (text_eq_refl x.agent_name) refl)
        | inr miss ↦
            let below : has_name r.agent_name rows ≡ true =
              find_active-has_name rows {r = r} (ground (arith, miss, e)) in
            ground (arith, below)
      ]

  cons-IsDead :
      (r : TokenRow) (rows : Tokens)
      → (text_eq r.token_hash hash && is_active r) ≡ false
      → IsDead hash rows
      → IsDead hash (r ∷ rows)
  cons-IsDead r rows h d = record { there = ground (arith, d.there); revoked = (h, d.revoked) }

  retired-IsDead :
      (now : Text) (x : TokenRow) (rows : Tokens)
      → IsUnique (x ∷ rows)
      → (text_eq x.token_hash hash && is_active x) ≡ true
      → ((update_active x.agent_name (retire now) (x ∷ rows)).0 ≡ 1)
        × IsDead hash (update_active x.agent_name (retire now) (x ∷ rows)).1
  unfolding update_active
  retired-IsDead now x rows u hit =
      let chosen : (text_eq x.agent_name x.agent_name && is_active x) ≡ true =
        ground (arith, hit, text_eq_refl x.agent_name) in
      let same : x.token_hash ≡ hash = text_eq-eq x.token_hash hash (ground (arith, hit)) in
      let alone : has_hash hash rows ≡ false = subst (λ t. has_hash t rows ≡ false) same u.1.0 in
      rw (update_active, chosen, update_active-miss x.agent_name (retire now) rows u.0)
        (
          refl,
          record { there = ground (arith, hit); revoked = (ground arith, unique-dead rows alone) },
        )

  -- The agent that the hash resolves to is revoked, alone, and its hash is dead.
  pub revoked-IsDead :
      (now : Text) (rows : Tokens) {r : TokenRow}
      → IsUnique rows
      → find_active hash rows ≡ some r
      → ((update_active r.agent_name (retire now) rows).0 ≡ 1)
        × IsDead hash (update_active r.agent_name (retire now) rows).1
  unfolding find_active update_active
  revoked-IsDead now [] {r = r} u e = absurd (ground (arith, e))
  revoked-IsDead now (x ∷ rows) {r = r} u e =
      elim (Bool-cases (text_eq x.token_hash hash && is_active x)) [
        | inl hit ↦
            let same : x ≡ r = ground (arith, hit, e) in
            subst
              (λ (t : TokenRow).
                ((update_active t.agent_name (retire now) (x ∷ rows)).0 ≡ 1)
                × IsDead hash (update_active t.agent_name (retire now) (x ∷ rows)).1)
              same (retired-IsDead now x rows u hit)
        | inr miss ↦
            let found : find_active hash rows ≡ some r = ground (arith, miss, e) in
            let there = find_active-has_name rows {r = r} found in
            let other : text_eq x.agent_name r.agent_name ≡ false = not_there x r rows u.0 there in
            let rest = revoked-IsDead now rows {r = r} u.1.1 found in
            rw (update_active, other) (rest.0, cons-IsDead x _ miss rest.1)
      ]
