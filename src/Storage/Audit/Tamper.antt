-- ===== src/Storage/Audit/Tamper.antt =====
-- Appending keeps the chain verifiable, and a chain that verifies fixes its events by its tip.
use agent_memory_vault.Base.{
  ℕ, ◌≡◌, ◌≢◌, ◌⊎◌, inl, inr, refl, sym, ap, ◌∙◌, true, false, [], ◌∷◌, ◌++◌, arith, length, map,
  Bool-cases, any, ◌==◌, append-injective,
}
use agent_memory_vault.Core.Text.{Text, text_eq, text_eq-eq, text_eq_refl}
use agent_memory_vault.Core.Error.{ok}
use agent_memory_vault.Core.Memory.{Time}
use agent_memory_vault.Storage.Audit.{PendingAuditEvent, AuditEvent, Log, audit_genesis_hash}
use agent_memory_vault.Storage.Audit.Chain.{
  Encoding, canonical_of, compute_event_hash, seal, tip_from, new_event, tx_append_audit,
  verify_from, verify_chain,
}

module _ (E : Encoding) where
  -- The two tests that `verify_chain` makes of an event.
  pub record Links (prev : Text) (e : AuditEvent) : Type 0 where
    pub prev_ok : e.prev_event_hash ≡ prev
    pub hash_ok : compute_event_hash E prev (canonical_of E e) ≡ e.event_hash

  verify_cons :
      (prev : Text) (e : AuditEvent) (log : Log)
      → Links prev e
      → verify_from E e.event_hash log ≡ ok tt
      → verify_from E prev (e ∷ log) ≡ ok tt
  unfolding verify_from
  verify_cons prev e log l h =
      let a : text_eq e.prev_event_hash prev ≡ true = rw l.prev_ok (text_eq_refl prev) in
      let b : text_eq (compute_event_hash E prev (canonical_of E e)) e.event_hash ≡ true =
        rw l.hash_ok (text_eq_refl e.event_hash) in
      rw (a, b) h

  verify_uncons :
      (prev : Text) (e : AuditEvent) (log : Log)
      → verify_from E prev (e ∷ log) ≡ ok tt
      → Links prev e × (verify_from E e.event_hash log ≡ ok tt)
  unfolding verify_from
  verify_uncons prev e log h = elim (Bool-cases (text_eq e.prev_event_hash prev)) [
    | inr f ↦ absurd (let bad = rw f at h in cc)
    | inl t ↦
        elim (Bool-cases (text_eq (compute_event_hash E prev (canonical_of E e)) e.event_hash)) [
          | inr f ↦ absurd (let bad = rw (t, f) at h in cc)
          | inl u ↦
              (record { prev_ok = text_eq-eq _ _ t; hash_ok = text_eq-eq _ _ u }, rw (t, u) at h)
        ]
  ]

  verify_snoc :
      (prev : Text) (log : Log) (x : AuditEvent)
      → verify_from E prev log ≡ ok tt
      → Links (tip_from prev log) x
      → verify_from E prev (log ++ (x ∷ [])) ≡ ok tt
  unfolding verify_from
  verify_snoc prev [] x h l = verify_cons prev x [] l refl
  verify_snoc prev (e ∷ log) x h l =
      let (first, rest) = verify_uncons prev e log h in
      verify_cons prev e (log ++ (x ∷ [])) first (verify_snoc e.event_hash log x rest l)

  new_event-Links :
      (id : ℕ) (t : Time) (p : PendingAuditEvent) (log : Log)
      → Links (tip_from audit_genesis_hash log) (new_event E id t p log)
  unfolding new_event seal canonical_of
  new_event-Links id t p log = record { prev_ok = refl; hash_ok = refl }

  pub new_event-verify_chain :
      (id : ℕ) (t : Time) (p : PendingAuditEvent) (log : Log)
      → verify_chain E log ≡ ok tt
      → verify_chain E (log ++ (new_event E id t p log ∷ [])) ≡ ok tt
  unfolding verify_chain
  new_event-verify_chain id t p log h =
      verify_snoc audit_genesis_hash log (new_event E id t p log) h (new_event-Links id t p log)

  -- An event with an id that is not in the log is appended, behind the events that were there, and
  -- a log that verified verifies again.
  pub tx_append_audit-verify_chain :
      (id : ℕ) (t : Time) (p : PendingAuditEvent) (log : Log)
      → any (λ e. e.event_id == id) log ≡ false
      → verify_chain E log ≡ ok tt
      → (e : AuditEvent) × (tx_append_audit E id t p log ≡ ok (e, log ++ (e ∷ [])))
        × (verify_chain E (log ++ (e ∷ [])) ≡ ok tt)
  unfolding tx_append_audit
  tx_append_audit-verify_chain id t p log fresh h =
      (new_event E id t p log, rw fresh refl, new_event-verify_chain id t p log h)

  -- Two different inputs with one hash.
  abbrev pub Collision : Type 0
  Collision = (x : Text) × (y : Text) × (x ≢ y) × (E.blake3_hex x ≡ E.blake3_hex y)

  -- The part of an event that its hash covers, with the two hashes.
  abbrev pub Sealed : Type 0
  Sealed = Text × Text × Text

  abbrev pub sealed : AuditEvent → Sealed
  sealed e = (canonical_of E e, e.prev_event_hash, e.event_hash)

module _ (E : Encoding) (hex_length : (x : Text) → length (E.blake3_hex x) ≡ 64) where
  -- Two events with one hash, each linked to its predecessor.
  same_link :
      (prev prev' : Text) (e e' : AuditEvent)
      → length prev ≡ 64
      → length prev' ≡ 64
      → Links E prev e
      → Links E prev' e'
      → e.event_hash ≡ e'.event_hash
      → Collision E ⊎ ((prev ≡ prev') × (sealed E e ≡ sealed E e'))
  unfolding compute_event_hash
  same_link prev prev' e e' n n' l l' h =
      let x : Text = prev ++ canonical_of E e in
      let y : Text = prev' ++ canonical_of E e' in
      let clash : E.blake3_hex x ≡ E.blake3_hex y = l.hash_ok ∙ h ∙ sym l'.hash_ok in
      elim (Bool-cases (text_eq x y)) [
        | inr f ↦ inl (
          x,
          y,
          (λ eq. absurd (let t : text_eq x y ≡ true = rw eq (text_eq_refl y) in cc)),
          clash,
        )
        | inl t ↦
            let (p, c) = append-injective prev prev' _ _ (n ∙ sym n') (text_eq-eq x y t) in
            let q : e.prev_event_hash ≡ e'.prev_event_hash = l.prev_ok ∙ p ∙ sym l'.prev_ok in
            inr (p, cc)
      ]

  hash_length : (prev : Text) (e : AuditEvent) → Links E prev e → length e.event_hash ≡ 64
  unfolding compute_event_hash
  hash_length prev e l = ap length (sym l.hash_ok) ∙ hex_length (prev ++ canonical_of E e)

  same_tip :
      (log log' : Log) (prev prev' : Text)
      → length prev ≡ 64
      → length prev' ≡ 64
      → verify_from E prev log ≡ ok tt
      → verify_from E prev' log' ≡ ok tt
      → length log ≡ length log'
      → tip_from prev log ≡ tip_from prev' log'
      → Collision E ⊎ ((prev ≡ prev') × (map (sealed E) log ≡ map (sealed E) log'))
  same_tip [] [] prev prev' n n' v v' k t = inr (t, refl)
  same_tip [] (_ ∷ _) prev prev' n n' v v' k t = absurd (omega arith)
  same_tip (_ ∷ _) [] prev prev' n n' v v' k t = absurd (omega arith)
  same_tip (e ∷ log) (e' ∷ log') prev prev' n n' v v' k t =
      let (l, w) = verify_uncons E prev e log v in
      let (l', w') = verify_uncons E prev' e' log' v' in
      elim (same_tip log log' e.event_hash e'.event_hash (hash_length prev e l)
        (hash_length prev' e' l') w w' (omega arith) t) [
          | inl c ↦ inl c
          | inr (h, rest) ↦ elim (same_link prev prev' e e' n n' l l' h) [
            | inl c ↦ inl c
            | inr (p, first) ↦ inr (p, cc)
          ]
        ]

  -- Of two logs of one length that verify and end in one hash, all events agree in their hashes and
  -- in the bytes that are hashed, or two different inputs with one BLAKE3 hash are found.
  pub verify_chain-tip :
      (log log' : Log)
      → verify_chain E log ≡ ok tt
      → verify_chain E log' ≡ ok tt
      → length log ≡ length log'
      → tip_from audit_genesis_hash log ≡ tip_from audit_genesis_hash log'
      → Collision E ⊎ (map (sealed E) log ≡ map (sealed E) log')
  unfolding verify_chain
  verify_chain-tip log log' v v' k t =
      elim (same_tip log log' audit_genesis_hash audit_genesis_hash refl refl v v' k t) [
        | inl c ↦ inl c
        | inr (_, same) ↦ inr same
      ]
