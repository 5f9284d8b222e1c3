-- ===== src/Base/Table/Rows.antt =====
-- What the statements on one key do to predicates on all rows, and the row that is put at the end.
use agent_memory_vault.Base.{
  ℕ, ◌≡◌, refl, sym, subst, inl, inr, ◌⊎◌, ◌≢◌, Bool, true, false, ◌||◌, none, some, List, [], ◌∷◌,
  ◌++◌, arith, ◌==◌, any, All, Bool-cases, length, ◌+◌,
}
use agent_memory_vault.Base.Table.{select, delete, update, IsKeyed}

module _ {ℓ} {R : Type ℓ} (key : R → ℕ) where
  select_cases :
      (k : ℕ) (r : R) (t : List R) {x : R}
      → select key k (r ∷ t) ≡ some x
      → (r ≡ x) ⊎ (select key k t ≡ some x)
  select_cases k r t h = ground arith

  pub All-delete {κ} : (P : R → Type κ) (k : ℕ) (t : List R) → All P t → All P (delete key k t)
  All-delete P k [] h = tt
  All-delete P k (r ∷ t) h = ground (arith, All-delete P k t h.1)

  pub any-delete :
      (p : R → Bool) (k : ℕ) (t : List R) → any p t ≡ false → any p (delete key k t) ≡ false
  any-delete p k [] h = refl
  any-delete p k (r ∷ t) h = ground (arith, any-delete p k t)

  pub All-update {κ} :
      (P : R → Type κ) (k : ℕ) (f : R → R) (t : List R)
      → ((r : R) → P r → P (f r))
      → All P t
      → All P (update key k f t)
  All-update P k f [] keep h = tt
  All-update P k f (r ∷ t) keep h = ground (arith, All-update P k f t keep h.1, keep r h.0)

  pub any-update :
      (p : R → Bool) (k : ℕ) (f : R → R) (t : List R)
      → ((r : R) → p (f r) ≡ p r)
      → any p (update key k f t) ≡ any p t
  any-update p k f [] keep = refl
  any-update p k f (r ∷ t) keep = ground (arith, any-update p k f t keep, keep r)

  -- A key that no row has.
  pub select-none : (k : ℕ) (t : List R) → any (λ r. key r == k) t ≡ false → select key k t ≡ none
  select-none k [] h = refl
  select-none k (r ∷ t) h = ground (arith, select-none k t)

  pub All-select {κ} :
      (P : R → Type κ) (k : ℕ) (t : List R) {x : R} → All P t → select key k t ≡ some x → P x
  All-select P k [] {x = x} h e = absurd (cc)
  All-select P k (r ∷ t) {x = x} h e = elim (select_cases k r t {x = x} e) [
    | inl same ↦ subst P same h.0
    | inr later ↦ All-select P k t {x = x} h.1 later
  ]

  pub any_key :
      (k : ℕ) (t : List R) {x : R} → select key k t ≡ some x → any (λ r. key r == k) t ≡ true
  any_key k [] {x = x} h = cc
  any_key k (r ∷ t) {x = x} h = ground (arith, any_key k t {x = x})

  pub select-snoc_ne :
      (k : ℕ) (t : List R) (x : R)
      → select key k t ≡ none
      → key x ≢ k
      → select key k (t ++ (x ∷ [])) ≡ none
  select-snoc_ne k [] x h n = ground arith
  select-snoc_ne k (r ∷ t) x h n = ground (arith, select-snoc_ne k t x)

  select_head : (k : ℕ) (r : R) (t : List R) → select key k (r ∷ t) ≡ none → key r ≢ k
  select_head k r t n e = ground arith

  select_tail : (k : ℕ) (r : R) (t : List R) → select key k (r ∷ t) ≡ none → select key k t ≡ none
  select_tail k r t n = ground arith

  pub snoc-IsKeyed :
      (t : List R) (x : R)
      → IsKeyed key t
      → select key (key x) t ≡ none
      → IsKeyed key (t ++ (x ∷ []))
  snoc-IsKeyed [] x h n = (refl, tt)
  snoc-IsKeyed (r ∷ t) x h n = (
    select-snoc_ne (key r) t x h.0 (λ e. select_head (key x) r t n (sym e)),
    snoc-IsKeyed t x h.1 (select_tail (key x) r t n),
  )

module _ {ℓ} {R : Type ℓ} where
  pub All-snoc {κ} : (P : R → Type κ) (t : List R) (x : R) → All P t → P x → All P (t ++ (x ∷ []))
  All-snoc P [] x h p = (p, tt)
  All-snoc P (r ∷ t) x h p = (h.0, All-snoc P t x h.1 p)

  pub any-snoc :
      (p : R → Bool) (t : List R) (x : R)
      → any p t ≡ false
      → p x ≡ false
      → any p (t ++ (x ∷ [])) ≡ false
  any-snoc p [] x h e = ground arith
  any-snoc p (r ∷ t) x h e = ground (arith, any-snoc p t x)

  pub any_left : (p q : R → Bool) (t : List R) → any (λ r. p r || q r) t ≡ false → any p t ≡ false
  any_left p q [] h = refl
  any_left p q (r ∷ t) h = ground (arith, any_left p q t)

  pub any_right : (p q : R → Bool) (t : List R) → any (λ r. p r || q r) t ≡ false → any q t ≡ false
  any_right p q [] h = refl
  any_right p q (r ∷ t) h = ground (arith, any_right p q t)

  pub length-snoc : (t : List R) (x : R) → length (t ++ (x ∷ [])) ≡ length t + 1
  length-snoc [] x = omega arith
  length-snoc (r ∷ t) x = omega (arith, length-snoc t x)

module _ {ℓ} {R : Type ℓ} (key : R → ℕ) where
  -- A row that is put at the end is found only under its own key.
  pub select-snoc_other :
      (k : ℕ) (t : List R) (x : R) → key x ≢ k → select key k (t ++ (x ∷ [])) ≡ select key k t
  select-snoc_other k [] x n = ground arith
  select-snoc_other k (r ∷ t) x n = ground (arith, select-snoc_other k t x)

  pub select-snoc_self :
      (t : List R) (x : R)
      → select key (key x) t ≡ none
      → select key (key x) (t ++ (x ∷ [])) ≡ some x
  select-snoc_self [] x n = ground arith
  select-snoc_self (r ∷ t) x n = ground (arith, select-snoc_self t x)

  pub select-some :
      (k : ℕ) (t : List R) → any (λ r. key r == k) t ≡ true → (x : R) × (select key k t ≡ some x)
  select-some k [] h = absurd (cc)
  select-some k (r ∷ t) h = elim (Bool-cases (key r == k)) [
    | inl here ↦ (r, rw (here, select) refl)
    | inr later ↦ let (x, there) = select-some k t (ground arith) in (x, rw (later, select) there)
  ]

  -- An `UPDATE` that sets every column of a row, the key among them.
  pub select-update_const-none :
      (j : ℕ) (x : R) (t : List R)
      → select key j t ≡ none
      → select key j (update key (key x) (λ _. x) t) ≡ none
  select-update_const-none j x [] h = refl
  select-update_const-none j x (r ∷ t) h = ground (arith, select-update_const-none j x t)

  pub update_const-IsKeyed :
      (x : R) (t : List R) → IsKeyed key t → IsKeyed key (update key (key x) (λ _. x) t)
  update_const-IsKeyed x [] h = tt
  update_const-IsKeyed x (r ∷ t) h = elim (Bool-cases (key r == key x)) [
    | inl same ↦
        let k : key r ≡ key x = ground arith in
        rw (same, update)
          (
            subst (λ i. select key i (update key (key x) (λ _. x) t) ≡ none) k
                (select-update_const-none (key r) x t h.0),
            update_const-IsKeyed x t h.1,
          )
    | inr other ↦
        rw (other, update) (select-update_const-none (key r) x t h.0, update_const-IsKeyed x t h.1)
  ]

  pub select-update_const :
      (x : R) (t : List R)
      → any (λ r. key r == key x) t ≡ true
      → select key (key x) (update key (key x) (λ _. x) t) ≡ some x
  select-update_const x [] h = absurd (cc)
  select-update_const x (r ∷ t) h = ground (arith, select-update_const x t)

module _ {ℓ κ} {R : Type ℓ} (key : R → ℕ) (P : R → Type κ) where
  -- The row that is found has what all rows have.
  pub select-All : (k : ℕ) (t : List R) {x : R} → All P t → select key k t ≡ some x → P x
  select-All k [] {x = x} h e = absurd (ground (arith, e))
  select-All k (r ∷ t) {x = x} h e = elim (Bool-cases (key r == k)) [
    | inl hit ↦ subst P (ground (arith, hit, e)) h.0
    | inr miss ↦ select-All k t {x = x} h.1 (ground (arith, miss, e))
  ]
