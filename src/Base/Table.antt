-- ===== src/Base/Table.antt =====
-- A table of rows with a numeric key, as the statements on one key see it: `SELECT`, `DELETE`,
-- `UPDATE` and `INSERT` with a primary key.
pub mod Rows
use agent_memory_vault.Base.{
  ℕ, ◌+◌, ◌≤◌, suc, ◌≡◌, refl, ◌≢◌, Bool, true, false, Option, none, some, List, [], ◌∷◌, ◌++◌,
  arith, ◌==◌, length,
}

module _ {ℓ} {R : Type ℓ} (key : R → ℕ) where
  abbrev pub select : ℕ → List R → Option R
  select k [] = none
  select k (r ∷ t) = elim (key r == k) [ true ↦ some r | false ↦ select k t ]

  abbrev pub delete : ℕ → List R → List R
  delete k [] = []
  delete k (r ∷ t) = elim (key r == k) [ true ↦ delete k t | false ↦ r ∷ delete k t ]

  abbrev pub update : ℕ → (R → R) → List R → List R
  update k f [] = []
  update k f (r ∷ t) = elim (key r == k) [ true ↦ f r ∷ update k f t | false ↦ r ∷ update k f t ]

  -- No two rows have one key.
  abbrev pub IsKeyed : List R → Type ℓ
  IsKeyed [] = Unit
  IsKeyed (r ∷ t) = (select (key r) t ≡ none) × IsKeyed t

module _ {ℓ} {R : Type ℓ} (key : R → ℕ) where
  -- After a `DELETE` the key is gone.
  pub select-delete_self : (k : ℕ) (t : List R) → select key k (delete key k t) ≡ none
  select-delete_self k [] = refl
  select-delete_self k (r ∷ t) = ground (arith, select-delete_self k t)

  -- and no other key is touched.
  pub select-delete_ne :
      (j k : ℕ) (t : List R) → j ≢ k → select key j (delete key k t) ≡ select key j t
  select-delete_ne j k [] h = refl
  select-delete_ne j k (r ∷ t) h = ground (arith, select-delete_ne j k t h)

  pub select-append :
      (k : ℕ) (s t : List R) → select key k s ≡ none → select key k (s ++ t) ≡ select key k t
  select-append k [] t h = refl
  select-append k (r ∷ s) t h = ground (arith, select-append k s t)

  pub select-append_some :
      (k : ℕ) {x : R} (s t : List R) → select key k s ≡ some x → select key k (s ++ t) ≡ some x
  select-append_some k {x = x} [] t h = cc
  select-append_some k {x = x} (r ∷ s) t h = ground (arith, select-append_some k {x = x} s t)

  -- A row that is found has the key that was asked for.
  pub key-select : (k : ℕ) (t : List R) {x : R} → select key k t ≡ some x → key x ≡ k
  key-select k [] {x = x} h = cc
  key-select k (r ∷ t) {x = x} h = ground (arith, key-select k t {x = x})

  pub delete-eq_self : (k : ℕ) (t : List R) → select key k t ≡ none → delete key k t ≡ t
  delete-eq_self k [] h = refl
  delete-eq_self k (r ∷ t) h = ground (arith, delete-eq_self k t)

  pub select-delete-none :
      (j k : ℕ) (t : List R) → select key j t ≡ none → select key j (delete key k t) ≡ none
  select-delete-none j k [] h = refl
  select-delete-none j k (r ∷ t) h = ground (arith, select-delete-none j k t)

  pub delete-IsKeyed : (k : ℕ) (t : List R) → IsKeyed key t → IsKeyed key (delete key k t)
  delete-IsKeyed k [] h = tt
  delete-IsKeyed k (r ∷ t) h =
      ground (arith, delete-IsKeyed k t h.1, select-delete-none (key r) k t h.0)

  -- A keyed table loses exactly the one row.
  pub length-delete :
      (k : ℕ) (t : List R) {x : R}
      → IsKeyed key t
      → select key k t ≡ some x
      → suc (length (delete key k t)) ≡ length t
  length-delete k [] {x = x} h e = cc
  length-delete k (r ∷ t) {x = x} h e =
      ground (arith, length-delete k t {x = x} h.1, delete-eq_self (key r) t h.0)

  pub length-update : (k : ℕ) (f : R → R) (t : List R) → length (update key k f t) ≡ length t
  length-update k f [] = refl
  length-update k f (r ∷ t) = ground (arith, length-update k f t)

module _ {ℓ} {R : Type ℓ} (key : R → ℕ) (f : R → R) (keeps : (r : R) → key (f r) ≡ key r) where
  -- An `UPDATE` that leaves the key alone changes the one row.
  pub select-update_self :
      (k : ℕ) (t : List R) {x : R}
      → select key k t ≡ some x
      → select key k (update key k f t) ≡ some (f x)
  select-update_self k [] {x = x} h = cc
  select-update_self k (r ∷ t) {x = x} h = ground (arith, keeps r, select-update_self k t {x = x})

  pub select-update_ne :
      (j k : ℕ) (t : List R) → j ≢ k → select key j (update key k f t) ≡ select key j t
  select-update_ne j k [] h = refl
  select-update_ne j k (r ∷ t) h = ground (arith, keeps r, select-update_ne j k t h)

  pub select-update-none :
      (j k : ℕ) (t : List R) → select key j t ≡ none → select key j (update key k f t) ≡ none
  select-update-none j k [] h = refl
  select-update-none j k (r ∷ t) h = ground (arith, keeps r, select-update-none j k t)

  pub update-IsKeyed : (k : ℕ) (t : List R) → IsKeyed key t → IsKeyed key (update key k f t)
  update-IsKeyed k [] h = tt
  update-IsKeyed k (r ∷ t) h =
      ground (arith, keeps r, update-IsKeyed k t h.1, select-update-none (key r) k t h.0)
