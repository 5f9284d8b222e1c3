-- ===== src/Core/Error.antt =====
-- `VaultError` (crates/vault-core/src/error.rs). A message is its constant text: the values that
-- a `format!` puts into it are left out, except where a function reads the message.
use agent_memory_vault.Base.{ℕ, ◌≡◌, refl, ◌⊎◌, inl, inr, ◌≢◌}
use agent_memory_vault.Core.Text.{Text}

pub data VaultError : Type 0 where
  storage embedding llm retrieval consolidation mcp sync connector : Text → VaultError
  auth access_denied invalid_input : Text → VaultError
  -- expected, actual
  dimension_mismatch : ℕ → ℕ → VaultError
  -- file, expected, actual
  model_integrity_failed : Text → Text → Text → VaultError
  model_unavailable : Text → VaultError
  not_found crypto config io serde : Text → VaultError
  worker_spawn_failed mcp_bind_failed consolidator_busy : Text → VaultError
  consolidator_timeout : ℕ → VaultError
  keychain_provenance scheduler : Text → VaultError

-- What a call returns; `panicked` is the panic of an `expect`.
pub data Result {ℓ} (A : Type ℓ) : Type ℓ where
  ok : A → Result A
  err : VaultError → Result A
  panicked : Result A

infixl 5 ◌>>=◌ ◌>>◌
abbrev pub ◌>>=◌ {ℓ κ} : {A : Type ℓ} {B : Type κ} → Result A → (A → Result B) → Result B
ok a >>= f = f a
err e >>= f = err e
panicked >>= f = panicked

abbrev pub ◌>>◌ {ℓ} : {B : Type ℓ} → Result (Unit {0}) → Result B → Result B
m >> k = m >>= λ _. k

-- To split on a computed result and keep the equation.
pub Result-cases {ℓ} :
    {A : Type ℓ} (r : Result A)
    → ((a : A) × (r ≡ ok a)) ⊎ (((e : VaultError) × (r ≡ err e)) ⊎ (r ≡ panicked))
Result-cases (ok a) = inl (a, refl)
Result-cases (err e) = inr (inl (e, refl))
Result-cases panicked = inr (inr refl)

-- A sequence panics only where a part does.
pub then-safe {ℓ} :
    {B : Type ℓ} (m : Result (Unit {0})) (k : Result B)
    → m ≢ panicked
    → k ≢ panicked
    → (m >> k) ≢ panicked
then-safe (ok _) k h n = n
then-safe (err e) k h n = λ p. cc
then-safe panicked k h n = absurd (h refl)

-- A property of what a call returns, if it returns.
abbrev pub IfOk {ℓ} : {A : Type ℓ} → (A → Type 0) → Result A → Type 0
IfOk P (ok a) = P a
IfOk P (err e) = Unit
IfOk P panicked = Unit

-- The rule for a sequence.
pub IfOk-bind {ℓ κ} :
    {A : Type ℓ} {B : Type κ} (P : A → Type 0) (Q : B → Type 0) (m : Result A) (f : A → Result B)
    → IfOk P m
    → ((a : A) → P a → IfOk Q (f a))
    → IfOk Q (m >>= f)
IfOk-bind P Q (ok a) f h k = k a h
IfOk-bind P Q (err e) f h k = tt
IfOk-bind P Q panicked f h k = tt

-- Of what is not looked at there is nothing to show.
pub always : {A : Type 0} (r : Result A) → IfOk (λ _. Unit {0}) r
always (ok a) = tt
always (err e) = tt
always panicked = tt

-- What a check lets through.
pub after_check {ℓ} :
    {A : Type ℓ} (P : A → Type 0) (r : Result (Unit {0})) (a : A) → P a → IfOk P (r >> ok a)
after_check P (ok _) a h = h
after_check P (err e) a h = tt
after_check P panicked a h = tt

-- The rule for a weaker property.
pub IfOk-map {ℓ} :
    {A : Type ℓ} (P Q : A → Type 0) (r : Result A) → ((a : A) → P a → Q a) → IfOk P r → IfOk Q r
IfOk-map P Q (ok a) f h = f a h
IfOk-map P Q (err e) f h = tt
IfOk-map P Q panicked f h = tt
