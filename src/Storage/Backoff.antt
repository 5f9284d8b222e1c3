-- ===== src/Storage/Backoff.antt =====
-- The retry schedule and the permanent-failure classifier
-- (crates/vault-storage/src/retry_queue.rs). The `f64` arithmetic of the jitter is a parameter.
pub mod Bounds
use agent_memory_vault.Base.{
  ℕ, zero, suc, ◌+◌, Bool, true, false, ◌||◌, Option, none, some, ltb, leb, if◌then◌else◌,
}
use agent_memory_vault.Core.Text.{Text, codes, contains}
use agent_memory_vault.Core.Error.{VaultError, dimension_mismatch, access_denied, storage}
use agent_memory_vault.Core.Memory.{Time, milliseconds}

abbrev pub max_attempts : ℕ
max_attempts = 8

-- `base_backoff_secs`: the match of the source, its last arm the catch-all.
unfoldable pub base_backoff_secs : ℕ → Option ℕ
base_backoff_secs zero = some 1
base_backoff_secs (suc zero) = some 2
base_backoff_secs (suc (suc zero)) = some 4
base_backoff_secs (suc (suc (suc zero))) = some 8
base_backoff_secs (suc (suc (suc (suc zero)))) = some 16
base_backoff_secs (suc (suc (suc (suc (suc zero))))) = some 30
base_backoff_secs (suc (suc (suc (suc (suc (suc zero)))))) = some 60
base_backoff_secs (suc (suc (suc (suc (suc (suc (suc zero))))))) = some 120
base_backoff_secs (suc (suc (suc (suc (suc (suc (suc (suc n)))))))) = none

-- The operations of `f64` that the jitter uses. `to_i64` is the saturating cast `as i64`, of a
-- value that `max(0.0)` has made non-negative.
pub record F64 : Type 1 where
  pub Carrier : Type 0
  pub of_nat : ℕ → Carrier
  pub minus_one : Carrier
  pub quarter : Carrier
  pub add : Carrier → Carrier → Carrier
  pub mul : Carrier → Carrier → Carrier
  pub clamp : Carrier → Carrier → Carrier → Carrier
  pub f64_max : Carrier → Carrier → Carrier
  pub to_i64 : Carrier → ℕ

module _ (F : F64) where
  open F use {Carrier, of_nat, minus_one, quarter, add, mul, clamp, f64_max, to_i64}

  -- `(scaled * 1000.0).max(0.0) as i64`, the delay in milliseconds.
  unfoldable pub jittered_delay_ms : ℕ → Carrier → ℕ
  jittered_delay_ms base_secs jitter_factor =
      let factor = clamp jitter_factor minus_one (of_nat 1) in
      let scaled = mul (of_nat base_secs) (add (of_nat 1) (mul quarter factor)) in
      to_i64 (f64_max (mul scaled (of_nat 1000)) (of_nat 0))

  unfoldable pub compute_next_attempt : ℕ → Time → Carrier → Option Time
  unfolding base_backoff_secs jittered_delay_ms
  compute_next_attempt attempts_made now jitter_factor = elim (base_backoff_secs attempts_made) [
    | none ↦ none
    | some base_secs ↦ some (now + milliseconds (jittered_delay_ms base_secs jitter_factor))
  ]

unfoldable pub is_permanent : VaultError → Bool
is_permanent (dimension_mismatch _ _) = true
is_permanent (access_denied _) = true
is_permanent (storage msg) =
    contains msg (codes "schema")
    || (contains msg (codes "CastError")
        || (contains msg (codes "dimension") || contains msg (codes "No vector column found")))
is_permanent _ = false
