-- ===== src/Storage/Backoff/Bounds.antt =====
-- How far the jitter moves the next attempt, and when there is one.
use agent_memory_vault.Base.{
  ℕ, zero, suc, ◌+◌, ◌*◌, ◌^◌, ◌/◌, ◌≤◌, ◌<◌, ◌≡◌, ◌≢◌, ◌↔◌, refl, ap, ◌∙◌, none, some, arith,
}
use native.Mathlib.Decide.{dec_lt}
use agent_memory_vault.Core.Memory.{Time, milliseconds}
use agent_memory_vault.Storage.Backoff.{
  F64, base_backoff_secs, jittered_delay_ms, compute_next_attempt, max_attempts,
}

-- What IEEE 754 and Rust say of these operations: rounding is monotone, a result that is
-- representable is exact (`quarters n` is n / 4), `clamp` of a number lies between its bounds, and
-- the cast cuts the fraction off.
pub record IsIeee (F : F64) : Type 1 where
  pub quarters : ℕ → F.Carrier
  pub le : F.Carrier → F.Carrier → Type 0
  pub IsNumber : F.Carrier → Type 0
  pub clamp_range :
      (x : F.Carrier)
      → IsNumber x
      → le F.minus_one (F.clamp x F.minus_one (F.of_nat 1))
        × le (F.clamp x F.minus_one (F.of_nat 1)) (F.of_nat 1)
  pub quarter_low : F.add (F.of_nat 1) (F.mul F.quarter F.minus_one) ≡ quarters 3
  pub quarter_high : F.add (F.of_nat 1) (F.mul F.quarter (F.of_nat 1)) ≡ quarters 5
  pub add_mono : (x y : F.Carrier) → le x y → le (F.add (F.of_nat 1) x) (F.add (F.of_nat 1) y)
  pub quarter_mono : (x y : F.Carrier) → le x y → le (F.mul F.quarter x) (F.mul F.quarter y)
  pub mul_mono :
      (n : ℕ) (x y : F.Carrier) → 0 < n → le x y → le (F.mul (F.of_nat n) x) (F.mul (F.of_nat n) y)
  pub mul_mono_left :
      (n : ℕ) (x y : F.Carrier) → 0 < n → le x y → le (F.mul x (F.of_nat n)) (F.mul y (F.of_nat n))
  pub mul_exact : (n k : ℕ) → n * k < 2 ^ 50 → F.mul (F.of_nat n) (quarters k) ≡ quarters (n * k)
  pub mul_exact_left :
      (n k : ℕ) → k * n < 2 ^ 50 → F.mul (quarters k) (F.of_nat n) ≡ quarters (k * n)
  pub max_mono :
      (x y : F.Carrier) → le x y → le (F.f64_max x (F.of_nat 0)) (F.f64_max y (F.of_nat 0))
  pub max_exact : (k : ℕ) → F.f64_max (quarters k) (F.of_nat 0) ≡ quarters k
  pub to_i64_mono : (x y : F.Carrier) → le x y → F.to_i64 x ≤ F.to_i64 y
  pub to_i64_exact : (k : ℕ) → k < 2 ^ 50 → F.to_i64 (quarters k) ≡ k / 4

base_range : (n : ℕ) {b : ℕ} → base_backoff_secs n ≡ some b → (0 < b) × (b ≤ 120)
unfolding base_backoff_secs
base_range zero h = ground arith
base_range (suc zero) h = ground arith
base_range (suc (suc zero)) h = ground arith
base_range (suc (suc (suc zero))) h = ground arith
base_range (suc (suc (suc (suc zero)))) h = ground arith
base_range (suc (suc (suc (suc (suc zero))))) h = ground arith
base_range (suc (suc (suc (suc (suc (suc zero)))))) h = ground arith
base_range (suc (suc (suc (suc (suc (suc (suc zero))))))) h = ground arith
base_range (suc (suc (suc (suc (suc (suc (suc (suc n)))))))) h = cc

pub base_some : (n : ℕ) → n < max_attempts → (b : ℕ) × (base_backoff_secs n ≡ some b)
unfolding base_backoff_secs
base_some zero h = (1, refl)
base_some (suc zero) h = (2, refl)
base_some (suc (suc zero)) h = (4, refl)
base_some (suc (suc (suc zero))) h = (8, refl)
base_some (suc (suc (suc (suc zero)))) h = (16, refl)
base_some (suc (suc (suc (suc (suc zero))))) h = (30, refl)
base_some (suc (suc (suc (suc (suc (suc zero)))))) h = (60, refl)
base_some (suc (suc (suc (suc (suc (suc (suc zero))))))) h = (120, refl)
base_some (suc (suc (suc (suc (suc (suc (suc (suc n)))))))) h = absurd (omega arith)

pub base_none : (n : ℕ) → max_attempts ≤ n → base_backoff_secs n ≡ none
unfolding base_backoff_secs
base_none zero h = absurd (omega arith)
base_none (suc zero) h = absurd (omega arith)
base_none (suc (suc zero)) h = absurd (omega arith)
base_none (suc (suc (suc zero))) h = absurd (omega arith)
base_none (suc (suc (suc (suc zero)))) h = absurd (omega arith)
base_none (suc (suc (suc (suc (suc zero))))) h = absurd (omega arith)
base_none (suc (suc (suc (suc (suc (suc zero)))))) h = absurd (omega arith)
base_none (suc (suc (suc (suc (suc (suc (suc zero))))))) h = absurd (omega arith)
base_none (suc (suc (suc (suc (suc (suc (suc (suc n)))))))) h = refl

module _ (F : F64) (ieee : IsIeee F) where
  open F use {Carrier, of_nat, minus_one, quarter, add, mul, clamp, f64_max, to_i64}
  open ieee use {quarters, le, IsNumber}

  -- The delay as a function of the clamped factor.
  abbrev delay_of : ℕ → Carrier → ℕ
  delay_of b x =
      to_i64
        (f64_max (mul (mul (of_nat b) (add (of_nat 1) (mul quarter x))) (of_nat 1000)) (of_nat 0))

  delay_mono : (b : ℕ) (x y : Carrier) → 0 < b → le x y → delay_of b x ≤ delay_of b y
  delay_mono b x y pos h = ieee.to_i64_mono _ _ (
      ieee.max_mono _ _ (
        ieee.mul_mono_left 1000 _ _ (omega arith)
          (ieee.mul_mono b _ _ pos (ieee.add_mono _ _ (ieee.quarter_mono x y h)))))

  exact_tail :
      (b k : ℕ)
      → b ≤ 120
      → k ≤ 5
      → to_i64 (f64_max (mul (mul (of_nat b) (quarters k)) (of_nat 1000)) (of_nat 0))
        ≡ b * k * 1000 / 4
  exact_tail b k hb hk =
      let small : b * k ≤ 600 = grind arith in
      rw (
        ieee.mul_exact b k (omega arith),
        ieee.mul_exact_left 1000 (b * k) (omega arith),
        ieee.max_exact (b * k * 1000),
        ieee.to_i64_exact (b * k * 1000) (omega arith),
      )

  delay_bounds :
      (b : ℕ) (f : Carrier)
      → 0 < b
      → b ≤ 120
      → IsNumber f
      → (750 * b ≤ jittered_delay_ms F b f) × (jittered_delay_ms F b f ≤ 1250 * b)
  unfolding jittered_delay_ms
  delay_bounds b f pos hb num =
      let f' = clamp f minus_one (of_nat 1) in
      let (low, high) = ieee.clamp_range f num in
      let at_low : delay_of b minus_one ≡ b * 3 * 1000 / 4 =
        ap (λ z. to_i64 (f64_max (mul (mul (of_nat b) z) (of_nat 1000)) (of_nat 0)))
          ieee.quarter_low
        ∙ exact_tail b 3 hb (omega arith) in
      let at_high : delay_of b (of_nat 1) ≡ b * 5 * 1000 / 4 =
        ap (λ z. to_i64 (f64_max (mul (mul (of_nat b) z) (of_nat 1000)) (of_nat 0)))
          ieee.quarter_high
        ∙ exact_tail b 5 hb (omega arith) in
      let up : delay_of b minus_one ≤ delay_of b f' = delay_mono b minus_one f' pos low in
      let down : delay_of b f' ≤ delay_of b (of_nat 1) = delay_mono b f' (of_nat 1) pos high in
      (omega arith, omega arith)

  -- For an attempt count with a base wait of `b` seconds and any jitter factor that is a number,
  -- there is a next attempt, and it lies 0.75 b to 1.25 b seconds after `now`.
  pub compute_next_attempt_jitter :
      (n b : ℕ) (now : Time) (f : Carrier)
      → base_backoff_secs n ≡ some b
      → IsNumber f
      → (t : Time) × (compute_next_attempt F n now f ≡ some t)
        × (now + milliseconds (750 * b) ≤ t)
        × (t ≤ now + milliseconds (1250 * b))
  unfolding compute_next_attempt
  compute_next_attempt_jitter n b now f e num =
      let (pos, hb) = base_range n e in
      let (low, high) = delay_bounds b f pos hb num in
      (
        now + milliseconds (jittered_delay_ms F b f),
        rw (e, compute_next_attempt),
        omega arith,
        omega arith,
      )

module _ (F : F64) where
  -- There is a next attempt exactly while fewer than `max_attempts` have been made.
  pub compute_next_attempt_iff :
      (n : ℕ) (now : Time) (f : F.Carrier)
      → (compute_next_attempt F n now f ≢ none) ↔ (n < max_attempts)
  unfolding compute_next_attempt
  compute_next_attempt_iff n now f = (
    λ some_next. elim (dec_lt n max_attempts) [
      | yes h ↦ h
      | no h ↦ absurd (some_next (rw (base_none n (omega arith), compute_next_attempt)))
    ],
    λ h. let (b, e) = base_some n h in rw (e, compute_next_attempt) (λ p. cc),
  )

  -- The `expect` of `enqueue` and of `record_failure` never fails.
  pub compute_next_attempt-some :
      (n : ℕ) (now : Time) (f : F.Carrier)
      → n < max_attempts
      → (t : Time) × (compute_next_attempt F n now f ≡ some t)
  unfolding compute_next_attempt
  compute_next_attempt-some n now f h =
      let (b, e) = base_some n h in
      (now + milliseconds (jittered_delay_ms F b f), rw (e, compute_next_attempt))
