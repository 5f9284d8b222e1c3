-- ===== src/Storage/Worker/Drain.antt =====
-- The worker's `drain` at shutdown (crates/vault-storage/src/retry_worker.rs). What the rounds of the
-- loop read from the clock, the ids and the jitter is a parameter, by the number of the round; a
-- sleep shows only in the later times of the next rounds.
pub mod Emptied
use agent_memory_vault.Base.{ℕ, zero, suc, ◌+◌, Bool, true, false, leb, ◌==◌, if◌then◌else◌}
use agent_memory_vault.Core.Error.{VaultError, Result, ok, err, panicked}
use agent_memory_vault.Core.Memory.{Time}
use agent_memory_vault.Storage.Backoff.{F64}
use agent_memory_vault.Storage.Queue.{len}
use agent_memory_vault.Storage.Audit.Chain.{Encoding}
use agent_memory_vault.Storage.Cascade.{Codec, Draws}
use agent_memory_vault.Storage.Worker.{VectorStore, World, StepResult, Reading, step_at, idle}

-- Round by round: the time of the check against the deadline, the time that the step polls with, the
-- ids and times that it draws, and the clock and jitter of a failure.
pub record Rounds (F : F64) : Type 0 where
  pub instant : ℕ → Time
  pub polled_at : ℕ → Time
  pub draws : ℕ → Draws
  pub clock : ℕ → Time
  pub factor : ℕ → F.Carrier

-- How the loop ends; `starved` is the model's end of the fuel.
pub data DrainEnd : Type 0 where
  emptied budget_exhausted : DrainEnd
  step_error : VaultError → DrainEnd
  crashed starved : DrainEnd

-- The end, the number of completed steps, and the world.
pub record Drained (S : Type 0) : Type 0 where
  pub ended : DrainEnd
  pub completed : ℕ
  pub world : World S

module _ (F : F64) (E : Encoding) (K : Codec) (R : Reading) {S : Type 0} (V : VectorStore S) where
  -- What a round counts.
  abbrev pub counted : StepResult → ℕ → ℕ
  counted idle completed = completed
  counted _ completed = completed + 1

  -- The `match` on the step; `continue` is the next round.
  unfoldable pub after_step :
      (ℕ → World S → Drained S) → ℕ → Result StepResult × World S → Drained S
  after_step continue completed (ok s, w) = continue (counted s completed) w
  after_step continue completed (err why, w) = record {
    ended = step_error why;
    completed = completed;
    world = w;
  }
  after_step continue completed (panicked, w) = record {
    ended = crashed;
    completed = completed;
    world = w;
  }

  unfoldable pub drain : ℕ → Rounds F → Time → ℕ → ℕ → World S → Drained S
  unfolding len step_at after_step
  drain zero T deadline i completed w = record { ended = starved; completed = completed; world = w }
  drain (suc fuel) T deadline i completed w =
      let round =
        after_step (drain fuel T deadline (suc i)) completed
          (step_at F E K R V (T.polled_at i) (T.draws i) (T.clock i) (T.factor i) w) in
      if len w.tables.queue == 0
      then record { ended = emptied; completed = completed; world = w }
      else if leb deadline (T.instant i)
      then record { ended = budget_exhausted; completed = completed; world = w }
      else round
