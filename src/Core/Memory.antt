-- ===== src/Core/Memory.antt =====
-- `Memory` (crates/vault-core/src/memory.rs). An id is a UUID v7 read as a number, so the order of
-- ids is the order of the numbers; a time is the number of nanoseconds from a fixed origin.
use agent_memory_vault.Base.{
  ℕ, ◌*◌, ◌≢◌, Bool, true, false, not, ◌||◌, Option, none, some, List, ltb, leb, ◌==◌, length, any,
}
use agent_memory_vault.Core.Text.{Text, codes}
use agent_memory_vault.Core.Float.{F32, is_finite, in_unit_range}
use agent_memory_vault.Core.Json.{Value}
use agent_memory_vault.Core.Error.{Result, ok, err, panicked, then-safe, ◌>>=◌, ◌>>◌, invalid_input}

abbrev pub MemoryId : Type 0
MemoryId = ℕ

-- `DateTime<Utc>`.
abbrev pub Time : Type 0
Time = ℕ

abbrev pub milliseconds : ℕ → ℕ
milliseconds n = n * 1_000_000

-- `Duration::days`.
abbrev pub days : ℕ → ℕ
days n = n * 86_400_000_000_000

pub data MemoryType : Type 0 where
  episodic semantic procedural : MemoryType

abbrev pub max_memory_content_bytes : ℕ
max_memory_content_bytes = 102_400

pub record Memory : Type 0 where
  pub id : MemoryId
  pub content : Text
  pub memory_type : MemoryType
  pub source_agent : Option Text
  pub boundary : Text
  pub created_at : Time
  pub valid_from : Time
  pub valid_until : Option Time
  pub confidence : F32
  pub access_count : ℕ
  pub last_accessed : Time
  pub superseded_by : Option MemoryId
  pub archived_at : Option Time
  pub embedding : Option (List F32)
  pub metadata : Value

pub record NewMemory : Type 0 where
  pub content : Text
  pub memory_type : MemoryType
  pub boundary : Text
  pub source_agent : Option Text
  pub confidence : F32
  pub valid_from : Option Time
  pub valid_until : Option Time
  pub metadata : Value

abbrev pub reject_if : Bool → Text → Result (Unit {0})
reject_if true why = err (invalid_input why)
reject_if false why = ok tt

-- `until < valid_from`, where there is an `until`.
unfoldable pub precedes : Option Time → Time → Bool
precedes none from = false
precedes (some until) from = ltb until from

unfoldable pub validate_embedding : Option (List F32) → Result (Unit {0})
validate_embedding none = ok tt
validate_embedding (some emb) = do
  reject_if (length emb == 0) (codes "embedding is empty")
  reject_if (any (λ x. not (is_finite x)) emb) (codes "embedding contains non-finite values")

unfoldable pub validate : Memory → Result (Unit {0})
unfolding precedes validate_embedding
validate m = do
  reject_if (length m.content == 0) (codes "memory content must not be empty")
  reject_if (ltb max_memory_content_bytes (length m.content)) (codes "memory content exceeds")
  reject_if (any (λ b. b == 0) m.content) (codes "memory content contains null bytes")
  reject_if (not (is_finite m.confidence) || not (in_unit_range m.confidence))
      (codes "confidence is not in [0.0, 1.0]")
  reject_if (precedes m.valid_until m.valid_from) (codes "valid_until precedes valid_from")
  validate_embedding m.embedding

abbrev pub or_now : Option Time → Time → Time
or_now none now = now
or_now (some t) now = t

-- The memory that `try_new` validates; `fresh` and `now` stand for `MemoryId::new()` and `Utc::now()`.
abbrev pub fresh_memory : MemoryId → Time → NewMemory → Memory
fresh_memory fresh now args = record {
  id = fresh;
  content = args.content;
  memory_type = args.memory_type;
  source_agent = args.source_agent;
  boundary = args.boundary;
  created_at = now;
  valid_from = or_now args.valid_from now;
  valid_until = args.valid_until;
  confidence = args.confidence;
  access_count = 0;
  last_accessed = now;
  superseded_by = none;
  archived_at = none;
  embedding = none;
  metadata = args.metadata;
}

unfoldable pub try_new : MemoryId → Time → NewMemory → Result Memory
unfolding validate
try_new fresh now args = let m = fresh_memory fresh now args in validate m >> ok m

unfoldable pub try_new_with_id : MemoryId → MemoryId → Time → NewMemory → Result Memory
unfolding try_new
try_new_with_id id fresh now args = do m ← try_new fresh now args; ok (record m { id = id })

abbrev pub is_some {ℓ} : {A : Type ℓ} → Option A → Bool
is_some none = false
is_some (some _) = true

unfoldable pub is_superseded : Memory → Bool
is_superseded m = is_some m.superseded_by

-- `valid_until.is_some_and(|t| t <= at)`.
abbrev pub until_passed : Option Time → Time → Bool
until_passed none at = false
until_passed (some t) at = leb t at

unfoldable pub is_expired_at : Memory → Time → Bool
is_expired_at m at = until_passed m.valid_until at

unfoldable pub is_archived : Memory → Bool
is_archived m = is_some m.archived_at

pub reject_if-safe : (b : Bool) (why : Text) → reject_if b why ≢ panicked
reject_if-safe true why = λ p. cc
reject_if-safe false why = λ p. cc

checked-safe {ℓ} :
    {B : Type ℓ} (b : Bool) (why : Text) (k : Result B)
    → k ≢ panicked
    → (reject_if b why >> k) ≢ panicked
checked-safe b why k h = then-safe (reject_if b why) k (reject_if-safe b why) h

validate_embedding-safe : (e : Option (List F32)) → validate_embedding e ≢ panicked
unfolding validate_embedding
validate_embedding-safe none = λ p. cc
validate_embedding-safe (some emb) = checked-safe (length emb == 0) (codes "embedding is empty") _ (
    reject_if-safe (any (λ x. not (is_finite x)) emb)
      (codes "embedding contains non-finite values"))

pub validate-safe : (m : Memory) → validate m ≢ panicked
unfolding validate
validate-safe m =
    checked-safe (length m.content == 0) (codes "memory content must not be empty") _ (
      checked-safe (ltb max_memory_content_bytes (length m.content))
        (codes "memory content exceeds") _
        (checked-safe (any (λ b. b == 0) m.content) (codes "memory content contains null bytes") _ (
          checked-safe (not (is_finite m.confidence) || not (in_unit_range m.confidence))
            (codes "confidence is not in [0.0, 1.0]") _
            (checked-safe (precedes m.valid_until m.valid_from)
              (codes "valid_until precedes valid_from") _ (validate_embedding-safe m.embedding)))))
