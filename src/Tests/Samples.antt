-- ===== src/Tests/Samples.antt =====
-- The parameters of the storage backend and a vault, as concrete inputs.
use agent_memory_vault.Base.{ℕ, ◌+◌, ◌≡◌, refl, false, none, some, [], ◌∷◌, arith}
use agent_memory_vault.Core.Text.{Text, codes}
use agent_memory_vault.Core.Json
use agent_memory_vault.Core.Error.{ok}
use agent_memory_vault.Core.Memory.{Memory, semantic}
use agent_memory_vault.Storage.Queue
use agent_memory_vault.Storage.Queue.{RetryEntry}
use agent_memory_vault.Storage.Queue.Invariant as Queued
use agent_memory_vault.Storage.PendingSync.{PendingSyncEntry}
use agent_memory_vault.Storage.Audit.{AuditEvent, successful, memory_read, agent, system}
use agent_memory_vault.Storage.Audit.Chain.{Encoding, new_event, verify_chain, verify_from}
use agent_memory_vault.Storage.Audit.Tamper.{new_event-verify_chain}
use agent_memory_vault.Storage.Cascade.{Codec, Draws, Tables, Vault}
use agent_memory_vault.Storage.Cascade.Invariant.{IsValid}

abbrev pub total : Text → ℕ
total [] = 0
total (b ∷ s) = b + total s

-- 63 zeros.
abbrev pub zeros : Text
zeros = codes "000000000000000000000000000000000000000000000000000000000000000"

abbrev pub encoding : Encoding
encoding = record {
  to_json = λ b. b.details_json;
  blake3_hex = λ s. total s ∷ zeros;
  uuid_text = λ n. n ∷ [];
  rfc3339 = λ t. t ∷ [];
}

abbrev pub codec : Codec
codec = record {
  encode = λ p. p.boundary;
  decode = λ s. some (record { embedding = []; boundary = s });
  json_string = λ s. s;
  f32_text = λ f. [];
  u32_text = λ n. n ∷ [];
}

abbrev pub draws : Draws
draws = record { uuid = λ n. n + 100; clock = λ n. n + 1_000 }

abbrev pub memory : ℕ → Memory
memory id = record {
  id = id;
  content = codes "tea";
  memory_type = semantic;
  source_agent = none;
  boundary = codes "work";
  created_at = 1;
  valid_from = 1;
  valid_until = none;
  confidence = 0x3f000000;
  access_count = 0;
  last_accessed = 1;
  superseded_by = none;
  archived_at = none;
  embedding = none;
  metadata = Json.null;
}

abbrev pub first_event : AuditEvent
first_event = new_event encoding 1 5 (successful memory_read agent) []

abbrev pub second_event : AuditEvent
second_event = new_event encoding 2 6 (successful memory_read system) []

abbrev pub overflowed : PendingSyncEntry
overflowed = record {
  memory_id = 4;
  operation = Queue.write;
  queued_at = 3;
  sequence_id = 1;
  payload = some (codes "work");
}

abbrev pub queued : RetryEntry
queued = record {
  id = 20;
  memory_id = 4;
  operation = Queue.delete;
  payload_format_version = 1;
  payload = codes "work";
  sequence_id = 0;
  attempts_made = 7;
  next_attempt_at = 9;
  created_at = 2;
  last_error = none;
}

abbrev pub tables : Tables
tables = record {
  memories = memory 4 ∷ [];
  log = first_event ∷ [];
  queue = queued ∷ [];
  pending = overflowed ∷ [];
}

abbrev pub vault : Vault
vault = record { tables = tables; in_cap_overflow = false }

pub no_events-verify : verify_chain encoding [] ≡ ok tt
unfolding verify_chain verify_from
no_events-verify = refl

abbrev pub queue-IsValid : Queued.IsValid tables.queue
queue-IsValid = record { keyed = (refl, tt); anchored = (refl, tt); counted = (omega arith, tt) }

pub tables-IsValid : IsValid encoding tables
unfolding new_event
tables-IsValid = record {
  memories_keyed = (refl, tt);
  chain = new_event-verify_chain encoding 1 5 (successful memory_read agent) [] no_events-verify;
  queue_ok = queue-IsValid;
  bounded = omega arith;
  queue_numbered = (omega arith, tt);
  pending_keyed = (refl, tt);
  pending_numbered = (omega arith, tt);
}
