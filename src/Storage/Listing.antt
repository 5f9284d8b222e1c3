-- ===== src/Storage/Listing.antt =====
-- `MemoryFilter` and `tx_list_memories` (crates/vault-storage/src/metadata_store.rs). The texts of
-- two times in one offset stand in the order of the times. Rows of one time stay in table order.
use agent_memory_vault.Base.{
  ℕ, Bool, true, false, not, ◌&&◌, ◌||◌, Option, none, some, List, ltb, leb, keep, take,
}
use agent_memory_vault.Base.Sort.{sort_by}
use agent_memory_vault.Core.Text.{Text, text_eq}
use agent_memory_vault.Core.Memory.{
  Memory, MemoryType, Time, episodic, semantic, procedural, is_some,
}

pub record MemoryFilter : Type 0 where
  pub boundary : Option Text
  pub memory_type : Option MemoryType
  pub include_superseded : Bool
  pub since : Option Time
  pub valid_at : Option Time
  pub include_archived : Bool

-- `MemoryFilter { boundary: Some(boundary), since, ..Default::default() }`.
abbrev pub in_boundary_since : Text → Option Time → MemoryFilter
in_boundary_since boundary since = record {
  boundary = some boundary;
  memory_type = none;
  include_superseded = false;
  since = since;
  valid_at = none;
  include_archived = false;
}

abbrev pub same_type : MemoryType → MemoryType → Bool
same_type episodic episodic = true
same_type episodic _ = false
same_type semantic semantic = true
same_type semantic _ = false
same_type procedural procedural = true
same_type procedural _ = false

-- A condition that is there only if the filter asks for it.
abbrev pub unless_none {ℓ} : {A : Type ℓ} → Option A → (A → Bool) → Bool
unless_none none p = true
unless_none (some a) p = p a

-- `valid_until IS NULL OR valid_until > ?`.
abbrev pub still_true : Option Time → Time → Bool
still_true none at = true
still_true (some until) at = ltb at until

-- The conditions of the WHERE clause.
unfoldable pub matches : MemoryFilter → Memory → Bool
matches f m =
    unless_none f.boundary (λ b. text_eq m.boundary b)
    && unless_none f.memory_type (λ k. same_type m.memory_type k)
    && (f.include_superseded || not (is_some m.superseded_by))
    && (f.include_archived || not (is_some m.archived_at))
    && unless_none f.since (λ t. leb t m.created_at)
    && unless_none f.valid_at (λ t. still_true m.valid_until t)

-- `ORDER BY created_at DESC`.
abbrev pub newest_first : Memory → Memory → Bool
newest_first m n = leb n.created_at m.created_at

abbrev pub limited : Option ℕ → List Memory → List Memory
limited none rows = rows
limited (some n) rows = take n rows

unfoldable pub list_memories : MemoryFilter → Option ℕ → List Memory → List Memory
unfolding matches
list_memories f limit rows = limited limit (sort_by newest_first (keep (matches f) rows))
