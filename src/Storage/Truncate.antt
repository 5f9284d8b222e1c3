-- ===== src/Storage/Truncate.antt =====
-- `truncate_utf8` (crates/vault-storage/src/retry_queue.rs, and its copy in dead_letter.rs).
pub mod Utf8
use agent_memory_vault.Base.{
  ℕ, zero, suc, ◌≤◌, ◌≡◌, Bool, true, false, ◌||◌, Option, none, some, ltb, leb, ◌==◌,
  if◌then◌else◌, length, take, get_elem?,
}
use agent_memory_vault.Core.Text.{Text}

-- The continuation bytes of UTF-8 are 0x80 to 0xbf.
abbrev pub starts_char : Option ℕ → Bool
starts_char none = false
starts_char (some b) = ltb b 0x80 || leb 0xc0 b

-- `str::is_char_boundary`.
unfoldable pub is_char_boundary : Text → ℕ → Bool
is_char_boundary s i = i == 0 || (i == length s || starts_char (get_elem? s i))

-- `while !s.is_char_boundary(end) && end > 0 { end -= 1 }`, from `end`.
unfoldable pub floor_char_boundary : Text → ℕ → ℕ
floor_char_boundary s zero = 0
floor_char_boundary s (suc e) =
    if is_char_boundary s (suc e) then suc e else floor_char_boundary s e

unfoldable pub truncate_utf8 : Text → ℕ → Text
truncate_utf8 s max_bytes =
    if leb (length s) max_bytes then s else take (floor_char_boundary s max_bytes) s
