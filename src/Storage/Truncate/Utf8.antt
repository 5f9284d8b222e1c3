-- ===== src/Storage/Truncate/Utf8.antt =====
-- Truncation of a valid UTF-8 text: the result fits, is valid, and loses less than one character.
use agent_memory_vault.Base.{
  ℕ, ◌+◌, ◌≤◌, ◌<◌, ◌≡◌, Bool, true, [], ◌∷◌, ltb, leb, ◌==◌, if◌then◌else◌,
}
use agent_memory_vault.Core.Text.{Text}
use agent_memory_vault.Storage.Truncate.{is_char_boundary}

abbrev pub IsContinuation : ℕ → Type 0
IsContinuation b = (0x80 ≤ b) × (b < 0xc0)

-- The second byte rules out what is encoded too long, the surrogates, and what is above U+10FFFF.
unfoldable pub second_fits : ℕ → ℕ → Bool
second_fits a b =
    if a == 0xe0
    then leb 0xa0 b
    else if a == 0xed
    then ltb b 0xa0
    else if a == 0xf0
    then leb 0x90 b
    else if a == 0xf4
    then ltb b 0x90
    else true

-- The lead bytes of characters of two, three and four bytes, with the second byte.
abbrev pub IsLead2 : ℕ → Type 0
IsLead2 a = (0xc2 ≤ a) × (a < 0xe0)

abbrev pub IsLead3 : ℕ → ℕ → Type 0
IsLead3 a b = (0xe0 ≤ a) × (a < 0xf0) × (second_fits a b ≡ true)

abbrev pub IsLead4 : ℕ → ℕ → Type 0
IsLead4 a b = (0xf0 ≤ a) × (a < 0xf5) × (second_fits a b ≡ true)

-- Well-formed UTF-8: a sequence of characters of one to four bytes (the Unicode Standard, table 3-7).
pub data IsUtf8 : Text → Type 0 where
  done : IsUtf8 []
  one : {a : ℕ} {s : Text} → a < 0x80 → IsUtf8 s → IsUtf8 (a ∷ s)
  two : {a b : ℕ} {s : Text} → IsLead2 a → IsContinuation b → IsUtf8 s → IsUtf8 (a ∷ b ∷ s)
  three :
      {a b c : ℕ} {s : Text}
      → IsLead3 a b
      → IsContinuation b
      → IsContinuation c
      → IsUtf8 s
      → IsUtf8 (a ∷ b ∷ c ∷ s)
  four :
      {a b c d : ℕ} {s : Text}
      → IsLead4 a b
      → IsContinuation b
      → IsContinuation c
      → IsContinuation d
      → IsUtf8 s
      → IsUtf8 (a ∷ b ∷ c ∷ d ∷ s)

-- A boundary at most three bytes before a place.
NearBoundary : Text → ℕ → Type 0
NearBoundary s e = (j : ℕ) × (is_char_boundary s j ≡ true) × (j ≤ e) × (e ≤ j + 3)
