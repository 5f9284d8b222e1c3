-- ===== src/App/Normalize/Shape.antt =====
-- The shape of what `normalize_for_canonical_save` returns.
use agent_memory_vault.Base.{
  ◌<◌, ◌≡◌, refl, true, false, [], ◌∷◌, ◌++◌, arith, length, inl, inr, Bool-cases, ◌==◌, Bool,
}
use agent_memory_vault.Core.Text.{Text, codes}
use agent_memory_vault.Core.Trim.{trim}
use agent_memory_vault.Core.Error.{Result, ok, err, invalid_input}
use agent_memory_vault.App.Normalize.{
  normalize_for_canonical_save, reshape, capitalize_first_char, ensure_terminal_period,
  ends_sentence, is_ascii_lowercase, strip_conversation_framing, strip_agent_self_reference,
  rewrite_first_person_to_third,
}

-- The text begins with a lower-case ASCII letter.
abbrev pub starts_lower : Text → Bool
starts_lower [] = false
starts_lower (b ∷ s) = is_ascii_lowercase b

ends_sentence-snoc : (s : Text) → ends_sentence (s ++ codes ".") ≡ true
unfolding ends_sentence
ends_sentence-snoc [] = refl
ends_sentence-snoc (b ∷ []) = refl
ends_sentence-snoc (b ∷ c ∷ s) = ends_sentence-snoc (c ∷ s)

ensure_terminal_period-ends : (s : Text) → ends_sentence (ensure_terminal_period s) ≡ true
unfolding ensure_terminal_period
ensure_terminal_period-ends s = elim (Bool-cases (ends_sentence s)) [
  | inl there ↦ rw (there, there) refl
  | inr missing ↦ rw missing (ends_sentence-snoc s)
]

capitalize_first_char-starts : (s : Text) → starts_lower (capitalize_first_char s) ≡ false
unfolding capitalize_first_char
capitalize_first_char-starts [] = refl
capitalize_first_char-starts (b ∷ s) = ground arith

ensure_terminal_period-starts :
    (s : Text) → starts_lower s ≡ false → starts_lower (ensure_terminal_period s) ≡ false
unfolding ensure_terminal_period ends_sentence
ensure_terminal_period-starts [] h = refl
ensure_terminal_period-starts (b ∷ s) h = elim (Bool-cases (ends_sentence (b ∷ s))) [
  | inl there ↦ rw there h
  | inr missing ↦ rw missing h
]

-- The two ways in which the normalization ends.
pub data Shaped (content : Text) : Result Text → Type 0 where
  blank :
      length (trim content) ≡ 0
      → Shaped content (err (invalid_input (codes "memory content cannot be empty")))
  shaped :
      (s : Text)
      → 0 < length (trim content)
      → ends_sentence s ≡ true
      → starts_lower s ≡ false
      → Shaped content (ok s)

-- `normalize_for_canonical_save` refuses a content that is blank. Of any other it makes a text that ends
-- with a full stop, an exclamation mark or a question mark, and that does not begin with a lower-case
-- ASCII letter.
pub normalize_for_canonical_save-Shaped :
    (content : Text) → Shaped content (normalize_for_canonical_save content)
unfolding normalize_for_canonical_save reshape
normalize_for_canonical_save-Shaped content =
    let sentence =
      rewrite_first_person_to_third
        (strip_agent_self_reference (strip_conversation_framing (trim content))) in
    elim (Bool-cases (length (trim content) == 0)) [
      | inl empty ↦ rw (normalize_for_canonical_save, empty) (blank (ground arith))
      | inr more ↦
          rw (normalize_for_canonical_save, more)
            (shaped _ (ground arith) (ensure_terminal_period-ends (capitalize_first_char sentence))
              (ensure_terminal_period-starts (capitalize_first_char sentence)
                (capitalize_first_char-starts sentence)))
    ]
