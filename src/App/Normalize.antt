-- ===== src/App/Normalize.antt =====
-- `normalize_for_canonical_save` (crates/vault-app/src/normalization.rs): the content of a memory is
-- brought into its canonical shape. All that it tests and replaces is ASCII, so it works on the bytes.
pub mod Shape
use agent_memory_vault.Base.{
  ℕ, ◌-◌, Bool, false, not, ◌&&◌, ◌||◌, Option, none, some, List, [], ◌∷◌, ◌++◌, map, ltb, leb,
  ◌==◌, if◌then◌else◌, length, take, drop,
}
use agent_memory_vault.Core.Text.{Text, codes, text_eq}
use agent_memory_vault.Core.Trim.{trim}
use agent_memory_vault.Core.Error.{Result, ok, err, invalid_input}
use agent_memory_vault.Storage.Truncate.{is_char_boundary}

abbrev pub is_ascii_lowercase : ℕ → Bool
is_ascii_lowercase b = leb b'a' b && leb b b'z'

-- `to_ascii_uppercase`, on one byte.
abbrev pub to_ascii_uppercase : ℕ → ℕ
to_ascii_uppercase b = if is_ascii_lowercase b then b - 32 else b

abbrev pub eq_ignore_ascii_case : Text → Text → Bool
eq_ignore_ascii_case s t = text_eq (map to_ascii_uppercase s) (map to_ascii_uppercase t)

unfoldable pub strip_prefix_ci : Text → Text → Option Text
unfolding is_char_boundary text_eq
strip_prefix_ci s prefix =
    if ltb (length s) (length prefix) || not (is_char_boundary s (length prefix))
    then none
    else if eq_ignore_ascii_case (take (length prefix) s) prefix
    then some (drop (length prefix) s)
    else none

abbrev pub or_else {ℓ} : {A : Type ℓ} → Option A → A → A
or_else none d = d
or_else (some a) d = a

-- The loops over prefixes: what follows the first prefix that matches.
unfoldable pub strip_first : List Text → Text → Option Text
unfolding strip_prefix_ci
strip_first [] s = none
strip_first (prefix ∷ prefixes) s = elim (strip_prefix_ci s prefix) [
  | none ↦ strip_first prefixes s
  | some rest ↦ some rest
]

-- `strip_prefix_ci(rest, "that ").unwrap_or(rest)`.
unfoldable pub after_that : Text → Text
unfolding strip_prefix_ci
after_that rest = or_else (strip_prefix_ci rest (codes "that ")) rest

abbrev pub when_asked_prefixes : List Text
when_asked_prefixes =
    codes "When the user was asked, "
    ∷ codes "When the user was asked "
    ∷ codes "When asked, "
    ∷ codes "When asked "
    ∷ []

abbrev pub told_me_verbs : List Text
told_me_verbs = codes "told me " ∷ codes "said " ∷ codes "mentioned " ∷ codes "stated " ∷ []

unfoldable pub strip_conversation_framing : Text → Text
unfolding strip_first after_that
strip_conversation_framing s = elim (strip_first when_asked_prefixes s) [
  | some rest ↦ rest
  | none ↦ elim (strip_first (map (λ verb. codes "The user " ++ verb) told_me_verbs) s) [
    | some rest ↦ codes "The user " ++ after_that rest
    | none ↦ s
  ]
]

abbrev pub self_reference_verbs : List Text
self_reference_verbs =
    codes "I think "
    ∷ codes "I believe "
    ∷ codes "I learned "
    ∷ codes "I noticed "
    ∷ codes "I observed "
    ∷ []

unfoldable pub strip_agent_self_reference : Text → Text
unfolding strip_first after_that
strip_agent_self_reference s = elim (strip_first self_reference_verbs s) [
  | some rest ↦ after_that rest
  | none ↦ s
]

abbrev pub third_person_pairs : List (Text × Text)
third_person_pairs =
    (codes "I prefer ", codes "The user prefers ")
    ∷ (codes "I like ", codes "The user likes ")
    ∷ (codes "I love ", codes "The user loves ")
    ∷ (codes "I hate ", codes "The user hates ")
    ∷ (codes "I use ", codes "The user uses ")
    ∷ (codes "I want ", codes "The user wants ")
    ∷ (codes "I need ", codes "The user needs ")
    ∷ []

-- The loop over the pairs.
unfoldable pub rewrite_first : List (Text × Text) → Text → Text
unfolding strip_prefix_ci
rewrite_first [] s = s
rewrite_first (pair ∷ pairs) s = elim (strip_prefix_ci s pair.0) [
  | some rest ↦ pair.1 ++ rest
  | none ↦ rewrite_first pairs s
]

unfoldable pub rewrite_first_person_to_third : Text → Text
unfolding rewrite_first
rewrite_first_person_to_third s = rewrite_first third_person_pairs s

unfoldable pub capitalize_first_char : Text → Text
capitalize_first_char [] = []
capitalize_first_char (b ∷ s) = to_ascii_uppercase b ∷ s

abbrev pub is_terminal : ℕ → Bool
is_terminal b = b == b'.' || (b == b'!' || b == b'?')

-- `s.ends_with('.') || s.ends_with('!') || s.ends_with('?')`.
unfoldable pub ends_sentence : Text → Bool
ends_sentence [] = false
ends_sentence (b ∷ []) = is_terminal b
ends_sentence (b ∷ c ∷ s) = ends_sentence (c ∷ s)

unfoldable pub ensure_terminal_period : Text → Text
unfolding ends_sentence
ensure_terminal_period s = if ends_sentence s then s else s ++ codes "."

-- The steps after the trim.
unfoldable pub reshape : Text → Text
unfolding strip_conversation_framing strip_agent_self_reference rewrite_first_person_to_third
    capitalize_first_char ensure_terminal_period
reshape s = ensure_terminal_period (
    capitalize_first_char
      (rewrite_first_person_to_third (strip_agent_self_reference (strip_conversation_framing s))))

unfoldable pub normalize_for_canonical_save : Text → Result Text
unfolding reshape trim
normalize_for_canonical_save content =
    let trimmed = trim content in
    if length trimmed == 0
    then err (invalid_input (codes "memory content cannot be empty"))
    else ok (reshape trimmed)
