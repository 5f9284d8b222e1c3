-- ===== src/Core/Text.antt =====
-- A Rust `String` is the list of its bytes; a literal of the source is written by `codes`, since
-- the literals that the model reads are ASCII.
use Prim.Native.Char.{code}
use Prim.Native.String.{String}
use agent_memory_vault.Base.{
  ℕ, ◌≡◌, ◌↔◌, refl, Bool, true, false, ◌&&◌, ◌||◌, List, [], ◌∷◌, arith, ◌==◌, ltb,
}

abbrev pub Text : Type 0
Text = List ℕ

abbrev pub codes : String → Text
codes String.[] = []
codes (String.◌∷◌ c s) = code c ∷ codes s

-- `==` on strings.
unfoldable pub text_eq : Text → Text → Bool
text_eq [] [] = true
text_eq [] (_ ∷ _) = false
text_eq (_ ∷ _) [] = false
text_eq (a ∷ s) (b ∷ t) = a == b && text_eq s t

unfoldable pub is_prefix : Text → Text → Bool
is_prefix [] t = true
is_prefix (_ ∷ _) [] = false
is_prefix (a ∷ s) (b ∷ t) = a == b && is_prefix s t

-- `haystack.contains(needle)`.
unfoldable pub contains : Text → Text → Bool
unfolding is_prefix
contains [] needle = is_prefix needle []
contains (b ∷ t) needle = is_prefix needle (b ∷ t) || contains t needle

pub text_eq-eq : (s t : Text) → text_eq s t ≡ true → s ≡ t
unfolding text_eq
text_eq-eq [] [] h = refl
text_eq-eq [] (_ ∷ _) h = cc
text_eq-eq (_ ∷ _) [] h = cc
text_eq-eq (a ∷ s) (b ∷ t) h = ground (arith, text_eq-eq s t)

pub text_eq_refl : (s : Text) → text_eq s s ≡ true
unfolding text_eq
text_eq_refl [] = refl
text_eq_refl (a ∷ s) = ground (arith, text_eq_refl s)

pub text_eq_iff : (s t : Text) → (text_eq s t ≡ true) ↔ (s ≡ t)
text_eq_iff s t = (text_eq-eq s t, λ e. rw e (text_eq_refl t))

-- The order of the bytes: `cmp` of strings, and SQLite's BINARY collation.
unfoldable pub text_le : Text → Text → Bool
text_le [] t = true
text_le (_ ∷ _) [] = false
text_le (a ∷ s) (b ∷ t) = ltb a b || a == b && text_le s t
