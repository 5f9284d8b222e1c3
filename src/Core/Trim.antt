-- ===== src/Core/Trim.antt =====
-- `str::trim`, on the bytes: the characters of Unicode's White_Space.
use agent_memory_vault.Base.{
  ℕ, zero, suc, Bool, ◌&&◌, ◌||◌, [], ◌∷◌, ◌++◌, leb, ◌==◌, if◌then◌else◌, length, drop, ◌≤◌, ◌≡◌,
  refl, arith, inl, inr, Bool-cases, length-append,
}
use agent_memory_vault.Core.Text.{Text}

abbrev is_ascii_white : ℕ → Bool
is_ascii_white b = leb 9 b && leb b 13 || b == 32

-- The two bytes are U+0085 or U+00A0.
abbrev is_white2 : ℕ → ℕ → Bool
is_white2 a b = a == 0xc2 && (b == 0x85 || b == 0xa0)

-- The three bytes are U+1680, U+2000 to U+200A, U+2028, U+2029, U+202F, U+205F or U+3000.
abbrev is_white3 : ℕ → ℕ → ℕ → Bool
is_white3 a b c =
    a == 0xe1 && b == 0x9a && c == 0x80
    || (a == 0xe2
          && b == 0x80
          && (leb 0x80 c && leb c 0x8a || (c == 0xa8 || (c == 0xa9 || c == 0xaf)))
        || (a == 0xe2 && b == 0x81 && c == 0x9f || a == 0xe3 && b == 0x80 && c == 0x80))

-- The number of bytes of the white character at the head, or 0.
unfoldable pub white_at : Text → ℕ
white_at [] = 0
white_at (a ∷ []) = if is_ascii_white a then 1 else 0
white_at (a ∷ b ∷ []) = if is_ascii_white a then 1 else if is_white2 a b then 2 else 0
white_at (a ∷ b ∷ c ∷ t) =
    if is_ascii_white a then 1 else if is_white2 a b then 2 else if is_white3 a b c then 3 else 0

-- The same at the end, of a text that is read backwards.
unfoldable pub white_before : Text → ℕ
white_before [] = 0
white_before (a ∷ []) = if is_ascii_white a then 1 else 0
white_before (a ∷ b ∷ []) = if is_ascii_white a then 1 else if is_white2 b a then 2 else 0
white_before (a ∷ b ∷ c ∷ t) =
    if is_ascii_white a then 1 else if is_white2 b a then 2 else if is_white3 c b a then 3 else 0

-- Drops white characters while there are some; a text has no more of them than bytes.
unfoldable pub strip : (Text → ℕ) → ℕ → Text → Text
strip white zero t = t
strip white (suc fuel) t =
    let rest = strip white fuel (drop (white t) t) in if white t == 0 then t else rest

abbrev pub backwards : Text → Text
backwards [] = []
backwards (b ∷ t) = backwards t ++ (b ∷ [])

unfoldable pub trim : Text → Text
unfolding white_at white_before strip
trim t =
    let front = strip white_at (length t) t in
    backwards (strip white_before (length front) (backwards front))

length-drop : (n : ℕ) (t : Text) → length (drop n t) ≤ length t
length-drop zero t = omega arith
length-drop (suc n) [] = omega arith
length-drop (suc n) (b ∷ t) = omega (arith, length-drop n t)

length-strip : (white : Text → ℕ) (fuel : ℕ) (t : Text) → length (strip white fuel t) ≤ length t
unfolding strip
length-strip white zero t = omega arith
length-strip white (suc fuel) t = elim (Bool-cases (white t == 0)) [
  | inl black ↦ rw (strip, black) (omega arith)
  | inr more ↦
      rw (strip, more)
        (omega (arith, length-strip white fuel (drop (white t) t), length-drop (white t) t))
]

length-backwards : (t : Text) → length (backwards t) ≡ length t
length-backwards [] = refl
length-backwards (b ∷ t) = omega (arith, length-append (backwards t) (b ∷ []), length-backwards t)

-- A trimmed text is not longer.
pub length-trim : (t : Text) → length (trim t) ≤ length t
unfolding trim
length-trim t =
    let front = strip white_at (length t) t in
    let back = strip white_before (length front) (backwards front) in
    omega (
      arith,
      length-backwards back,
      length-strip white_before (length front) (backwards front),
      length-backwards front,
      length-strip white_at (length t) t,
    )
