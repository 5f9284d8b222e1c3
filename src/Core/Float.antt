-- ===== src/Core/Float.antt =====
-- `f32` as its bit pattern: a number below 2 ^ 32. Tests, comparisons and `max` are functions of
-- the bits, as IEEE 754 defines them; arithmetic is a parameter wherever it is used.
use agent_memory_vault.Base.{ℕ, ◌+◌, ◌-◌, ◌%◌, Bool, true, not, ◌&&◌, ltb, leb, ◌==◌, if◌then◌else◌}

abbrev pub F32 : Type 0
F32 = ℕ

abbrev pub magnitude : F32 → ℕ
magnitude x = x % 0x8000_0000

abbrev pub is_negative : F32 → Bool
is_negative x = leb 0x8000_0000 (x % 0x1_0000_0000)

abbrev pub infinity : F32
infinity = 0x7f80_0000

abbrev pub f32_zero : F32
f32_zero = 0

abbrev pub f32_one : F32
f32_one = 0x3f80_0000

abbrev pub is_nan : F32 → Bool
is_nan x = ltb infinity (magnitude x)

abbrev pub is_finite : F32 → Bool
is_finite x = ltb (magnitude x) infinity

-- The order of the values where neither is a NaN. The two zeros are equal.
unfoldable pub value_le : F32 → F32 → Bool
value_le x y =
    if is_negative x
    then (if is_negative y then leb (magnitude y) (magnitude x) else true)
    else (if is_negative y
        then magnitude x == 0 && magnitude y == 0
        else leb (magnitude x) (magnitude y))

-- `x <= y` and `x < y`: false where either is a NaN.
unfoldable pub f32_le : F32 → F32 → Bool
unfolding value_le
f32_le x y = not (is_nan x) && not (is_nan y) && value_le x y

unfoldable pub f32_lt : F32 → F32 → Bool
unfolding value_le
f32_lt x y = not (is_nan x) && not (is_nan y) && not (value_le y x)

-- `(0.0..=1.0).contains(&x)`.
unfoldable pub in_unit_range : F32 → Bool
unfolding f32_le
in_unit_range x = f32_le f32_zero x && f32_le x f32_one

-- `f32::max`: the other one where one is a NaN.
unfoldable pub f32_max : F32 → F32 → F32
unfolding value_le
f32_max x y = if is_nan x then y else if is_nan y then x else if value_le x y then y else x

-- The values in order, as numbers: for numbers `<=` is the order of these.
abbrev pub rank_key : F32 → ℕ
rank_key x = if is_negative x then 0x8000_0000 - magnitude x else 0x8000_0000 + magnitude x
