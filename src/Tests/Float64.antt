-- ===== src/Tests/Float64.antt =====
-- Fixed-point numbers in quarters as an instance of what the retry schedule uses of `f64`.
use agent_memory_vault.Base.{
  ℕ, ◌+◌, ◌-◌, ◌*◌, ◌/◌, ◌≤◌, ◌≡◌, refl, ap, Bool, true, false, ltb, leb, if◌then◌else◌, arith,
}
use agent_memory_vault.Storage.Backoff.{F64}
use agent_memory_vault.Storage.Backoff.Bounds.{IsIeee}

pub data Fixed : Type 0 where
  neg pos : ℕ → Fixed

abbrev add : Fixed → Fixed → Fixed
add (pos a) (pos b) = pos (a + b)
add (pos a) (neg b) = if leb b a then pos (a - b) else neg (b - a)
add (neg a) (pos b) = if leb a b then pos (b - a) else neg (a - b)
add (neg a) (neg b) = neg (a + b)

abbrev mul : Fixed → Fixed → Fixed
mul (pos a) (pos b) = pos (a * b / 4)
mul (pos a) (neg b) = neg (a * b / 4)
mul (neg a) (pos b) = neg (a * b / 4)
mul (neg a) (neg b) = pos (a * b / 4)

abbrev below : Fixed → Fixed → Bool
below (pos a) (pos b) = ltb a b
below (pos a) (neg b) = false
below (neg a) (pos b) = true
below (neg a) (neg b) = ltb b a

abbrev non_negative : Fixed → Fixed → Fixed
non_negative (pos a) _ = pos a
non_negative (neg a) y = y

abbrev truncated : Fixed → ℕ
truncated (pos a) = a / 4
truncated (neg a) = 0

abbrev pub fixed : F64
fixed = record {
  Carrier = Fixed;
  of_nat = λ n. pos (n * 4);
  minus_one = neg 4;
  quarter = pos 1;
  add = add;
  mul = mul;
  clamp = λ x low high. if below x low then low else if below high x then high else x;
  f64_max = non_negative;
  to_i64 = truncated;
}

abbrev IsBelow : Fixed → Fixed → Type 0
IsBelow (pos a) (pos b) = a ≤ b
IsBelow (pos a) (neg b) = ⊥
IsBelow (neg a) (pos b) = Unit
IsBelow (neg a) (neg b) = b ≤ a

clamp_between :
    (x : Fixed)
    → IsBelow (neg 4) (fixed.clamp x (neg 4) (pos 4))
      × IsBelow (fixed.clamp x (neg 4) (pos 4)) (pos 4)
clamp_between (pos a) = ground arith
clamp_between (neg a) = ground arith

add_mono : (x y : Fixed) → IsBelow x y → IsBelow (add (pos 4) x) (add (pos 4) y)
add_mono (pos a) (pos b) h = omega arith
add_mono (pos a) (neg b) h = absurd h
add_mono (neg a) (pos b) h = ground arith
add_mono (neg a) (neg b) h = ground arith

scaled_le : (c a b : ℕ) → a ≤ b → c * a / 4 ≤ c * b / 4
scaled_le c a b h = let larger : c * a ≤ c * b = grind arith in omega arith

mul_mono : (c : ℕ) (x y : Fixed) → IsBelow x y → IsBelow (mul (pos c) x) (mul (pos c) y)
mul_mono c (pos a) (pos b) h = scaled_le c a b h
mul_mono c (pos a) (neg b) h = absurd h
mul_mono c (neg a) (pos b) h = tt
mul_mono c (neg a) (neg b) h = scaled_le c b a h

scaled_left_le : (c a b : ℕ) → a ≤ b → a * c / 4 ≤ b * c / 4
scaled_left_le c a b h = let larger : a * c ≤ b * c = grind arith in omega arith

mul_mono_left : (c : ℕ) (x y : Fixed) → IsBelow x y → IsBelow (mul x (pos c)) (mul y (pos c))
mul_mono_left c (pos a) (pos b) h = scaled_left_le c a b h
mul_mono_left c (pos a) (neg b) h = absurd h
mul_mono_left c (neg a) (pos b) h = tt
mul_mono_left c (neg a) (neg b) h = scaled_left_le c b a h

quarter_exact : (n k : ℕ) → n * 4 * k / 4 ≡ n * k
quarter_exact n k = let whole : n * 4 * k ≡ n * k * 4 = grind arith in rw whole (omega arith)

max_mono : (x y : Fixed) → IsBelow x y → IsBelow (non_negative x (pos 0)) (non_negative y (pos 0))
max_mono (pos a) (pos b) h = h
max_mono (pos a) (neg b) h = absurd h
max_mono (neg a) (pos b) h = omega arith
max_mono (neg a) (neg b) h = omega arith

truncated_mono : (x y : Fixed) → IsBelow x y → truncated x ≤ truncated y
truncated_mono (pos a) (pos b) h = omega arith
truncated_mono (pos a) (neg b) h = absurd h
truncated_mono (neg a) (pos b) h = omega arith
truncated_mono (neg a) (neg b) h = omega arith

pub fixed-IsIeee : IsIeee fixed
fixed-IsIeee = record {
  quarters = pos;
  le = IsBelow;
  IsNumber = λ _. Unit;
  clamp_range = λ x _. clamp_between x;
  quarter_low = refl;
  quarter_high = refl;
  add_mono = add_mono;
  quarter_mono = mul_mono 1;
  mul_mono = λ n x y _. mul_mono (n * 4) x y;
  mul_mono_left = λ n x y _. mul_mono_left (n * 4) x y;
  mul_exact = λ n k _. ap pos (quarter_exact n k);
  mul_exact_left = λ n k _. ap pos (omega arith);
  max_mono = max_mono;
  max_exact = λ k. refl;
  to_i64_mono = truncated_mono;
  to_i64_exact = λ k _. refl;
}

pub fixed-IsNumber : (x : Fixed) → fixed-IsIeee.IsNumber x
unfolding fixed-IsIeee
fixed-IsNumber x = tt
