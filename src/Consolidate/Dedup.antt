-- ===== src/Consolidate/Dedup.antt =====
-- `plan_dedup` (crates/vault-consolidator/src/phases/dedup.rs): which memories of a cluster are one
-- fact in the same words, and which of them survives. The arithmetic of `f32`, and the splitting of a
-- text into its lower-case words, which reads the tables of Unicode, are parameters.
pub mod Criteria
pub mod Best
use agent_memory_vault.Base.{
  ℕ, suc, ◌+◌, ◌%◌, min, Bool, true, false, not, ◌&&◌, ◌||◌, Option, none, some, List, [], ◌∷◌,
  ◌++◌, map, any, every, keep, ltb, leb, ◌==◌, if◌then◌else◌, length,
}
use agent_memory_vault.Base.Sort.{sort_by}
use agent_memory_vault.Core.Text.{Text, text_eq, text_le}
use agent_memory_vault.Core.Float.{F32, f32_zero, f32_lt, f32_max}
use agent_memory_vault.Core.Memory.{Memory, MemoryId}

pub record DedupPlan : Type 0 where
  pub survivor : MemoryId
  pub superseded : List MemoryId
  pub summed_access_count : ℕ
  pub max_confidence : F32

-- 0.93 and 0.80.
abbrev pub near_identical_cos : F32
near_identical_cos = 0x3f6e147b

abbrev pub near_identical_lex : F32
near_identical_lex = 0x3f4ccccd

-- `token_sequence`; `*`, `+`, `/` and `as f32`.
pub record Wording : Type 0 where
  pub token_sequence : Text → List Text
  pub times : F32 → F32 → F32
  pub plus : F32 → F32 → F32
  pub divide : F32 → F32 → F32
  pub of_nat : ℕ → F32

abbrev pub texts_eq : List Text → List Text → Bool
texts_eq [] [] = true
texts_eq [] (_ ∷ _) = false
texts_eq (_ ∷ _) [] = false
texts_eq (a ∷ s) (b ∷ t) = text_eq a b && texts_eq s t

abbrev pub is_token : Text → List Text → Bool
is_token w ws = any (λ x. text_eq x w) ws

-- `collect` into a `HashSet`.
unfoldable pub distinct : List Text → List Text
distinct [] = []
distinct (w ∷ ws) = let rest = distinct ws in if is_token w rest then rest else w ∷ rest

module _ (W : Wording) where
  unfoldable pub tokens : Text → List Text
  unfolding distinct
  tokens s = distinct (W.token_sequence s)

  unfoldable pub is_pure_reordering : Text → Text → Bool
  is_pure_reordering a b =
      let s = W.token_sequence a in
      let t = W.token_sequence b in
      if texts_eq s t then false else texts_eq (sort_by text_le s) (sort_by text_le t)

  unfoldable pub token_containment : Text → Text → F32
  unfolding tokens
  token_containment a b =
      let s = tokens a in
      let t = tokens b in
      let shorter = min (length s) (length t) in
      if shorter == 0
      then f32_zero
      else W.divide (W.of_nat (length (keep (λ w. is_token w t) s))) (W.of_nat shorter)

  unfoldable pub dot : F32 → List F32 → List F32 → F32
  dot sum [] b = sum
  dot sum (x ∷ a) [] = sum
  dot sum (x ∷ a) (y ∷ b) = dot (W.plus sum (W.times x y)) a b

  unfoldable pub cosine_similarity : List F32 → List F32 → F32
  unfolding dot
  cosine_similarity a b = if length a == length b then dot f32_zero a b else f32_zero

  -- The three tests on a pair that return `None`.
  unfoldable pub tells_apart : Memory → List F32 → Memory → List F32 → Bool
  unfolding is_pure_reordering token_containment cosine_similarity
  tells_apart m u n v =
      f32_lt (cosine_similarity u v) near_identical_cos
      || (f32_lt (token_containment m.content n.content) near_identical_lex
          || is_pure_reordering m.content n.content)

  -- One memory against those behind it.
  unfoldable pub one_tells_apart : Memory → List F32 → List Memory → List (List F32) → Bool
  unfolding tells_apart
  one_tells_apart m u [] vs = false
  one_tells_apart m u (n ∷ ns) [] = false
  one_tells_apart m u (n ∷ ns) (v ∷ vs) = tells_apart m u n v || one_tells_apart m u ns vs

  -- The two loops: some pair is told apart.
  unfoldable pub some_tells_apart : List Memory → List (List F32) → Bool
  unfolding one_tells_apart
  some_tells_apart [] vs = false
  some_tells_apart (m ∷ ms) [] = false
  some_tells_apart (m ∷ ms) (u ∷ us) = one_tells_apart m u ms us || some_tells_apart ms us

-- `decide!` on two numbers, and on two `f32`.
abbrev pub decide : ℕ → ℕ → Bool → Bool
decide a b rest = if ltb b a then true else if ltb a b then false else rest

abbrev pub decide_f32 : F32 → F32 → Bool → Bool
decide_f32 a b rest = if f32_lt b a then true else if f32_lt a b then false else rest

unfoldable pub is_better_survivor : Memory → Memory → Bool
is_better_survivor cand cur = decide cand.valid_from cur.valid_from (
    decide cand.created_at cur.created_at (
      decide (length cand.content) (length cur.content) (
        decide_f32 cand.confidence cur.confidence
          (decide cand.access_count cur.access_count (ltb cand.id cur.id)))))

-- The loop of `pick_survivor`: the best so far with its place, and the place of the next.
unfoldable pub pick_from : ℕ → Memory → ℕ → List Memory → ℕ × Memory
unfolding is_better_survivor
pick_from best m i [] = (best, m)
pick_from best m i (x ∷ rest) =
    let better = is_better_survivor x m in
    pick_from (if better then i else best) (if better then x else m) (suc i) rest

-- The ids at the places other than the survivor's.
unfoldable pub ids_except : ℕ → ℕ → List Memory → List MemoryId
ids_except place i [] = []
ids_except place i (m ∷ rest) =
    let others = ids_except place (suc i) rest in if i == place then others else m.id ∷ others

abbrev pub sum_access : List Memory → ℕ
sum_access [] = 0
sum_access (m ∷ rest) = m.access_count + sum_access rest

abbrev pub fold_confidence : F32 → List Memory → F32
fold_confidence c [] = c
fold_confidence c (m ∷ rest) = fold_confidence (f32_max c m.confidence) rest

-- The plan of a cluster that is one fact. A release build wraps the sum of the counts.
unfoldable pub dedup_plan : Memory → List Memory → DedupPlan
unfolding pick_from ids_except
dedup_plan first rest =
    let chosen = pick_from 0 first 1 rest in
    record {
      survivor = chosen.1.id;
      superseded = ids_except chosen.0 0 (first ∷ rest);
      summed_access_count = sum_access (first ∷ rest) % 0x1_0000_0000;
      max_confidence = fold_confidence f32_zero (first ∷ rest);
    }

unfoldable pub plan_dedup : Wording → List Memory → List (List F32) → Option DedupPlan
unfolding some_tells_apart dedup_plan
plan_dedup W [] embeddings = none
plan_dedup W (first ∷ rest) embeddings =
    if ltb (suc (length rest)) 2 || not (suc (length rest) == length embeddings)
    then none
    else if some_tells_apart W (first ∷ rest) embeddings
    then none
    else some (dedup_plan first rest)
