-- ===== src/Consolidate/Dedup/Criteria.antt =====
-- The order of the criteria by which a survivor is chosen.
use agent_memory_vault.Base.{
  ℕ, ◌≡◌, sym, ap, ◌∙◌, arith, Bool, true, false, List, [], ◌∷◌, ltb, ◌==◌, ◌&&◌, ◌||◌, length,
}
use agent_memory_vault.Core.Float.{F32, f32_lt, value_le, is_nan, rank_key}
use agent_memory_vault.Core.Memory.{Memory, MemoryId}
use agent_memory_vault.Consolidate.Dedup.{decide, decide_f32, is_better_survivor}

-- One criterion: what is not better than a second stays so against what is better than that.
decide-not_better :
    (x b c : ℕ) (rxb rcb rxc : Bool)
    → (rxb ≡ false → rcb ≡ true → rxc ≡ false)
    → decide x b rxb ≡ false
    → decide c b rcb ≡ true
    → decide x c rxc ≡ false
decide-not_better x b c rxb rcb rxc rest h k = ground (arith, rest, h, k)

decide_f32-decide :
    (a b : F32) (rest : Bool)
    → is_nan a ≡ false
    → is_nan b ≡ false
    → decide_f32 a b rest ≡ decide (rank_key a) (rank_key b) rest
unfolding f32_lt value_le
decide_f32-decide a b rest ha hb = ground arith

-- The confidence is a number, as it is for every valid memory.
abbrev pub IsNumbered : Memory → Type 0
IsNumbered m = is_nan m.confidence ≡ false

abbrev pub id_of : Memory → MemoryId
id_of m = m.id

-- The six criteria, all on numbers.
better_by_keys :
    (a b : Memory)
    → IsNumbered a
    → IsNumbered b
    → is_better_survivor a b
      ≡ decide a.valid_from b.valid_from (
          decide a.created_at b.created_at (
            decide (length a.content) (length b.content) (
              decide
                (rank_key a.confidence)
                (rank_key b.confidence)
                (decide a.access_count b.access_count (ltb a.id b.id)))))
unfolding is_better_survivor
better_by_keys a b ha hb =
    ap
      (λ t.
        decide a.valid_from b.valid_from
          (decide a.created_at b.created_at (decide (length a.content) (length b.content) t)))
      (decide_f32-decide a.confidence b.confidence
        (decide a.access_count b.access_count (ltb a.id b.id)) ha hb)

pub not_better_trans :
    (x b c : Memory)
    → IsNumbered x
    → IsNumbered b
    → IsNumbered c
    → is_better_survivor x b ≡ false
    → is_better_survivor c b ≡ true
    → is_better_survivor x c ≡ false
not_better_trans x b c hx hb hc h k =
    better_by_keys x c hx hc
    ∙ decide-not_better x.valid_from b.valid_from c.valid_from _ _ _
        (decide-not_better x.created_at b.created_at c.created_at _ _ _ (
          decide-not_better (length x.content) (length b.content) (length c.content) _ _ _ (
            decide-not_better (rank_key x.confidence) (rank_key b.confidence)
              (rank_key c.confidence) _ _ _
              (decide-not_better x.access_count b.access_count c.access_count _ _ _
                (λ p q. ground (arith, p, q))))))
        (sym (better_by_keys x b hx hb) ∙ h) (sym (better_by_keys c b hc hb) ∙ k)

pub not_better_self : (m : Memory) → IsNumbered m → is_better_survivor m m ≡ false
not_better_self m h = better_by_keys m m h h ∙ ground arith

-- The order of two sequences of numbers by the first place in which they differ.
abbrev pub lexicographic : List ℕ → List ℕ → Bool
lexicographic [] t = true
lexicographic (a ∷ s) [] = false
lexicographic (a ∷ s) (b ∷ t) = ltb a b || a == b && lexicographic s t

-- The second is as good as the first: it has the later start of validity, of equal ones the later
-- creation, then the longer content, the higher confidence, the more reads, and at last the
-- smaller id.
abbrev pub IsAsGood : Memory → Memory → Type 0
IsAsGood x kept =
    lexicographic
      (x.valid_from
        ∷ x.created_at
        ∷ length x.content
        ∷ rank_key x.confidence
        ∷ x.access_count
        ∷ kept.id
        ∷ [])
      (kept.valid_from
        ∷ kept.created_at
        ∷ length kept.content
        ∷ rank_key kept.confidence
        ∷ kept.access_count
        ∷ x.id
        ∷ [])
    ≡ true

decide-lexicographic :
    (a b : ℕ) (r l : Bool)
    → decide a b r ≡ false
    → (r ≡ false → l ≡ true)
    → (ltb a b || a == b && l) ≡ true
decide-lexicographic a b r l h k = ground (arith, h, k)

pub not_better-IsAsGood :
    (x kept : Memory)
    → IsNumbered x
    → IsNumbered kept
    → is_better_survivor x kept ≡ false
    → IsAsGood x kept
not_better-IsAsGood x kept hx hk h =
    decide-lexicographic x.valid_from kept.valid_from _ _ (sym (better_by_keys x kept hx hk) ∙ h)
      (λ h1. decide-lexicographic x.created_at kept.created_at _ _ h1 (λ h2.
        decide-lexicographic (length x.content) (length kept.content) _ _ h2 (λ h3.
          decide-lexicographic (rank_key x.confidence) (rank_key kept.confidence) _ _ h3 (λ h4.
            decide-lexicographic x.access_count kept.access_count _ _ h4
              (λ h5. ground (arith, h5))))))
