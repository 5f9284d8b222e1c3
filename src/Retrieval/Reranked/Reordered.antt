-- ===== src/Retrieval/Reranked/Reordered.antt =====
-- The reranker reorders and drops nothing below its cap.
use mathlib.Core.List.{Perm}
use agent_memory_vault.Base.{
  ◌≡◌, ◌≢◌, refl, sym, ap, subst, arith, Bool, true, false, List, [], ◌∷◌, map, ◌==◌, length, take,
  drop, take-append-drop, All, if◌then◌else◌, Bool-cases, inl, inr, leb,
}
use agent_memory_vault.Base.Sort.{
  sort_by, IsSorted, sort_by-IsSorted, sort_by-agree, map-sort_by-perm,
}
use agent_memory_vault.Core.Text.{Text, codes}
use agent_memory_vault.Core.Float.{F32, f32_zero, f32_lt, is_nan, rank_key, value_le}
use agent_memory_vault.Core.Error.{
  VaultError, Result, ok, err, panicked, embedding, model_unavailable,
}
use agent_memory_vault.Core.Memory.{Memory}
use agent_memory_vault.Retrieval.Query.{RetrievedMemory}
use agent_memory_vault.Retrieval.Reranked.{
  Reranker, rerank_candidate_cap, is_model_unavailable, relevance_score, rescored, not_below,
  content_of, reorder, rerank_pool,
}

-- No lower score.
abbrev pub score_at_least : RetrievedMemory → RetrievedMemory → Bool
score_at_least a b = leb (rank_key b.score) (rank_key a.score)

-- The candidates, each with the relevance of its own logit: the logistic function of it, and 0 where it
-- is no number.
abbrev pub relevances : Reranker → List RetrievedMemory → List F32 → List (Memory × F32)
relevances R [] logits = []
relevances R (c ∷ cs) [] = []
relevances R (c ∷ cs) (x ∷ logits) =
    (c.memory, (if is_nan x then f32_zero else R.logistic x)) ∷ relevances R cs logits

abbrev pub memory_and_score : RetrievedMemory → Memory × F32
memory_and_score r = (r.memory, r.score)

-- What may be made of a pool, given the cross encoder's answer.
pub data Reordered (R : Reranker) (scores : Result (List F32)) (pool : List RetrievedMemory)
    : Result (List RetrievedMemory) → Type 0 where
  failed :
      (why : VaultError)
      → pool ≢ []
      → scores ≡ err why
      → is_model_unavailable why ≡ false
      → Reordered R scores pool (err why)
  miscounted :
      (logits : List F32) (why : Text)
      → scores ≡ ok logits
      → length logits ≢ length (take rerank_candidate_cap pool)
      → Reordered R scores pool (err (embedding why))
  stopped : scores ≡ panicked → Reordered R scores pool panicked
  empty : pool ≡ [] → Reordered R scores pool (ok pool)
  unavailable :
      (component : Text)
      → scores ≡ err (model_unavailable component)
      → Reordered R scores pool (ok pool)
  ranked :
      (logits : List F32) (out : List RetrievedMemory)
      → scores ≡ ok logits
      → length logits ≡ length (take rerank_candidate_cap pool)
      → Perm (map memory_and_score out) (relevances R (take rerank_candidate_cap pool) logits)
      → IsSorted score_at_least out
      → Reordered R scores pool (ok out)

module _ (R : Reranker)
    (numbers : (x : F32) → is_nan x ≡ false → is_nan (R.logistic x) ≡ false) where
  rescored-numbers :
      (cs : List RetrievedMemory) (scores : List F32)
      → All (λ r. is_nan r.score ≡ false) (rescored R cs scores)
  unfolding rescored relevance_score
  rescored-numbers [] scores = tt
  rescored-numbers (c ∷ cs) [] = tt
  rescored-numbers (c ∷ cs) (logit ∷ scores) = elim (Bool-cases (is_nan logit)) [
    | inl bad ↦ (rw bad refl, rescored-numbers cs scores)
    | inr good ↦ (rw good (numbers logit good), rescored-numbers cs scores)
  ]

map-rescored :
    (R : Reranker) (cs : List RetrievedMemory) (scores : List F32)
    → map memory_and_score (rescored R cs scores) ≡ relevances R cs scores
unfolding rescored relevance_score
map-rescored R [] scores = refl
map-rescored R (c ∷ cs) [] = refl
map-rescored R (c ∷ cs) (x ∷ scores) =
    ap (λ t. (c.memory, (if is_nan x then f32_zero else R.logistic x)) ∷ t)
      (map-rescored R cs scores)

not_below-score_at_least :
    (a b : RetrievedMemory)
    → is_nan a.score ≡ false
    → is_nan b.score ≡ false
    → not_below a b ≡ score_at_least a b
unfolding not_below f32_lt value_le
not_below-score_at_least a b ha hb = ground arith

not_below-IsSorted :
    (xs : List RetrievedMemory)
    → All (λ r. is_nan r.score ≡ false) xs
    → IsSorted score_at_least (sort_by not_below xs)
not_below-IsSorted xs h =
    subst (IsSorted score_at_least)
      (sym (
        sort_by-agree not_below score_at_least (λ r. is_nan r.score ≡ false)
          not_below-score_at_least xs h))
      (sort_by-IsSorted score_at_least (λ a b t. ground arith) (λ a b c t u. ground arith) xs)

missing-model :
    (e : VaultError)
    → is_model_unavailable e ≡ true
    → (component : Text) × (e ≡ model_unavailable component)
missing-model (model_unavailable c) h = (c, refl)
missing-model e h = absurd (ground (arith, h))

reorder-Reordered :
    (R : Reranker) (pool : List RetrievedMemory) (scores : Result (List F32))
    → ((x : F32) → is_nan x ≡ false → is_nan (R.logistic x) ≡ false)
    → pool ≢ []
    → Reordered R scores pool
        (reorder R (take rerank_candidate_cap pool) (drop rerank_candidate_cap pool) scores)
unfolding reorder
reorder-Reordered R pool (ok scores) numbers more =
    let head = take rerank_candidate_cap pool in
    elim (Bool-cases (length scores == length head)) [
      | inl same ↦
          let out = rescored R head scores in
          rw same (
            ranked scores (sort_by not_below out) refl (ground (arith, same))
              (subst (Perm (map memory_and_score (sort_by not_below out)))
                (map-rescored R head scores) (map-sort_by-perm not_below memory_and_score out))
              (not_below-IsSorted out (rescored-numbers R numbers head scores)))
      | inr other ↦ rw other (
          miscounted scores (codes "reranker returned another number of scores") refl
            (λ e. ground (arith, other, e)))
    ]
reorder-Reordered R pool (err e) numbers more = elim (Bool-cases (is_model_unavailable e)) [
  | inl missing ↦
      let (component, same) = missing-model e missing in
      rw (missing, take-append-drop rerank_candidate_cap pool) (unavailable component (ap err same))
  | inr other ↦ rw other (failed e more refl other)
]
reorder-Reordered R pool panicked numbers more = stopped refl

-- Where the logistic function of a number is a number, `rerank_pool` returns the empty pool as it is; of
-- any other pool it returns the first 40 candidates, each as often as in the pool and none dropped,
-- each with the relevance of the logit that the cross encoder gave at its place, by falling
-- relevance; or the whole pool as it was where the model is unavailable; or it fails, with the error
-- of the cross encoder or because that gave another number of scores.
pub rerank_pool-Reordered :
    (R : Reranker) (query_text : Text) (pool : List RetrievedMemory)
    → ((x : F32) → is_nan x ≡ false → is_nan (R.logistic x) ≡ false)
    → Reordered R
        (R.rerank query_text (map content_of (take rerank_candidate_cap pool)))
        pool
        (rerank_pool R query_text pool)
unfolding rerank_pool
rerank_pool-Reordered R query_text [] numbers = empty refl
rerank_pool-Reordered R query_text (c ∷ cs) numbers =
    let more : (length (c ∷ cs) == 0) ≡ false = ground arith in
    rw (rerank_pool, more)
      (reorder-Reordered R (c ∷ cs)
        (R.rerank query_text (map content_of (take rerank_candidate_cap (c ∷ cs)))) numbers
        (λ e. cc))
