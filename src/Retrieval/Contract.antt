-- ===== src/Retrieval/Contract.antt =====
-- What a retriever promises (the invariants of crates/vault-retrieval/src/retriever.rs).
pub mod Connected
pub mod Lexical
pub mod Dense
pub mod Embedded
pub mod Fused
pub mod Searched
pub mod Refused
use agent_memory_vault.Base.{
  ℕ, ◌≤◌, ◌<◌, ◌≡◌, refl, sym, subst, ◌∙◌, arith, Bool, true, false, not, ◌&&◌, ◌||◌, List, [], ◌∷◌,
  ltb, leb, ◌==◌, if◌then◌else◌, length, take, any, All, All-take, length-take, Bool-cases, inl,
  inr,
}
use agent_memory_vault.Base.Sort.{
  sort_by, IsSorted, sort_by-IsSorted, sort_by-agree, IsSorted-take, All-sort_by,
}
use agent_memory_vault.Core.Text.{Text, text_eq}
use agent_memory_vault.Core.Float.{F32, rank_key, is_nan, f32_lt, value_le}
use agent_memory_vault.Core.Error.{VaultError, Result, ok, err, panicked, ◌>>=◌, ◌>>◌}
use agent_memory_vault.Core.Memory.{Memory, MemoryId, Time, reject_if}
use agent_memory_vault.Retrieval.Query.{
  RetrievalQuery, RetrievedMemory, Retriever, is_authorized, check_query, max_results_cap,
}
use agent_memory_vault.Retrieval.Ranking.{ranks_before, not_after, best}

-- A better score, or an equal one and no earlier creation.
abbrev pub precedes : F32 → Time → F32 → Time → Bool
precedes a at b bt = ltb (rank_key b) (rank_key a) || rank_key a == rank_key b && leb bt at

abbrev pub in_rank : RetrievedMemory → RetrievedMemory → Bool
in_rank a b = precedes a.score a.memory.created_at b.score b.memory.created_at

-- The vectors of the store, each with the id of its memory and the boundary it was stored with.
abbrev pub Vectorized : Type 0
Vectorized = List (MemoryId × Text)

-- The store has a vector of the memory in one of the boundaries.
abbrev pub in_vectors : Vectorized → MemoryId → List Text → Bool
in_vectors S id boundaries = any (λ v. v.0 == id && any (λ b. text_eq b v.1) boundaries) S

-- The row of the memory, or a vector of it, lies in a boundary of the caller. The two differ where an
-- update has moved the memory and its cascade has not reached the store.
abbrev pub is_visible : Vectorized → RetrievalQuery → Memory → Bool
is_visible S q m = is_authorized q m || in_vectors S m.id q.authorized_boundaries

pub authorized-visible :
    (S : Vectorized) (q : RetrievalQuery) (m : Memory)
    → is_authorized q m ≡ true
    → is_visible S q m ≡ true
authorized-visible S q m h = rw h refl

-- What a list of results promises to a query.
pub record Answer (S : Vectorized) (q : RetrievalQuery) (out : List RetrievedMemory) : Type 0 where
  pub bounded : length out ≤ q.max_results
  pub visible : All (λ r. is_visible S q r.memory ≡ true) out
  pub ordered : IsSorted in_rank out

-- A retriever fails, or its results keep the promise.
pub data Answers (S : Vectorized) (q : RetrievalQuery)
    : Result (List RetrievedMemory) → Type 0 where
  failed : (why : VaultError) → Answers S q (err why)
  stopped : Answers S q panicked
  answered : (out : List RetrievedMemory) → Answer S q out → Answers S q (ok out)

abbrev pub Contract : Vectorized → Retriever → Type 0
Contract S r = (q : RetrievalQuery) → Answers S q (r q)

pub not_after-precedes :
    (a : F32) (at : Time) (b : F32) (bt : Time)
    → is_nan a ≡ false
    → is_nan b ≡ false
    → not_after a at b bt ≡ precedes a at b bt
unfolding not_after f32_lt value_le
not_after-precedes a at b bt ha hb = ground arith

-- Results that are authorized and whose scores are numbers, sorted and truncated.
pub best-Answer :
    (S : Vectorized) (q : RetrievalQuery) (results : List RetrievedMemory)
    → All (λ r. is_nan r.score ≡ false) results
    → All (λ r. is_visible S q r.memory ≡ true) results
    → Answer S q (best q.max_results results)
best-Answer S q results numbers allowed = record {
  bounded = omega (arith, length-take q.max_results (sort_by ranks_before results));
  visible =
      All-take (λ r. is_visible S q r.memory ≡ true) q.max_results (sort_by ranks_before results)
        (All-sort_by ranks_before (λ r. is_visible S q r.memory ≡ true) results allowed);
  ordered =
      subst (λ t. IsSorted in_rank (take q.max_results t))
        (sym (
          sort_by-agree ranks_before in_rank (λ r. is_nan r.score ≡ false)
            (λ a b ha hb.
              not_after-precedes a.score a.memory.created_at b.score b.memory.created_at ha hb)
            results numbers))
        (IsSorted-take in_rank q.max_results (sort_by in_rank results)
          (sort_by-IsSorted in_rank (λ a b h. ground arith) (λ a b c h k. ground arith) results));
}

pub empty-Answer : (S : Vectorized) (q : RetrievalQuery) → Answer S q []
empty-Answer S q = record { bounded = omega arith; visible = tt; ordered = tt }

-- The checks, the short way out, and the work.
pub guarded-Answers :
    (S : Vectorized) (q : RetrievalQuery) (checked : Result (Unit {0}))
    (work : Result (List RetrievedMemory))
    → Answers S q work
    → Answers S q (checked >> (if length q.authorized_boundaries == 0 then ok [] else work))
guarded-Answers S q (ok _) work a = elim (Bool-cases (length q.authorized_boundaries == 0)) [
  | inl closed ↦ rw closed (answered [] (empty-Answer S q))
  | inr more ↦ rw more a
]
guarded-Answers S q (err e) work a = failed e
guarded-Answers S q panicked work a = stopped
