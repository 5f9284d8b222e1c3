-- ===== src/App/Mcp/Named.antt =====
-- The boundary that a request names, and the one of the memory that is made of it.
use agent_memory_vault.Base.{◌≡◌, inl, inr, refl, true, List, Bool-cases}
use agent_memory_vault.Core.Text.{Text}
use agent_memory_vault.Core.Float.{F32}
use agent_memory_vault.Core.Error.{Result, IfOk, IfOk-bind, always, after_check, Result-cases}
use agent_memory_vault.Core.Boundary
use agent_memory_vault.Core.Memory.{
  Memory, MemoryId, NewMemory, Time, validate, fresh_memory, try_new,
}
use agent_memory_vault.App.Normalize.{normalize_for_canonical_save}
use agent_memory_vault.App.Adapter.{Fresh, prepare_write}
use agent_memory_vault.App.Mcp.{
  WriteToolParams, Dates, is_authorized, named_boundary, check_write, parse_memory_type,
  parse_valid_from, new_memory,
}

named_boundary-authorized :
    (authorized : List Text) (params : WriteToolParams)
    → IfOk (λ b. is_authorized authorized b ≡ true) (named_boundary authorized params)
unfolding named_boundary
named_boundary-authorized authorized params = elim (Result-cases (Boundary.new params.boundary)) [
  | inl (b, h) ↦ elim (Bool-cases (is_authorized authorized b)) [
    | inl in_set ↦ rw (named_boundary, h, in_set, IfOk) in_set
    | inr out ↦ rw (named_boundary, h, out, IfOk) tt
  ]
  | inr (inl (e, h)) ↦ rw (named_boundary, h, IfOk) tt
  | inr (inr h) ↦ rw (named_boundary, h, IfOk) tt
]

pub check_write-authorized :
    (authorized : List Text) (P : Dates) (id : MemoryId) (now : Time) (params : WriteToolParams)
    → IfOk
        (λ a. is_authorized authorized a.boundary ≡ true)
        (check_write authorized P id now params)
unfolding check_write
check_write-authorized authorized P id now params =
    IfOk-bind _ _ (named_boundary authorized params) _ (named_boundary-authorized authorized params)
      (λ b h.
        IfOk-bind (λ _. Unit) _ (parse_memory_type params.memory_type) _ (always _)
          (λ t _.
            IfOk-bind (λ _. Unit) _ (parse_valid_from P params.as_of) _ (always _)
              (λ from _.
                IfOk-bind (λ _. Unit) _ (try_new id now (new_memory params b t from)) _ (always _)
                  (λ _ _. h))))

pub try_new-boundary :
    (id : MemoryId) (now : Time) (args : NewMemory)
    → IfOk (λ m. m.boundary ≡ args.boundary) (try_new id now args)
unfolding try_new
try_new-boundary id now args =
    let m = fresh_memory id now args in
    after_check {A = Memory} (λ m. m.boundary ≡ args.boundary) (validate m) m refl

pub prepare_write-boundary :
    (embed : Text → Result (List F32)) (fresh : Fresh) (args : NewMemory)
    → IfOk (λ r. r.0.boundary ≡ args.boundary) (prepare_write embed fresh args)
unfolding prepare_write try_new
prepare_write-boundary embed fresh args =
    IfOk-bind (λ _. Unit) _ (normalize_for_canonical_save args.content) _ (always _)
      (λ content _.
        IfOk-bind (λ m. m.boundary ≡ args.boundary) _
          (try_new fresh.new_id fresh.now (record args { content = content })) _
          (try_new-boundary fresh.new_id fresh.now (record args { content = content }))
          (λ m h. IfOk-bind (λ _. Unit) _ (embed m.content) _ (always _) (λ _ _. h)))
