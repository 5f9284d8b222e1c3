-- ===== src/App/Mcp/Gate.antt =====
-- What an agent can reach by `handle_write`, `handle_delete` and `handle_update`.
use agent_memory_vault.Base.{
  ℕ, ◌≡◌, inl, inr, refl, ap, ◌∙◌, subst, true, not, Option, some, List, [], ◌∷◌, ◌++◌, keep,
  Bool-cases, Option-cases,
}
use agent_memory_vault.Core.Text.{Text}
use agent_memory_vault.Core.Float.{F32}
use agent_memory_vault.Core.Error.{VaultError, Result, ok, err, panicked, IfOk, ◌>>=◌}
use agent_memory_vault.Core.Memory.{Memory, MemoryId, NewMemory, Time}
use agent_memory_vault.Storage.Backoff.{F64}
use agent_memory_vault.Storage.Audit.Chain.{Encoding}
use agent_memory_vault.Storage.Cascade.{
  Ack, Codec, Draws, Vault, memory_key, tx_get_memory, tx_insert_memory, as_row,
}
use agent_memory_vault.Storage.Cascade.Write.{write_memory, delete_memory}
use agent_memory_vault.Storage.Cascade.Rows.{tx_insert_memory-cases}
use agent_memory_vault.Storage.Cascade.Kept.{
  keep-snoc, keep-delete, write_memory-Kept, delete_memory-Kept,
}
use agent_memory_vault.Storage.Cascade.Invariant.{IsValid}
use agent_memory_vault.Storage.Cascade.Invariant.Calls.{write_memory-IsValid, delete_memory-IsValid}
use agent_memory_vault.Storage.Reading.{get_memory, Read, failed, read, get_memory-Read}
use agent_memory_vault.App.Adapter
use agent_memory_vault.App.Adapter.{
  KeywordWriter, World, Fresh, finish, prepare_write, lookup_boundary, boundary_of,
}
use agent_memory_vault.App.Mcp.{
  WriteToolParams, Dates, is_authorized, check_write, delete_found, handle_write, handle_delete,
}
use agent_memory_vault.App.Mcp.Named.{check_write-authorized, prepare_write-boundary}

-- The rows that the agent has no access to.
abbrev pub foreign : List Text → List Memory → List Memory
foreign authorized ms = keep (λ m. not (is_authorized authorized m.boundary)) ms

-- What an agent can ask for, with what the call draws.
pub data Call : Type 0 where
  write : Draws → Fresh → MemoryId → Time → WriteToolParams → Call
  -- The draws of the lookup and of the deletion.
  delete : Draws → Draws → MemoryId → Call

module _ {ℓ} {I : Type ℓ} (F : F64) (E : Encoding) (K : Codec) (D : Draws) (N : KeywordWriter I)
    (authorized : List Text) where
  finish-vault {κ} :
      {A : Type κ} (a : A) (maintain : I → Option VaultError × I) (index : I)
      (r : Result Ack × Vault)
      → (finish F E K D N a maintain index r).1.vault ≡ r.1
  unfolding finish
  finish-vault a maintain index (ok _, v) = refl
  finish-vault a maintain index (err e, v) = refl
  finish-vault a maintain index (panicked, v) = refl

  -- The vault is valid, and the rows that the agent has no access to are these.
  abbrev Keeps : List Memory → Vault → Type 0
  Keeps others v = IsValid E v.tables × (foreign authorized v.tables.memories ≡ others)

  inserted :
      (m : Memory) (ms rows : List Memory)
      → is_authorized authorized m.boundary ≡ true
      → tx_insert_memory m rows ≡ ok ms
      → foreign authorized ms ≡ foreign authorized rows
  inserted m ms rows h e = elim (tx_insert_memory-cases m rows) [
    | inl (why, j) ↦ cc
    | inr (j, _) ↦
        let same : ms ≡ rows ++ (as_row m ∷ []) = cc in
        ap (foreign authorized) same
        ∙ keep-snoc (λ x. not (is_authorized authorized x.boundary)) rows (as_row m) (ap not h)
  ]

  module _ (embed : Text → Result (List F32)) (dimension : ℕ) (fresh : Fresh) where
    stored_write :
        (others : List Memory) (args : NewMemory) (w : World I)
        → is_authorized authorized args.boundary ≡ true
        → (r : Result (Memory × List F32)) → IfOk (λ r. r.0.boundary ≡ args.boundary) r
        → Keeps others w.vault
        → Keeps others
            (elim r as (λ _. Result MemoryId × World I) [
              | ok r ↦
                  finish F E K D N r.0.id
                    (N.upsert r.0.id r.0.content)
                    w.keyword
                    (write_memory F E K D dimension r.0 r.1 w.vault)
              | err e ↦ (err e, w)
              | panicked ↦ (panicked, w)
            ]).1.vault
    stored_write others args w h (ok r) b k =
        rw
          (finish-vault r.0.id (N.upsert r.0.id r.0.content) w.keyword
            (write_memory F E K D dimension r.0 r.1 w.vault))
          (
            (write_memory-IsValid F E K D dimension r.0 r.1 w.vault k.0).0.0,
            write_memory-Kept (λ ms. foreign authorized ms ≡ others) F E K D dimension r.0 r.1
                w.vault k.1
                (λ ms e.
                  inserted r.0 ms w.vault.tables.memories (ap (is_authorized authorized) b ∙ h) e
                  ∙ k.1),
          )
    stored_write others args w h (err e) b k = k
    stored_write others args w h panicked b k = k

    write-Keeps :
        (others : List Memory) (args : NewMemory) (w : World I)
        → is_authorized authorized args.boundary ≡ true
        → Keeps others w.vault
        → Keeps others (Adapter.write F E K D N embed dimension fresh args w).1.vault
    unfolding Adapter.write
    write-Keeps others args w h k =
        stored_write others args w h (prepare_write embed fresh args)
          (prepare_write-boundary embed fresh args) k

    checked_write :
        (others : List Memory) (w : World I) (r : Result NewMemory)
        → IfOk (λ a. is_authorized authorized a.boundary ≡ true) r
        → Keeps others w.vault
        → Keeps others
            (elim r as (λ _. Result MemoryId × World I) [
              | ok args ↦ Adapter.write F E K D N embed dimension fresh args w
              | err e ↦ (err e, w)
              | panicked ↦ (panicked, w)
            ]).1.vault
    checked_write others w (ok args) h k = write-Keeps others args w h k
    checked_write others w (err e) h k = k
    checked_write others w panicked h k = k

    handle_write-Keeps :
        (others : List Memory) (P : Dates) (id : MemoryId) (now : Time) (params : WriteToolParams)
        (w : World I)
        → Keeps others w.vault
        → Keeps others
            (handle_write F E K D N authorized embed dimension fresh P id now params w).1.vault
    unfolding handle_write
    handle_write-Keeps others P id now params w k =
        checked_write others w (check_write authorized P id now params)
          (check_write-authorized authorized P id now params) k

  delete-Keeps :
      (others : List Memory) (id : MemoryId) (m : Memory) (w : World I)
      → tx_get_memory id w.vault.tables.memories ≡ some m
      → is_authorized authorized m.boundary ≡ true
      → Keeps others w.vault
      → Keeps others (Adapter.delete F E K D N id w).1.vault
  unfolding Adapter.delete tx_get_memory
  delete-Keeps others id m w h b k =
      rw (finish-vault {A = Unit {0}} tt (N.delete id) w.keyword (delete_memory F E K D id w.vault))
        (
          (delete_memory-IsValid F E K D id w.vault k.0).0,
          delete_memory-Kept (λ ms. foreign authorized ms ≡ others) F E K D id w.vault k.1
              (keep-delete memory_key (λ x. not (is_authorized authorized x.boundary)) id
                  w.vault.tables.memories {x = m} k.0.memories_keyed h (ap not b)
                ∙ k.1),
        )

  -- A row that is foreign stays, whatever the lookup has found of the memory.
  delete_found-Keeps :
      (others : List Memory) (id : MemoryId) (w : World I)
      → Keeps others w.vault
      → Keeps others
          (delete_found F E K D N authorized id
            (ok (boundary_of (tx_get_memory id w.vault.tables.memories)), w)).1.vault
  unfolding delete_found
  delete_found-Keeps others id w k =
      elim (Option-cases (tx_get_memory id w.vault.tables.memories)) [
        | inl gone ↦ rw (delete_found, gone) k
        | inr (m, h) ↦ elim (Bool-cases (is_authorized authorized m.boundary)) [
          | inl in_set ↦ rw (delete_found, h, in_set) (delete-Keeps others id m w h in_set k)
          | inr out ↦ rw (delete_found, h, out) k
        ]
      ]

  looked_up-Keeps :
      (others : List Memory) (id : MemoryId) (index : I) (v : Vault) (R : Draws)
      (o : Result (Option Memory) × Vault)
      → Read F E R id v o
      → Keeps others v
      → Keeps others
          (delete_found F E K D N authorized id
            ((o.0 >>= λ m. ok (boundary_of m)), record { vault = o.1; keyword = index })).1.vault
  unfolding delete_found
  looked_up-Keeps others id index v R _ (failed why) k = k
  looked_up-Keeps others id index v R _ (read t same valid) k =
      let w : World I = record { vault = record v { tables = t }; keyword = index } in
      let found = ap (λ ms. boundary_of (tx_get_memory id ms)) same in
      subst (λ b. Keeps others (delete_found F E K D N authorized id (ok b, w)).1.vault) found
        (delete_found-Keeps others id w (valid k.0, ap (foreign authorized) same ∙ k.1))

  handle_delete-Keeps :
      (others : List Memory) (R : Draws) (id : MemoryId) (w : World I)
      → Keeps others w.vault
      → Keeps others (handle_delete F E K D N authorized R id w).1.vault
  unfolding handle_delete lookup_boundary
  handle_delete-Keeps others R id w k =
      looked_up-Keeps others id w.keyword w.vault R (get_memory F E R id w.vault)
        (get_memory-Read F E R id w.vault) k

module _ {ℓ} {I : Type ℓ} (F : F64) (E : Encoding) (K : Codec) (N : KeywordWriter I)
    (authorized : List Text) (embed : Text → Result (List F32)) (dimension : ℕ) (P : Dates) where
  -- What a call does to the state.
  abbrev pub handle : Call → World I → World I
  handle (write D fresh id now params) w =
      (handle_write F E K D N authorized embed dimension fresh P id now params w).1
  handle (delete R D id) w = (handle_delete F E K D N authorized R id w).1

  abbrev pub handle_all : List Call → World I → World I
  handle_all [] w = w
  handle_all (c ∷ cs) w = handle_all cs (handle c w)

  abbrev KeepsRows : List Memory → Vault → Type 0
  KeepsRows others v = IsValid E v.tables × (foreign authorized v.tables.memories ≡ others)

  handle-Keeps :
      (others : List Memory) (c : Call) (w : World I)
      → KeepsRows others w.vault
      → KeepsRows others (handle c w).vault
  handle-Keeps others (write D fresh id now params) w k =
      handle_write-Keeps F E K D N authorized embed dimension fresh others P id now params w k
  handle-Keeps others (delete R D id) w k = handle_delete-Keeps F E K D N authorized others R id w k

  handle_all-Keeps :
      (others : List Memory) (cs : List Call) (w : World I)
      → KeepsRows others w.vault
      → KeepsRows others (handle_all cs w).vault
  handle_all-Keeps others [] w k = k
  handle_all-Keeps others (c ∷ cs) w k =
      handle_all-Keeps others cs (handle c w) (handle-Keeps others c w k)

  -- On valid tables, whatever writes and deletes an agent asks for, in whatever order, whether the
  -- lookup before a delete fails or not: the memories of the boundaries that it is not authorized for
  -- are the same rows in the same order as before, and the tables stay valid.
  pub handle_all-foreign :
      (cs : List Call) (w : World I)
      → IsValid E w.vault.tables
      → (foreign authorized (handle_all cs w).vault.tables.memories
          ≡ foreign authorized w.vault.tables.memories)
        × IsValid E (handle_all cs w).vault.tables
  handle_all-foreign cs w i =
      let k = handle_all-Keeps (foreign authorized w.vault.tables.memories) cs w (i, refl) in
      (k.1, k.0)
