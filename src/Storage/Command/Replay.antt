-- ===== src/Storage/Command/Replay.antt =====
-- src/storage.rs, `apply_agent_command`: a key is used once, and answers with its first operation.
use buzz_server.Base.{
  Bool, true, false, Option, some, String, ok, err, ◌≡◌, ◌∙◌, ap, arith, find, ◌==◌, nat_eq,
  string_eq, ◌&&◌, if◌then◌else◌, find-insert_row_fresh, ==_refl, ◌⊎◌, inl, inr, Option-cases,
}
use buzz_server.Storage.Schema.{DurableOperation, NewAuditRecord, IdempotencyRecord, Db}
use buzz_server.Storage.Statements.{operation_row, idempotency_row}
use buzz_server.Storage.Operations.{key_reused}
use buzz_server.Storage.Command.{
  AgentCommandMutation, replay_command, fresh_command, apply_agent_command,
}
use buzz_server.Storage.Command.Commit.{
  Committed, fresh_command-Statements, fresh_command-Committed,
}

module _ (operation : DurableOperation) (entry : IdempotencyRecord)
    (mutation : AgentCommandMutation) (draft : Option String) (audit : NewAuditRecord)
    (a b : Db) where
  -- A call that reports no replay has run the fresh command to its commit.
  pub apply_agent_command-Committed :
      (r : DurableOperation)
      → apply_agent_command operation entry mutation draft audit a ≡ ok ((r, false), b)
      → (r ≡ operation) × Committed operation entry mutation audit a b
  unfolding apply_agent_command replay_command
  apply_agent_command-Committed r h =
      let fresh : fresh_command operation entry mutation draft audit a ≡ ok ((r, false), b) =
        ground arith in
      let (e, s) =
        fresh_command-Statements operation entry mutation draft audit a b (r, false) fresh in
      (ground arith, fresh_command-Committed operation entry mutation draft audit a b s)

  -- A command that succeeds is a replay, which changes nothing, or a fresh commit.
  pub apply_agent_command-cases :
      (r : DurableOperation × Bool)
      → apply_agent_command operation entry mutation draft audit a ≡ ok (r, b)
      → (b ≡ a) ⊎ Committed operation entry mutation audit a b
  unfolding apply_agent_command replay_command
  apply_agent_command-cases r h = elim (Option-cases (idempotency_row entry.scope entry.key a)) [
    | inl e ↦
        let fresh : fresh_command operation entry mutation draft audit a ≡ ok (r, b) =
          ground arith in
        inr (
          fresh_command-Committed operation entry mutation draft audit a b
            (fresh_command-Statements operation entry mutation draft audit a b r fresh).1)
    | inr (row, e) ↦ inl (ground arith)
  ]

  pub operation_row-commit :
      Committed operation entry mutation audit a b → operation_row operation.id b ≡ some operation
  unfolding operation_row
  operation_row-commit c =
      ap (λ rows. find (λ r. r.id == operation.id) rows) c.operations
      ∙ find-insert_row_fresh (λ r. r.id == operation.id) operation a.operations c.unused
          (==_refl operation.id)

  pub idempotency_row-commit :
      Committed operation entry mutation audit a b
      → idempotency_row entry.scope entry.key b
        ≡ some (record entry { operation_id = operation.id })
  unfolding idempotency_row
  idempotency_row-commit c =
      ap (λ rows. find (λ r. r.scope == entry.scope && r.key == entry.key) rows) c.idempotency
      ∙ find-insert_row_fresh (λ r. r.scope == entry.scope && r.key == entry.key)
          (record entry { operation_id = operation.id }) a.idempotency c.unclaimed
          (rw (==_refl entry.scope, ==_refl entry.key))

  -- After a fresh commit, a command under the same scope and key changes nothing: with the same
  -- request hash it reports the committed operation as a replay, with another it is a conflict.
  pub apply_agent_command-replay :
      (r o : DurableOperation) (other : IdempotencyRecord) (m : AgentCommandMutation)
      (d : Option String) (n : NewAuditRecord)
      → apply_agent_command operation entry mutation draft audit a ≡ ok ((r, false), b)
      → other.scope ≡ entry.scope
      → other.key ≡ entry.key
      → apply_agent_command o other m d n b ≡ (
          if entry.request_hash == other.request_hash
          then ok ((operation, true), b)
          else err key_reused)
  unfolding apply_agent_command replay_command
  apply_agent_command-replay r o other m d n h s k =
      let c = (apply_agent_command-Committed r h).1 in
      let found : idempotency_row other.scope other.key b
          ≡ some (record entry { operation_id = operation.id }) =
        rw (s, k) (idempotency_row-commit c) in
      let stored = operation_row-commit c in ground arith
