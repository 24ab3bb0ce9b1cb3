-- ===== src/Storage/Command/Deadlines.antt =====
-- What a change of an agent's intent does to its retention (`apply_agent_command` of src/storage.rs).
use buzz_server.Base.{
  false, not, ◌||◌, Option, none, some, String, ok, ◌≡◌, refl, arith, ◌∙◌, ap, ◌==◌, nat_eq, find,
  >>=-eq-ok, ok_or-eq-ok, fail_if-eq-ok, find-update_where, find-insert_row_fresh, find_sound,
  find-delete_where-none, Option-cases, inl, inr, option_eq,
}
use buzz_server.Base.Int.{ℤ}
use buzz_server.Operation.{
  OperationKind, create_agent, update_agent, enable_agent, disable_agent, delete_agent, purge_agent,
}
use buzz_server.Agent.{AgentId, DesiredAgentState, AgentSpec, desired_eq}
use buzz_server.Storage.Schema.{
  DurableOperation, IdempotencyRecord, NewAuditRecord, RetentionRow, Db,
}
use buzz_server.Storage.Statements.{retention_row, update_agent_transaction, load_agent_transaction}
use buzz_server.Storage.Command.{
  set_state, apply_mutation, apply_agent_command, update_retention, upsert_retention,
  expected_state,
}
use buzz_server.Storage.Command.Replay.{apply_agent_command-Committed}

-- The retention that an agent has after a change of its intent, from the one it had.
abbrev pub retention_after :
    OperationKind → ℤ → Option ℤ → Option RetentionRow → AgentId → Option RetentionRow
retention_after delete_agent now (some deadline) old id =
    some (record { agent_id = id; retention = record { deleted_at = now; purge_after = deadline } })
retention_after delete_agent now none old id = old
retention_after enable_agent now deadline old id = none
retention_after _ now deadline old id = old

retention_row-upsert :
    (id : AgentId) (deleted_at purge_after : ℤ) (a : Db)
    → retention_row id (upsert_retention id deleted_at purge_after a)
      ≡ some (record {
        agent_id = id;
        retention = record { deleted_at = deleted_at; purge_after = purge_after };
      })
unfolding retention_row upsert_retention
retention_row-upsert id deleted_at purge_after a =
    let new : RetentionRow = record {
      agent_id = id;
      retention = record { deleted_at = deleted_at; purge_after = purge_after };
    } in
    let inserted = find-insert_row_fresh (λ r. r.agent_id == id) new a.retention in
    let updated =
      find-update_where (λ r. r.agent_id == id) (λ r. r.agent_id == id)
        (λ r. record r {
          retention = record { deleted_at = deleted_at; purge_after = purge_after };
        })
        a.retention (λ r. refl) in
    elim (Option-cases (retention_row id a)) [
      | inl e ↦ ground (arith, inserted)
      | inr (row, e) ↦ ground (arith, updated, find_sound (λ r. r.agent_id == id) a.retention e)
    ]

retention_row-update_retention :
    (kind : OperationKind) (id : AgentId) (now : ℤ) (deadline : Option ℤ) (a b : Db)
    → update_retention kind id now deadline a ≡ ok b
    → retention_row id b ≡ retention_after kind now deadline (retention_row id a) id
unfolding update_retention
retention_row-update_retention delete_agent id now none a b h = ground arith
retention_row-update_retention delete_agent id now (some deadline) a b h =
    ground (arith, retention_row-upsert id now deadline a)
retention_row-update_retention enable_agent id now deadline a b h =
    let gone =
      find-delete_where-none (λ r. r.agent_id == id) (λ r. r.agent_id == id) a.retention
        (λ r t. t) in
    unfold retention_row in ground (arith, gone)
retention_row-update_retention create_agent id now deadline a b h = ground arith
retention_row-update_retention update_agent id now deadline a b h = ground arith
retention_row-update_retention disable_agent id now deadline a b h = ground arith
retention_row-update_retention purge_agent id now deadline a b h = ground arith

retention-update_agent_transaction :
    (agent : AgentSpec) (now : ℤ) (a b : Db)
    → update_agent_transaction agent now a ≡ ok b
    → b.retention ≡ a.retention
unfolding update_agent_transaction
retention-update_agent_transaction agent now a b h = ground arith

retention_row-same :
    (id : AgentId) (a b : Db) → b.retention ≡ a.retention → retention_row id b ≡ retention_row id a
unfolding retention_row
retention_row-same id a b e = ap (find (λ r. r.agent_id == id)) e

retention_row-apply_mutation :
    (operation : DurableOperation) (id : AgentId) (s : DesiredAgentState) (deadline : Option ℤ)
    (a b : Db)
    → apply_mutation operation (set_state id s deadline) a ≡ ok b
    → retention_row id b
      ≡ retention_after operation.kind operation.created_at deadline (retention_row id a) id
unfolding apply_mutation
retention_row-apply_mutation operation id s deadline a b h =
    let (expected, e1, h1) = ok_or-eq-ok (expected_state operation.kind) _ _ h in
    let (e2, h2) =
      fail_if-eq-ok (not (operation.agent_id == some id) || not (s == expected)) _ _ h1 in
    let (agent, e3, h3) = >>=-eq-ok (load_agent_transaction id a) _ h2 in
    let changed : AgentSpec = record agent { desired_state = s } in
    let (c, e4, h4) = >>=-eq-ok (update_agent_transaction changed operation.created_at a) _ h3 in
    let same =
      retention_row-same id a c
        (retention-update_agent_transaction changed operation.created_at a c e4) in
    retention_row-update_retention operation.kind id operation.created_at deadline c b h4
    ∙ ap (λ old. retention_after operation.kind operation.created_at deadline old id) same

-- A change of an agent's intent that commits fresh leaves the agent's retention as its kind says: a
-- delete sets it anew with its deadline, an enable removes it, and a disable or a purge leaves it.
pub retention_row-apply_agent_command :
    (operation : DurableOperation) (entry : IdempotencyRecord) (id : AgentId)
    (s : DesiredAgentState) (deadline : Option ℤ) (draft : Option String) (audit : NewAuditRecord)
    (a b : Db) (r : DurableOperation)
    → apply_agent_command operation entry (set_state id s deadline) draft audit a
      ≡ ok ((r, false), b)
    → retention_row id b
      ≡ retention_after operation.kind operation.created_at deadline (retention_row id a) id
retention_row-apply_agent_command operation entry id s deadline draft audit a b r h =
    let c =
      (apply_agent_command-Committed operation entry (set_state id s deadline) draft audit a b r
        h).1 in
    retention_row-same id c.mutated b c.retention
    ∙ retention_row-apply_mutation operation id s deadline a c.mutated c.intent
