-- ===== src/Storage/Command.antt =====
-- src/storage.rs, `apply_agent_command`: one transaction commits an agent's new intent, its
-- operation, the idempotency key and the audit record.
pub mod Commit
pub mod Replay
pub mod Deadlines
pub mod Sweep
use buzz_server.Base.{
  ℕ, Bool, true, false, ◌&&◌, ◌||◌, not, Option, none, some, String, Result, ok, err, ◌>>=◌, ◌>>◌,
  fail_if, ok_or, map_err, ◌==◌, nat_eq, string_eq, option_eq, is_some, if◌then◌else◌, find,
  update_where, delete_where, insert_row,
}
use buzz_server.Base.Int.{ℤ}
use buzz_server.Operation.{
  OperationKind, create_agent, update_agent, enable_agent, disable_agent, delete_agent, purge_agent,
  kind_eq,
}
use buzz_server.Agent.{
  AgentId, AgentSpec, DesiredAgentState, enabled, disabled, deleted, desired_eq, validate,
}
use buzz_server.Storage.Schema.{
  Detail, StorageError, invalid_data, conflict, database, DurableOperation, NewAuditRecord,
  IdempotencyRecord, UpdateAgentInput, Db, Query,
}
use buzz_server.Storage.Statements.{
  operation_row, idempotency_row, retention_row, load_agent_transaction, update_agent_transaction,
  insert_agent, insert_operation, insert_idempotency, insert_audit,
}
use buzz_server.Storage.Operations.{key_reused}

pub data AgentCommandMutation : Type 0 where
  create : AgentSpec → AgentCommandMutation
  update : AgentId → UpdateAgentInput → AgentCommandMutation
  set_state : AgentId → DesiredAgentState → Option ℤ → AgentCommandMutation

abbrev mismatch : String → StorageError
mismatch s = invalid_data (Detail.text s)

abbrev or_keep {ℓ} : {A : Type ℓ} → Option A → A → A
or_keep none a = a
or_keep (some b) a = b

unfoldable pub apply_changes : UpdateAgentInput → AgentSpec → AgentSpec
apply_changes changes agent =
    let runtime = agent.runtime in
    record agent {
      display_name = or_keep changes.display_name agent.display_name;
      system_prompt = or_keep changes.system_prompt agent.system_prompt;
      runtime = record runtime { runtime_id = or_keep changes.runtime_id runtime.runtime_id };
    }

unfoldable pub expected_state : OperationKind → Option DesiredAgentState
expected_state enable_agent = some enabled
expected_state disable_agent = some disabled
expected_state delete_agent = some deleted
expected_state purge_agent = some deleted
expected_state _ = none

-- INSERT INTO agent_retention … ON CONFLICT(agent_id) DO UPDATE
unfoldable pub upsert_retention : AgentId → ℤ → ℤ → Db → Db
unfolding retention_row update_where insert_row
upsert_retention id deleted_at purge_after db = record db {
  retention =
      if is_some (retention_row id db)
      then update_where (λ r. r.agent_id == id)
          (λ r. record r {
            retention = record { deleted_at = deleted_at; purge_after = purge_after };
          })
          db.retention
      else insert_row
          (record {
            agent_id = id;
            retention = record { deleted_at = deleted_at; purge_after = purge_after };
          })
          db.retention;
}

unfoldable pub update_retention :
    OperationKind → AgentId → ℤ → Option ℤ → Db → Result StorageError Db
unfolding upsert_retention delete_where
update_retention delete_agent id now deadline db = do
  purge_after ← ok_or deadline (mismatch "recoverable delete requires a retention deadline")
  ok (upsert_retention id now purge_after db)
update_retention enable_agent id now deadline db =
    ok (record db { retention = delete_where (λ r. r.agent_id == id) db.retention })
update_retention _ id now deadline db = ok db

unfoldable pub apply_mutation :
    DurableOperation → AgentCommandMutation → Db → Result StorageError Db
unfolding apply_changes expected_state load_agent_transaction update_agent_transaction insert_agent
    update_retention
apply_mutation operation (create agent) db = do
  fail_if (not (operation.kind == create_agent) || not (operation.agent_id == some agent.id))
      (mismatch "create mutation does not match operation")
  map_err (λ e. invalid_data (Detail.validation e)) (validate agent)
  insert_agent agent operation.created_at db
apply_mutation operation (update id changes) db = do
  fail_if (not (operation.kind == update_agent) || not (operation.agent_id == some id))
      (mismatch "update mutation does not match operation")
  agent ← load_agent_transaction id db
  let changed = apply_changes changes agent
  map_err (λ e. invalid_data (Detail.validation e)) (validate changed)
  update_agent_transaction changed operation.created_at db
apply_mutation operation (set_state id desired_state deadline) db = do
  expected ←
      ok_or (expected_state operation.kind) (mismatch "state mutation does not match operation")
  fail_if (not (operation.agent_id == some id) || not (desired_state == expected))
      (mismatch "state mutation does not match operation")
  agent ← load_agent_transaction id db
  db1 ←
      update_agent_transaction (record agent { desired_state = desired_state }) operation.created_at
        db
  update_retention operation.kind id operation.created_at deadline db1

-- UPDATE agent_drafts SET promoted_operation_id … WHERE promoted_operation_id IS NULL
unfoldable pub promote : Option String → DurableOperation → Db → Result StorageError Db
unfolding find update_where
promote none operation db = ok db
promote (some draft_id) operation db =
    if is_some (find (λ r. r.id == draft_id && not (is_some r.promoted_operation_id)) db.drafts)
    then ok (record db {
      drafts =
          update_where (λ r. r.id == draft_id && not (is_some r.promoted_operation_id))
            (λ r. record r {
              promoted_operation_id = some operation.id;
              updated_at = operation.created_at;
            })
            db.drafts;
    })
    else err (conflict (Detail.text "draft does not exist or was already promoted"))

-- A key seen before: the stored operation, or a conflict if the request differs.
unfoldable pub replay_command :
    IdempotencyRecord → IdempotencyRecord → Query (DurableOperation × Bool)
unfolding operation_row
replay_command row idempotency db =
    if row.request_hash == idempotency.request_hash
    then (do
      existing ← ok_or (operation_row row.operation_id db) database
      ok ((existing, true), db))
    else err key_reused

unfoldable pub fresh_command :
    DurableOperation
    → IdempotencyRecord
    → AgentCommandMutation
    → Option String
    → NewAuditRecord
    → Query (DurableOperation × Bool)
fresh_command operation idempotency mutation promoted_draft_id audit db = do
  db1 ← apply_mutation operation mutation db
  db2 ← insert_operation operation db1
  db3 ← insert_idempotency (record idempotency { operation_id = operation.id }) db2
  db4 ← promote promoted_draft_id operation db3
  db5 ← insert_audit audit db4
  ok ((operation, false), db5)

unfoldable pub apply_agent_command :
    DurableOperation
    → IdempotencyRecord
    → AgentCommandMutation
    → Option String
    → NewAuditRecord
    → Query (DurableOperation × Bool)
apply_agent_command operation idempotency mutation promoted_draft_id audit db =
    elim (idempotency_row idempotency.scope idempotency.key db) [
      | some row ↦ replay_command row idempotency db
      | none ↦ fresh_command operation idempotency mutation promoted_draft_id audit db
    ]
