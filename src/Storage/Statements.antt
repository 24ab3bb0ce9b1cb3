-- ===== src/Storage/Statements.antt =====
-- The statements that several methods of src/storage.rs run, with the keys and the foreign keys of
-- migrations/*.sql: a missing parent or a taken key is `map_constraint`'s conflict.
use buzz_server.Base.{
  suc, Bool, true, false, ◌&&◌, not, Option, none, some, List, [], ◌∷◌, map, String, Result, ok,
  err, ◌>>=◌, ◌>>◌, fail_if, ok_or, ◌==◌, nat_eq, string_eq, option_eq, any, is_some, if◌then◌else◌,
  find, update_where, delete_where, insert_row,
}
use buzz_server.Base.Int.{ℤ}
use buzz_server.Text.{codes, to_ascii_lowercase, contains}
use buzz_server.Agent.{AgentId, CommunityConfigId, AgentSpec}
use buzz_server.Storage.Schema.{
  OperationId, Detail, StorageError, database, invalid_data, not_found, conflict, DurableOperation,
  NewAuditRecord, IdempotencyRecord, AgentRow, CommunityRow, RetentionRow, Db,
}

abbrev pub constraint_violation : StorageError
constraint_violation = conflict (Detail.text "constraint violation")

-- SELECT … FROM agent_specs WHERE id=?1
unfoldable pub agent_row : AgentId → Db → Option AgentRow
unfolding find
agent_row id db = find (λ r. r.id == id) db.agents

unfoldable pub community_row : CommunityConfigId → Db → Option CommunityRow
unfolding find
community_row id db = find (λ r. r.id == id) db.communities

unfoldable pub operation_row : OperationId → Db → Option DurableOperation
unfolding find
operation_row id db = find (λ r. r.id == id) db.operations

unfoldable pub idempotency_row : String → String → Db → Option IdempotencyRecord
unfolding find
idempotency_row scope key db = find (λ r. r.scope == scope && r.key == key) db.idempotency

unfoldable pub retention_row : AgentId → Db → Option RetentionRow
unfolding find
retention_row id db = find (λ r. r.agent_id == id) db.retention

-- The reference of an operation to its agent.
unfoldable pub has_agent : Option AgentId → Db → Bool
unfolding agent_row
has_agent none db = true
has_agent (some id) db = is_some (agent_row id db)

unfoldable pub load_agent_transaction : AgentId → Db → Result StorageError AgentSpec
unfolding agent_row
load_agent_transaction id db = do r ← ok_or (agent_row id db) not_found; ok r.document

-- The write keeps the agent's community, or moves it to one that is there.
unfoldable pub update_agent_transaction : AgentSpec → ℤ → Db → Result StorageError Db
unfolding agent_row community_row update_where
update_agent_transaction agent now db =
    if is_some (agent_row agent.id db)
    then (do
      fail_if (not (is_some (community_row agent.community_config_id db))) database
      ok (record db {
        agents =
            update_where (λ r. r.id == agent.id)
              (λ r. record r {
                community_config_id = agent.community_config_id;
                document = agent;
                updated_at = now;
              })
              db.agents;
      }))
    else err not_found

unfoldable pub insert_agent : AgentSpec → ℤ → Db → Result StorageError Db
unfolding agent_row community_row insert_row
insert_agent agent now db = do
  fail_if (is_some (agent_row agent.id db)) constraint_violation
  fail_if (not (is_some (community_row agent.community_config_id db))) constraint_violation
  ok (record db {
    agents =
        insert_row
          (record {
            id = agent.id;
            community_config_id = agent.community_config_id;
            document = agent;
            updated_at = now;
          })
          db.agents;
  })

unfoldable pub insert_operation : DurableOperation → Db → Result StorageError Db
unfolding operation_row has_agent insert_row
insert_operation operation db = do
  fail_if (is_some (operation_row operation.id db)) constraint_violation
  fail_if (not (has_agent operation.agent_id db)) constraint_violation
  ok (record db { operations = insert_row operation db.operations })

unfoldable pub insert_idempotency : IdempotencyRecord → Db → Result StorageError Db
unfolding idempotency_row operation_row insert_row
insert_idempotency entry db = do
  fail_if (is_some (idempotency_row entry.scope entry.key db)) constraint_violation
  fail_if (not (is_some (operation_row entry.operation_id db))) constraint_violation
  ok (record db { idempotency = insert_row entry db.idempotency })

-- DELETE FROM agent_specs: operations lose the reference, logs and retention go with the agent.
unfoldable pub delete_agent_row : AgentId → Db → Db
unfolding delete_where update_where
delete_agent_row id db = record db {
  agents = delete_where (λ r. r.id == id) db.agents;
  operations =
      update_where (λ r. r.agent_id == some id) (λ r. record r { agent_id = none }) db.operations;
  retention = delete_where (λ r. r.agent_id == id) db.retention;
  logs = delete_where (λ r. r.agent_id == id) db.logs;
}

-- DELETE FROM operations: the idempotency keys of the operation go with it.
unfoldable pub delete_operation_row : OperationId → Db → Db
unfolding delete_where
delete_operation_row id db = record db {
  operations = delete_where (λ r. r.id == id) db.operations;
  idempotency = delete_where (λ r. r.operation_id == id) db.idempotency;
}

abbrev pub secret_markers : List String
secret_markers =
    "authorization" ∷ "private_key" ∷ "private-key" ∷ "secret=" ∷ "token=" ∷ "password=" ∷ []

unfoldable pub contains_secret_marker : String → Bool
unfolding contains any to_ascii_lowercase
contains_secret_marker detail =
    let lower = map to_ascii_lowercase (codes detail) in
    any (λ marker. contains (codes marker) lower) secret_markers

abbrev pub is_some_and {ℓ} : {A : Type ℓ} → Option A → (A → Bool) → Bool
is_some_and none p = false
is_some_and (some a) p = p a

unfoldable pub insert_audit : NewAuditRecord → Db → Result StorageError Db
unfolding contains_secret_marker insert_row
insert_audit entry db = do
  fail_if (is_some_and entry.redacted_detail contains_secret_marker)
      (invalid_data (Detail.text "audit detail contains a credential-like marker"))
  ok (record db {
    audits = insert_row (record { sequence = suc db.audit_sequence; entry = entry }) db.audits;
    audit_sequence = suc db.audit_sequence;
  })
