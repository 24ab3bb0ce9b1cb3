-- ===== src/Storage/Retention.antt =====
-- src/storage.rs: agents, their retention after a delete, and the end of a purge.
use buzz_server.Base.{
  Bool, true, ◌&&◌, not, Option, none, some, List, map, ok, ◌>>=◌, ◌>>◌, fail_if, ok_or, map_err,
  ◌==◌, nat_eq, option_eq, ltb, is_some, if◌then◌else◌, find, select, insert_row, order_by,
}
use mathlib.Core.Option
use buzz_server.Base.Int.{ℤ, leb_ℤ}
use buzz_server.Operation.{purge_agent, succeeded, can_transition_to, kind_eq}
use buzz_server.Agent.{AgentId, CommunityConfigId, AgentSpec, deleted, desired_eq, validate}
use buzz_server.Storage.Schema.{
  OperationId, Detail, invalid_data, not_found, conflict, NewAuditRecord, DurableOperation,
  AgentRetention, Db, Query,
}
use buzz_server.Storage.Statements.{
  constraint_violation, operation_row, agent_row, retention_row, insert_agent, delete_agent_row,
  update_agent_transaction, insert_audit,
}
use buzz_server.Storage.Operations.{set_status}

-- INSERT … ON CONFLICT(id) DO UPDATE, with the reference to the community.
unfoldable pub put_agent : AgentSpec → ℤ → Query (Unit {0})
put_agent spec now db = do
  map_err (λ e. invalid_data (Detail.validation e)) (validate spec)
  db' ←
      if is_some (agent_row spec.id db)
      then map_err (λ _. constraint_violation) (update_agent_transaction spec now db)
      else insert_agent spec now db
  ok (tt, db')

unfoldable pub get_agent : AgentId → Db → Option AgentSpec
unfolding agent_row
get_agent id db = Option.map (λ r. r.document) (agent_row id db)

unfoldable pub agent_retention : AgentId → Db → Option AgentRetention
unfolding retention_row
agent_retention id db = Option.map (λ r. r.retention) (retention_row id db)

-- ORDER BY purge_after, agent_id
unfoldable pub expired_retained_agents : ℤ → Db → List AgentId
unfolding select order_by
expired_retained_agents now db =
    map (λ r. r.agent_id)
      (order_by
        (λ a b.
          if leb_ℤ b.purge_after a.purge_after
          then leb_ℤ a.purge_after b.purge_after && ltb a.agent_id b.agent_id
          else true)
        (select (λ r. leb_ℤ r.purge_after now) db.retention))

unfoldable pub is_agent_purged : AgentId → Db → Bool
unfolding find
is_agent_purged id db = is_some (find (λ r. r.agent_id == id) db.tombstones)

-- ORDER BY purged_at, agent_id
unfoldable pub list_purged_agent_ids : Db → List AgentId
unfolding order_by
list_purged_agent_ids db =
    map (λ r. r.agent_id)
      (order_by
        (λ a b.
          if leb_ℤ b.purged_at a.purged_at
          then leb_ℤ a.purged_at b.purged_at && ltb a.agent_id b.agent_id
          else true)
        db.tombstones)

-- WHERE (?1 IS NULL OR community_config_id=?1) ORDER BY id
unfoldable pub list_agents : Option CommunityConfigId → Db → List AgentSpec
unfolding select order_by
list_agents community db =
    map (λ r. r.document)
      (order_by (λ a b. ltb a.id b.id)
        (select (λ r. elim community [ none ↦ true | some c ↦ r.community_config_id == c ])
          db.agents))

-- DELETE of the row with no further check.
unfoldable pub remove_agent : AgentId → Query (Unit {0})
remove_agent id db = do
  fail_if (not (is_some (agent_row id db))) not_found
  ok (tt, delete_agent_row id db)

-- INSERT OR IGNORE INTO purged_agent_tombstones
unfoldable pub insert_tombstone : AgentId → ℤ → OperationId → Db → Db
unfolding is_agent_purged insert_row
insert_tombstone id now operation db = if is_agent_purged id db then db else record db {
  tombstones =
      insert_row (record { agent_id = id; purged_at = now; purge_operation_id = operation })
        db.tombstones;
}

-- SELECT … WHERE id=?1 AND agent_id=?2 AND kind='purge_agent'; the id is the primary key.
unfoldable pub purge_row : OperationId → AgentId → Db → Option DurableOperation
purge_row operation_id agent_id db = elim (operation_row operation_id db) [
  | none ↦ none
  | some r ↦ if r.agent_id == some agent_id && r.kind == purge_agent then some r else none
]

-- The success of a purge, its audit record, the tombstone and the removal, in one transaction.
unfoldable pub complete_purge : AgentId → OperationId → ℤ → NewAuditRecord → Query (Unit {0})
complete_purge agent_id operation_id now audit db = do
  operation ← ok_or (purge_row operation_id agent_id db) not_found
  fail_if (not (can_transition_to operation.status succeeded))
      (conflict (Detail.transition operation.status succeeded))
  row ← ok_or (agent_row agent_id db) not_found
  let agent = row.document
  fail_if (not (agent.desired_state == deleted))
      (conflict (Detail.text "purge target is not recoverably deleted"))
  db1 ← insert_audit audit (set_status operation_id succeeded none now db)
  ok (tt, delete_agent_row agent_id (insert_tombstone agent_id now operation_id db1))
