-- ===== src/Storage/Communities.antt =====
-- src/storage.rs: the communities, and the removal of one with its deleted agents.
use buzz_server.Base.{
  ℕ, true, ◌&&◌, ◌||◌, not, Option, none, some, List, [], ◌∷◌, map, String, Result, ok, ◌>>=◌, ◌>>◌,
  fail_if, map_err, ◌==◌, nat_eq, option_eq, ltb, any, is_some, if◌then◌else◌, find, select,
  update_where, delete_where, insert_row, order_by,
}
use Prim.Native.String.{◌++◌ as str_append}
use mathlib.Core.Option
use buzz_server.Base.Int.{ℤ, leb_ℤ}
use buzz_server.Operation.{
  delete_agent, purge_agent, OperationStatus, succeeded, kind_eq, status_eq,
}
use buzz_server.Agent.{AgentId, CommunityConfigId, deleted, desired_eq}
use buzz_server.Community
use buzz_server.Community.{CommunityConfig}
use buzz_server.Storage.Schema.{
  OperationId, Detail, StorageError, database, invalid_data, not_found, conflict, DurableOperation,
  managed_agent, persona, RelayPublicationAction, tombstone_managed_agent, archive_identity,
  tombstone_persona, Subject, AgentRow, ProjectionRow, Db, Query,
}
use buzz_server.Storage.Statements.{community_row, insert_operation, delete_agent_row}
use buzz_server.Storage.Retention.{insert_tombstone}
use buzz_server.Storage.Relay.{projection_kind_eq, projection_row, insert_publication}

unfoldable pub put_community : CommunityConfig → ℤ → Query (Unit {0})
unfolding Community.validate community_row update_where insert_row
put_community config now db = do
  map_err (λ e. invalid_data (Detail.validation e)) (Community.validate config)
  ok (
    tt,
    record db {
      communities =
          if is_some (community_row config.id db)
          then update_where (λ r. r.id == config.id)
              (λ r. record r { document = config; updated_at = now }) db.communities
          else insert_row (record { id = config.id; document = config; updated_at = now })
              db.communities;
    },
  )

unfoldable pub get_community : CommunityConfigId → Db → Option CommunityConfig
unfolding community_row
get_community id db = Option.map (λ r. r.document) (community_row id db)

unfoldable pub list_communities : Db → List CommunityConfig
unfolding order_by
list_communities db = map (λ r. r.document) (order_by (λ a b. ltb a.id b.id) db.communities)

-- ON DELETE RESTRICT: an agent that names the community keeps it. SQLite reports the constraint of a
-- trigger, which is none of those that `map_constraint` makes a conflict of.
unfoldable pub delete_community_row : CommunityConfigId → Db → Result StorageError Db
unfolding any delete_where
delete_community_row id db = do
  fail_if (any (λ r. r.community_config_id == id) db.agents) database
  ok (record db { communities = delete_where (λ r. r.id == id) db.communities })

unfoldable pub delete_community : CommunityConfigId → Query (Unit {0})
unfolding community_row delete_community_row
delete_community id db = do
  db' ← delete_community_row id db
  fail_if (not (is_some (community_row id db))) not_found
  ok (tt, db')

-- The status of the agent's latest delete or purge: ORDER BY created_at DESC, id DESC LIMIT 1.
unfoldable pub latest_delete : AgentId → Db → Option OperationStatus
unfolding find order_by
latest_delete id db =
    Option.map (λ r. r.status)
      (find (λ r. r.agent_id == some id && (r.kind == delete_agent || r.kind == purge_agent))
        (order_by
          (λ a b.
            if leb_ℤ a.created_at b.created_at
            then leb_ℤ b.created_at a.created_at && ltb b.id a.id
            else true)
          db.operations))

-- The first loop: every agent is deleted, and its delete has succeeded.
unfoldable pub check_deleted :
    CommunityConfigId → Db → List AgentRow → Result StorageError (List AgentId)
unfolding latest_delete
check_deleted community db [] = ok []
check_deleted community db (r ∷ rs) = do
  let agent = r.document
  fail_if (not (agent.desired_state == deleted)) (conflict (Detail.active_agents community))
  fail_if (not (latest_delete r.id db == some succeeded)) (conflict (Detail.unfinished_delete r.id))
  rest ← check_deleted community db rs
  ok (r.id ∷ rest)

-- The UUIDs that the transaction draws, for a purge operation and for an outbox row, and how the
-- id of a community is displayed.
pub record Draws : Type 0 where
  pub display : CommunityConfigId → String
  pub operation : AgentId → OperationId
  pub publication : RelayPublicationAction → Subject → ℕ

unfoldable pub tombstone_projection :
    Draws → CommunityConfigId → AgentId → ℤ → Db → Result StorageError Db
tombstone_projection draws community id now db =
    elim (projection_row community managed_agent (Subject.agent id) db) [
      | none ↦ ok db
      | some r ↦ do
        let subject = Subject.agent id
        db1 ←
            insert_publication (draws.publication tombstone_managed_agent subject)
              tombstone_managed_agent r.scope subject now db
        insert_publication (draws.publication archive_identity subject) archive_identity r.scope
            subject now db1
    ]

unfoldable pub purge_record : Draws → CommunityConfigId → AgentId → ℤ → DurableOperation
purge_record draws community id now = record {
  id = draws.operation id;
  kind = purge_agent;
  status = succeeded;
  agent_id = some id;
  error_code = none;
  created_at = now;
  updated_at = now;
  correlation_id = str_append "community-delete:" (draws.display community);
}

-- One round of the second loop.
unfoldable pub purge_deleted : Draws → CommunityConfigId → ℤ → AgentId → Db → Result StorageError Db
purge_deleted draws community now id db = do
  db1 ← tombstone_projection draws community id now db
  db2 ← map_err (λ _. database) (insert_operation (purge_record draws community id now) db1)
  ok (delete_agent_row id (insert_tombstone id now (draws.operation id) db2))

unfoldable pub purge_all :
    Draws → CommunityConfigId → ℤ → List AgentId → Db → Result StorageError Db
purge_all draws community now [] db = ok db
purge_all draws community now (id ∷ ids) db = do
  db' ← purge_deleted draws community now id db
  purge_all draws community now ids db'

unfoldable pub tombstone_personas : Draws → ℤ → List ProjectionRow → Db → Result StorageError Db
tombstone_personas draws now [] db = ok db
tombstone_personas draws now (r ∷ rs) db = do
  db' ←
      insert_publication (draws.publication tombstone_persona r.subject_id) tombstone_persona
        r.scope r.subject_id now db
  tombstone_personas draws now rs db'

unfoldable pub delete_community_with_deleted_agents :
    Draws → CommunityConfigId → ℤ → Query (List AgentId)
delete_community_with_deleted_agents draws id now db = do
  fail_if (not (is_some (community_row id db))) not_found
  deleted_agents ←
      check_deleted id db
        (order_by (λ a b. ltb a.id b.id) (select (λ r. r.community_config_id == id) db.agents))
  db1 ← purge_all draws id now deleted_agents db
  db2 ←
      tombstone_personas draws now
        (select (λ r. r.community_config_id == id && r.projection_kind == persona) db1.projections)
        db1
  db3 ← map_err (λ _. database) (delete_community_row id db2)
  ok (deleted_agents, db3)
