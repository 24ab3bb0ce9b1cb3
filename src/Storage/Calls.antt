-- ===== src/Storage/Calls.antt =====
-- The methods of src/storage.rs that write, as values: a history of the database is a list of them.
use buzz_server.Base.{ℕ, Option, List, [], ◌∷◌, String, Result, ok, err, ◌≡◌, refl}
use buzz_server.Base.Int.{ℤ}
use buzz_server.Operation.{OperationStatus}
use buzz_server.Agent.{AgentId, CommunityConfigId, AgentSpec}
use buzz_server.Community.{CommunityConfig}
use buzz_server.Storage.Schema.{
  OperationId, ErrorCode, StorageError, DurableOperation, NewAuditRecord, IdempotencyRecord,
  DraftResource, RedactedLogEntry, RelayProjectionKind, RelayPublicationAction, Subject,
  RelayProjectionScope, Db,
}
use buzz_server.Storage.Audits
use buzz_server.Storage.Operations
use buzz_server.Storage.Command
use buzz_server.Storage.Command.{AgentCommandMutation}
use buzz_server.Storage.Retention
use buzz_server.Storage.Relay
use buzz_server.Storage.Communities
use buzz_server.Storage.Communities.{Draws}
use buzz_server.Storage.Drafts
use buzz_server.Storage.Boundary

pub data Call : Type 0 where
  put_community : CommunityConfig → ℤ → Call
  delete_community : CommunityConfigId → Call
  delete_community_with_deleted_agents : Draws → CommunityConfigId → ℤ → Call
  put_agent : AgentSpec → ℤ → Call
  remove_agent : AgentId → Call
  complete_purge : AgentId → OperationId → ℤ → NewAuditRecord → Call
  create_operation : DurableOperation → Call
  delete_operation : OperationId → Call
  transition_operation : OperationId → OperationStatus → Option ErrorCode → ℤ → Call
  claim_idempotency : IdempotencyRecord → Call
  apply_agent_command :
      DurableOperation
      → IdempotencyRecord
      → AgentCommandMutation
      → Option String
      → NewAuditRecord
      → Call
  append_audit : NewAuditRecord → Call
  put_draft : DraftResource → ℤ → Call
  delete_draft : String → Call
  apply_draft_command : DraftResource → String → String → String → ℤ → NewAuditRecord → Call
  append_redacted_log : AgentId → RedactedLogEntry → Call
  claim_nip98_replay : String → ℕ → ℕ → Call
  ensure_auto_join_enabled_at : AgentId → ℤ → Call
  clear_auto_join_enabled_at : AgentId → Call
  record_relay_projection : RelayProjectionKind → Subject → RelayProjectionScope → ℤ → Call
  enqueue_relay_publication : ℕ → RelayPublicationAction → RelayProjectionScope → Subject → ℤ → Call
  complete_relay_publication : ℕ → Call
  fail_relay_publication : ℕ → String → ℤ → Call
  remove_relay_projection : CommunityConfigId → RelayProjectionKind → Subject → Call

-- The database that a call leaves.
abbrev pub db_of {ℓ} : {A : Type ℓ} → Result StorageError (A × Db) → Result StorageError Db
db_of (ok (a, db)) = ok db
db_of (err e) = err e

unfoldable pub perform : Call → Db → Result StorageError Db
perform (put_community c now) db = db_of (Communities.put_community c now db)
perform (delete_community id) db = db_of (Communities.delete_community id db)
perform (delete_community_with_deleted_agents draws id now) db =
    db_of (Communities.delete_community_with_deleted_agents draws id now db)
perform (put_agent spec now) db = db_of (Retention.put_agent spec now db)
perform (remove_agent id) db = db_of (Retention.remove_agent id db)
perform (complete_purge agent id now audit) db =
    db_of (Retention.complete_purge agent id now audit db)
perform (create_operation operation) db = db_of (Operations.create_operation operation db)
perform (delete_operation id) db = db_of (Operations.delete_operation id db)
perform (transition_operation id next code now) db =
    db_of (Operations.transition_operation id next code now db)
perform (claim_idempotency entry) db = db_of (Operations.claim_idempotency entry db)
perform (apply_agent_command operation entry mutation draft audit) db =
    db_of (Command.apply_agent_command operation entry mutation draft audit db)
perform (append_audit entry) db = db_of (Audits.append_audit entry db)
perform (put_draft draft now) db = db_of (Drafts.put_draft draft now db)
perform (delete_draft id) db = db_of (Drafts.delete_draft id db)
perform (apply_draft_command draft scope key hash now audit) db =
    db_of (Drafts.apply_draft_command draft scope key hash now audit db)
perform (append_redacted_log id entry) db = db_of (Drafts.append_redacted_log id entry db)
perform (claim_nip98_replay event expires now) db =
    db_of (Boundary.claim_nip98_replay event expires now db)
perform (ensure_auto_join_enabled_at id now) db =
    db_of (Boundary.ensure_auto_join_enabled_at id now db)
perform (clear_auto_join_enabled_at id) db = db_of (Boundary.clear_auto_join_enabled_at id db)
perform (record_relay_projection kind subject scope now) db =
    db_of (Relay.record_relay_projection kind subject scope now db)
perform (enqueue_relay_publication id action scope subject now) db =
    db_of (Relay.enqueue_relay_publication id action scope subject now db)
perform (complete_relay_publication id) db = db_of (Relay.complete_relay_publication id db)
perform (fail_relay_publication id error now) db =
    db_of (Relay.fail_relay_publication id error now db)
perform (remove_relay_projection community kind subject) db =
    db_of (Relay.remove_relay_projection community kind subject db)

-- A call that fails leaves the database as it was.
abbrev pub settle : Db → Result StorageError Db → Db
settle db (ok db') = db'
settle db (err e) = db

unfoldable pub run_calls : Db → List Call → Db
run_calls db [] = db
run_calls db (c ∷ cs) = run_calls (settle db (perform c db)) cs

-- What every successful call keeps, every history keeps.
pub run_calls_induction {ℓ} :
    (P : Db → Type ℓ)
    → ((c : Call) (db db' : Db) → perform c db ≡ ok db' → P db → P db')
    → (db : Db) (cs : List Call) → P db
    → P (run_calls db cs)
unfolding run_calls
run_calls_induction P keep db [] h = h
run_calls_induction P keep db (c ∷ cs) h =
    run_calls_induction P keep (settle db (perform c db)) cs (go (perform c db) refl)
  where
    go : (r : Result StorageError Db) → perform c db ≡ r → P (settle db r)
    go (ok db') e = keep c db db' e h
    go (err x) e = h
