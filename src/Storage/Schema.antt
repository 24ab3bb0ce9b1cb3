-- ===== src/Storage/Schema.antt =====
-- The tables of migrations/*.sql and the record types of src/storage.rs. A `document` column holds
-- the value that its JSON encodes.
use buzz_server.Base.{ℕ, Option, List, [], String, Result}
use buzz_server.Base.Int.{ℤ}
use buzz_server.Text.Validate.{ValidationError}
use buzz_server.Operation.{OperationKind, OperationStatus}
use buzz_server.Agent.{AgentId, CommunityConfigId, AgentSpec}
use buzz_server.Community.{CommunityConfig}

abbrev pub OperationId : Type 0
OperationId = ℕ

-- src/error.rs
pub data ErrorCode : Type 0 where
  invalid_request not_found conflict unauthorized forbidden unsupported unavailable internal :
      ErrorCode

-- What the text of a storage error says.
pub data Detail : Type 0 where
  text : String → Detail
  validation : ValidationError → Detail
  transition : OperationStatus → OperationStatus → Detail
  active_agents : CommunityConfigId → Detail
  unfinished_delete : AgentId → Detail
  persona_used : String → List AgentId → Detail

pub data StorageError : Type 0 where
  database : StorageError
  invalid_data : Detail → StorageError
  not_found : StorageError
  conflict : Detail → StorageError
  lock_poisoned : StorageError

pub record DurableOperation : Type 0 where
  pub id : OperationId
  pub kind : OperationKind
  pub status : OperationStatus
  pub agent_id : Option AgentId
  pub error_code : Option ErrorCode
  pub created_at : ℤ
  pub updated_at : ℤ
  pub correlation_id : String

pub record NewAuditRecord : Type 0 where
  pub occurred_at : ℤ
  pub actor_principal : String
  pub authentication_method : String
  pub community_config_id : Option CommunityConfigId
  pub operation_id : Option OperationId
  pub correlation_id : String
  pub idempotency_key : Option String
  pub action : String
  pub subject_type : String
  pub subject_id : Option String
  pub outcome : String
  pub redacted_detail : Option String

-- A row of `audit_records`: the fields of the new record under its sequence number.
pub record AuditRecord : Type 0 where
  pub sequence : ℕ
  pub entry : NewAuditRecord
  pub open entry use *

pub record IdempotencyRecord : Type 0 where
  pub scope : String
  pub key : String
  pub request_hash : String
  pub operation_id : OperationId
  pub created_at : ℤ

pub record AgentRetention : Type 0 where
  pub deleted_at : ℤ
  pub purge_after : ℤ

pub record CommunityRow : Type 0 where
  pub id : CommunityConfigId
  pub document : CommunityConfig
  pub updated_at : ℤ

pub record AgentRow : Type 0 where
  pub id : AgentId
  pub community_config_id : CommunityConfigId
  pub document : AgentSpec
  pub updated_at : ℤ

pub record RetentionRow : Type 0 where
  pub agent_id : AgentId
  pub retention : AgentRetention
  pub open retention use *

pub record TombstoneRow : Type 0 where
  pub agent_id : AgentId
  pub purged_at : ℤ
  pub purge_operation_id : OperationId

-- src/auth.rs: who owns a draft.
pub data PrincipalOwnership : Type 0 where
  unix_uid : ℕ → PrincipalOwnership
  nostr_pubkey : String → PrincipalOwnership

-- src/api.rs
pub record CreateAgentInput : Type 0 where
  pub community_config_id : CommunityConfigId
  pub display_name : String
  pub persona_id : Option String
  pub system_prompt : Option String
  pub system_prompt_file : Option String
  pub runtime_id : Option String
  pub filesystem_user : Option String

pub record UpdateAgentInput : Type 0 where
  pub display_name : Option String
  pub system_prompt : Option String
  pub system_prompt_file : Option String
  pub runtime_id : Option String
  pub filesystem_user : Option String

pub record DraftResource : Type 0 where
  pub id : String
  pub owner : PrincipalOwnership
  pub agent : CreateAgentInput

pub record DraftRow : Type 0 where
  pub id : String
  pub owner_key : PrincipalOwnership
  pub document : DraftResource
  pub promoted_operation_id : Option OperationId
  pub created_at : ℤ
  pub updated_at : ℤ

pub record DraftIdempotencyRow : Type 0 where
  pub principal_scope : String
  pub key : String
  pub request_hash : String
  pub draft_id : String
  pub created_at : ℤ

pub record RedactedLogEntry : Type 0 where
  pub cursor : String
  pub occurred_at : ℤ
  pub stream : String
  pub redacted_message : String

pub record LogRow : Type 0 where
  pub sequence : ℕ
  pub agent_id : AgentId
  pub entry : RedactedLogEntry
  pub open entry use *

pub record ReplayRow : Type 0 where
  pub event_id : String
  pub expires_at : ℕ

pub data RelayProjectionKind : Type 0 where
  managed_agent persona : RelayProjectionKind

pub data RelayPublicationAction : Type 0 where
  sync_managed_agent sync_persona tombstone_managed_agent : RelayPublicationAction
  archive_identity tombstone_persona : RelayPublicationAction

-- The subject of a projection: an agent by its id, or a persona by its name.
pub data Subject : Type 0 where
  agent : AgentId → Subject
  named : String → Subject

pub record RelayProjectionScope : Type 0 where
  pub community_config_id : CommunityConfigId
  pub relay_url : String
  pub owner_pubkey : String
  pub d_tag : String

pub record ProjectionRow : Type 0 where
  pub projection_kind : RelayProjectionKind
  pub subject_id : Subject
  pub scope : RelayProjectionScope
  pub open scope use *
  pub updated_at : ℤ

pub record OutboxRow : Type 0 where
  pub id : ℕ
  pub action : RelayPublicationAction
  pub subject_id : Subject
  pub community_config_id : Option CommunityConfigId
  pub relay_url : String
  pub owner_pubkey : String
  pub d_tag : String
  pub created_at : ℤ
  pub updated_at : ℤ
  pub attempts : ℕ
  pub last_error : Option String

pub record AutoJoinRow : Type 0 where
  pub agent_id : AgentId
  pub enabled_at : ℤ

pub record Db : Type 0 where
  pub communities : List CommunityRow
  pub agents : List AgentRow
  pub operations : List DurableOperation
  pub idempotency : List IdempotencyRecord
  pub audits : List AuditRecord
  -- AUTOINCREMENT never hands out a number twice.
  pub audit_sequence : ℕ
  pub retention : List RetentionRow
  pub tombstones : List TombstoneRow
  pub drafts : List DraftRow
  pub draft_idempotency : List DraftIdempotencyRow
  pub logs : List LogRow
  pub log_sequence : ℕ
  pub replay : List ReplayRow
  pub projections : List ProjectionRow
  pub outbox : List OutboxRow
  pub auto_join : List AutoJoinRow

abbrev pub empty_db : Db
empty_db = record {
  communities = [];
  agents = [];
  operations = [];
  idempotency = [];
  audits = [];
  audit_sequence = 0;
  retention = [];
  tombstones = [];
  drafts = [];
  draft_idempotency = [];
  logs = [];
  log_sequence = 0;
  replay = [];
  projections = [];
  outbox = [];
  auto_join = [];
}

-- A method of the repository. An error leaves the database as it was: a statement that fails has
-- no effect, and a transaction that is dropped before its commit is rolled back.
abbrev pub Query {ℓ} : Type ℓ → Type ℓ
Query A = Db → Result StorageError (A × Db)
