-- ===== src/Api.antt =====
-- src/api.rs: the requests and the resources of the lifecycle API, and its errors.
pub mod Requests
pub mod Service
pub mod Handler
pub mod Router
pub mod Permission
use buzz_server.Base.{ℕ, Bool, Option, none, some, List, String}
use buzz_server.Base.Int.{ℤ}
use buzz_server.Operation.{OperationKind, OperationStatus}
use buzz_server.Agent.{AgentId, CommunityConfigId, DesiredAgentState}
use buzz_server.Agent.Files.{PersonaDefinition}
use buzz_server.Community.{CommunityConfig, Url}
use buzz_server.Text.Validate.{Message, ValidationError}
use buzz_server.Auth.{AuthorizationError, not_owner}
use buzz_server.Storage.Schema.{
  OperationId, ErrorCode, Detail, StorageError, CreateAgentInput, UpdateAgentInput, DraftResource,
  RedactedLogEntry,
}
use buzz_server.Storage.Schema

pub record JoinCommunityRequest : Type 0 where
  pub display_name : String
  pub relay_url : Url
  pub identity_pubkey : String

pub record UpdateCommunityRequest : Type 0 where
  pub community_id : CommunityConfigId
  pub display_name : String

pub record CommandMetadata : Type 0 where
  pub idempotency_key : String
  pub correlation_id : String

pub record CreatePersonaRequest : Type 0 where
  pub display_name : String
  pub system_prompt : String
  pub runtime : Option String

pub record UpdatePersonaInput : Type 0 where
  pub display_name : Option String
  pub system_prompt : Option String
  pub runtime : Option String

pub record UpdatePersonaRequest : Type 0 where
  pub persona_id : String
  pub changes : UpdatePersonaInput

pub record CreateAgentRequest : Type 0 where
  pub metadata : CommandMetadata
  pub agent : CreateAgentInput

pub record UpdateAgentRequest : Type 0 where
  pub metadata : CommandMetadata
  pub agent_id : AgentId
  pub changes : UpdateAgentInput

pub record ChangeAgentStateRequest : Type 0 where
  pub metadata : CommandMetadata
  pub agent_id : AgentId
  pub desired_state : DesiredAgentState

pub record AgentCommandRequest : Type 0 where
  pub metadata : CommandMetadata
  pub agent_id : AgentId

pub record SubmitDraftRequest : Type 0 where
  pub metadata : CommandMetadata
  pub agent : CreateAgentInput

pub record PromoteDraftRequest : Type 0 where
  pub metadata : CommandMetadata
  pub draft_id : String

pub record ListAgentsRequest : Type 0 where
  pub community_config_id : Option CommunityConfigId
  pub include_deleted : Bool

-- The limit is a u16.
pub record AgentLogsRequest : Type 0 where
  pub agent_id : AgentId
  pub after_cursor : Option String
  pub limit : ℕ

pub record AgentResource : Type 0 where
  pub id : AgentId
  pub community_config_id : CommunityConfigId
  pub display_name : String
  pub system_prompt : String
  pub system_prompt_file : Option String
  pub runtime_id : String
  pub desired_state : DesiredAgentState
  pub purge_after : Option ℤ
  pub public_key : Option String

pub record OperationResource : Type 0 where
  pub id : OperationId
  pub kind : OperationKind
  pub status : OperationStatus
  pub agent_id : Option AgentId
  pub correlation_id : String
  pub error_code : Option ErrorCode
  pub created_at : ℤ
  pub updated_at : ℤ

pub record AgentLogsResource : Type 0 where
  pub entries : List RedactedLogEntry
  pub next_cursor : Option String

pub data LifecycleRouteRequest : Type 0 where
  join_community : JoinCommunityRequest → LifecycleRouteRequest
  update_community : UpdateCommunityRequest → LifecycleRouteRequest
  get_community : CommunityConfigId → LifecycleRouteRequest
  list_communities : LifecycleRouteRequest
  remove_community : CommunityConfigId → LifecycleRouteRequest
  create_persona : CreatePersonaRequest → LifecycleRouteRequest
  update_persona : UpdatePersonaRequest → LifecycleRouteRequest
  get_persona : String → LifecycleRouteRequest
  list_personas : LifecycleRouteRequest
  delete_persona : String → LifecycleRouteRequest
  create_agent : CreateAgentRequest → LifecycleRouteRequest
  update_agent : UpdateAgentRequest → LifecycleRouteRequest
  change_agent_state : ChangeAgentStateRequest → LifecycleRouteRequest
  delete_agent : AgentCommandRequest → LifecycleRouteRequest
  purge_agent : AgentCommandRequest → LifecycleRouteRequest
  get_agent : AgentId → LifecycleRouteRequest
  list_agents : ListAgentsRequest → LifecycleRouteRequest
  agent_logs : AgentLogsRequest → LifecycleRouteRequest
  get_operation : OperationId → LifecycleRouteRequest
  await_operation : OperationId → LifecycleRouteRequest
  submit_draft : SubmitDraftRequest → LifecycleRouteRequest
  get_draft : String → LifecycleRouteRequest
  promote_draft : PromoteDraftRequest → LifecycleRouteRequest

pub data LifecycleRouteResource : Type 0 where
  community : CommunityConfig → LifecycleRouteResource
  communities : List CommunityConfig → LifecycleRouteResource
  persona : PersonaDefinition → LifecycleRouteResource
  personas : List PersonaDefinition → LifecycleRouteResource
  agent : AgentResource → LifecycleRouteResource
  agents : List AgentResource → LifecycleRouteResource
  logs : AgentLogsResource → LifecycleRouteResource
  operation : OperationResource → LifecycleRouteResource
  draft : DraftResource → LifecycleRouteResource

pub data ApplicationError : Type 0 where
  not_found : ApplicationError
  forbidden : String → ApplicationError
  unavailable : String → ApplicationError
  conflict : Detail → ApplicationError
  invalid : ValidationError → ApplicationError
  unsupported : ApplicationError
  internal : ApplicationError

-- `impl From<StorageError> for ApplicationError`
unfoldable pub from_storage : StorageError → ApplicationError
from_storage Schema.StorageError.not_found = not_found
from_storage (Schema.StorageError.conflict message) = conflict message
from_storage _ = internal

-- What the message of an API error says: a text, a validation's message or a storage error's.
pub data ApiMessage : Type 0 where
  text : String → ApiMessage
  validation : Message → ApiMessage
  detail : Detail → ApiMessage

-- src/error.rs
pub record ApiError : Type 0 where
  pub code : ErrorCode
  pub message : ApiMessage
  pub field : Option String

-- `ApiError::validation`
unfoldable pub api_validation : ValidationError → ApiError
api_validation error = record {
  code = ErrorCode.invalid_request;
  message = ApiMessage.validation error.message;
  field = some error.field;
}

abbrev pub plain : ErrorCode → ApiMessage → ApiError
plain code message = record { code = code; message = message; field = none }

unfoldable pub api_authorization : AuthorizationError → ApiError
api_authorization AuthorizationError.forbidden =
    plain ErrorCode.forbidden (ApiMessage.text "operation is not permitted")
api_authorization not_owner =
    plain ErrorCode.forbidden (ApiMessage.text "resource is not owned by the principal")

unfoldable pub api_application : ApplicationError → ApiError
unfolding api_validation
api_application not_found = plain ErrorCode.not_found (ApiMessage.text "resource not found")
api_application (forbidden message) = plain ErrorCode.forbidden (ApiMessage.text message)
api_application (unavailable message) = plain ErrorCode.unavailable (ApiMessage.text message)
api_application (conflict message) = plain ErrorCode.conflict (ApiMessage.detail message)
api_application (invalid error) = api_validation error
api_application unsupported =
    plain ErrorCode.unsupported (ApiMessage.text "operation is unsupported")
api_application internal = plain ErrorCode.internal (ApiMessage.text "internal service error")
