-- ===== src/Api/Service.antt =====
-- src/api.rs, `LifecycleApplication`: what the handlers call, over the world that it changes.
use buzz_server.Base.{ℕ, List, String}
use buzz_server.Base.Action.{Action}
use buzz_server.Agent.{AgentId, CommunityConfigId}
use buzz_server.Agent.Files.{PersonaDefinition}
use buzz_server.Community.{CommunityConfig}
use buzz_server.Auth.{AuthenticatedPrincipal}
use buzz_server.Storage.Schema.{OperationId, CreateAgentInput, DraftResource}
use buzz_server.Api.{
  JoinCommunityRequest, UpdateCommunityRequest, CommandMetadata, CreatePersonaRequest,
  UpdatePersonaRequest, UpdateAgentRequest, ChangeAgentStateRequest, AgentCommandRequest,
  SubmitDraftRequest, PromoteDraftRequest, ListAgentsRequest, AgentLogsRequest, AgentResource,
  OperationResource, AgentLogsResource, ApplicationError,
}

abbrev pub Call : Type 0 → Type 0 → Type 0
Call W A = Action W ApplicationError A

-- The timeout of a wait is in seconds.
pub record LifecycleApplication (W : Type 0) : Type 0 where
  pub join_community : JoinCommunityRequest → Call W CommunityConfig
  pub update_community : UpdateCommunityRequest → Call W CommunityConfig
  pub get_community : CommunityConfigId → Call W CommunityConfig
  pub list_communities : Call W (List CommunityConfig)
  pub remove_community : CommunityConfigId → Call W CommunityConfig
  pub create_persona : CreatePersonaRequest → Call W PersonaDefinition
  pub update_persona : UpdatePersonaRequest → Call W PersonaDefinition
  pub get_persona : String → Call W PersonaDefinition
  pub list_personas : Call W (List PersonaDefinition)
  pub delete_persona : String → Call W PersonaDefinition
  pub create_agent :
      AuthenticatedPrincipal → CommandMetadata → CreateAgentInput → Call W OperationResource
  pub update_agent : AuthenticatedPrincipal → UpdateAgentRequest → Call W OperationResource
  pub change_agent_state :
      AuthenticatedPrincipal → ChangeAgentStateRequest → Call W OperationResource
  pub delete_agent : AuthenticatedPrincipal → AgentCommandRequest → Call W OperationResource
  pub purge_agent : AuthenticatedPrincipal → AgentCommandRequest → Call W OperationResource
  pub get_agent : AgentId → Call W AgentResource
  pub list_agents : ListAgentsRequest → Call W (List AgentResource)
  pub agent_logs : AgentLogsRequest → Call W AgentLogsResource
  pub get_operation : OperationId → Call W OperationResource
  pub wait_operation : OperationId → ℕ → Call W OperationResource
  pub submit_draft : AuthenticatedPrincipal → SubmitDraftRequest → Call W DraftResource
  pub get_draft : String → Call W DraftResource
  pub promote_draft : AuthenticatedPrincipal → PromoteDraftRequest → Call W OperationResource
