-- ===== src/Api/Handler.antt =====
-- src/api.rs, `LifecycleHandler`: every request is authorized, then checked, then handed on.
use buzz_server.Base.{
  Bool, true, false, ◌||◌, List, Option, none, some, String, Result, ◌==◌, nat_eq, ltb,
  if◌then◌else◌,
}
use buzz_server.Base.Action.{Action, ◌>>=◌, ◌>>◌, pure, fail, lift, raise}
use buzz_server.Agent.{AgentId, CommunityConfigId, deleted, desired_eq}
use buzz_server.Agent.Files.{PersonaDefinition}
use buzz_server.Community
use buzz_server.Community.{CommunityConfig, new, with_identity_pubkey}
use buzz_server.Text.Validate.{ValidationError, invalid}
use buzz_server.Auth.{
  AuthenticatedPrincipal, Capability, read_community, manage_community, read_agent, read_draft,
  authorize,
}
use buzz_server.Storage.Schema.{PrincipalOwnership, OperationId, DraftResource}
use buzz_server.Api.{
  JoinCommunityRequest, UpdateCommunityRequest, CreatePersonaRequest, UpdatePersonaRequest,
  CreateAgentRequest, UpdateAgentRequest, ChangeAgentStateRequest, AgentCommandRequest,
  SubmitDraftRequest, PromoteDraftRequest, ListAgentsRequest, AgentLogsRequest, AgentResource,
  OperationResource, AgentLogsResource, ApiError, api_validation, api_authorization,
  api_application,
}
use buzz_server.Api.Requests.{
  validate_token, validate_metadata, validate_create, validate_update, no_changes,
  no_persona_changes,
}
use buzz_server.Api.Service.{LifecycleApplication}

abbrev pub Handled : Type 0 → Type 0 → Type 0
Handled W A = Action W ApiError A

-- `authorize(actor, capability, owner).map_err(api_authorization)?`
abbrev pub permit :
    {W : Type 0}
    → AuthenticatedPrincipal
    → Capability
    → Option PrincipalOwnership
    → Handled W (Unit {0})
permit actor capability owner = lift api_authorization (authorize actor capability owner)

-- `check.map_err(api_validation)?`
abbrev pub checked : {W : Type 0} {A : Type 0} → Result ValidationError A → Handled W A
checked result = lift api_validation result

-- `if wrong { return Err(api_validation(…)) }`
abbrev pub reject_if : {W : Type 0} → Bool → String → String → Handled W (Unit {0})
reject_if true field message = fail (api_validation (invalid field message))
reject_if false field message = pure tt

module _ {W : Type 0} (application : LifecycleApplication W) (actor : AuthenticatedPrincipal) where
  -- The fresh id of the candidate is dropped with it.
  unfoldable pub join_community :
      CommunityConfigId → JoinCommunityRequest → Handled W CommunityConfig
  join_community fresh request = do
    permit actor manage_community none
    bare ← checked (new fresh request.display_name request.relay_url)
    candidate ← checked (with_identity_pubkey bare request.identity_pubkey)
    checked (Community.validate candidate)
    raise api_application (application.join_community request)

  unfoldable pub update_community : UpdateCommunityRequest → Handled W CommunityConfig
  update_community request = do
    permit actor manage_community none
    checked (validate_token "display_name" request.display_name 120)
    raise api_application (application.update_community request)

  unfoldable pub get_community : CommunityConfigId → Handled W CommunityConfig
  get_community id = do
    permit actor read_community none
    raise api_application (application.get_community id)

  unfoldable pub list_communities : Handled W (List CommunityConfig)
  list_communities = do
    permit actor read_community none
    raise api_application (application.list_communities)

  unfoldable pub remove_community : CommunityConfigId → Handled W CommunityConfig
  remove_community id = do
    permit actor manage_community none
    raise api_application (application.remove_community id)

  unfoldable pub create_persona : CreatePersonaRequest → Handled W PersonaDefinition
  create_persona request = do
    permit actor Capability.create_agent none
    checked (validate_token "display_name" request.display_name 120)
    raise api_application (application.create_persona request)

  unfoldable pub update_persona : UpdatePersonaRequest → Handled W PersonaDefinition
  update_persona request = do
    permit actor Capability.update_agent none
    checked (validate_token "persona_id" request.persona_id 120)
    reject_if (no_persona_changes request.changes) "changes" "must include at least one field"
    raise api_application (application.update_persona request)

  unfoldable pub get_persona : String → Handled W PersonaDefinition
  get_persona id = do
    permit actor read_agent none
    raise api_application (application.get_persona id)

  unfoldable pub list_personas : Handled W (List PersonaDefinition)
  list_personas = do permit actor read_agent none; raise api_application (application.list_personas)

  unfoldable pub delete_persona : String → Handled W PersonaDefinition
  delete_persona id = do
    permit actor Capability.delete_agent none
    raise api_application (application.delete_persona id)

  unfoldable pub create_agent : CreateAgentRequest → Handled W OperationResource
  create_agent request = do
    permit actor Capability.create_agent none
    checked (validate_metadata request.metadata)
    checked (validate_create request.agent)
    raise api_application (application.create_agent actor request.metadata request.agent)

  unfoldable pub update_agent : UpdateAgentRequest → Handled W OperationResource
  update_agent request = do
    permit actor Capability.update_agent none
    checked (validate_metadata request.metadata)
    reject_if (no_changes request.changes) "changes" "must include at least one field"
    checked (validate_update request.changes)
    raise api_application (application.update_agent actor request)

  unfoldable pub change_agent_state : ChangeAgentStateRequest → Handled W OperationResource
  change_agent_state request = do
    permit actor Capability.change_agent_state none
    checked (validate_metadata request.metadata)
    reject_if (request.desired_state == deleted) "desired_state"
        "deleted state requires the delete operation"
    raise api_application (application.change_agent_state actor request)

  unfoldable pub agent_command :
      AgentCommandRequest → Capability → Bool → Handled W OperationResource
  agent_command request capability purge = do
    permit actor capability none
    checked (validate_metadata request.metadata)
    raise api_application (
        if purge
        then application.purge_agent actor request
        else application.delete_agent actor request)

  unfoldable pub delete_agent : AgentCommandRequest → Handled W OperationResource
  delete_agent request = agent_command request Capability.delete_agent false

  unfoldable pub purge_agent : AgentCommandRequest → Handled W OperationResource
  purge_agent request = agent_command request Capability.purge_agent true

  unfoldable pub get_agent : AgentId → Handled W AgentResource
  get_agent id = do permit actor read_agent none; raise api_application (application.get_agent id)

  unfoldable pub list_agents : ListAgentsRequest → Handled W (List AgentResource)
  list_agents request = do
    permit actor read_agent none
    raise api_application (application.list_agents request)

  unfoldable pub agent_logs : AgentLogsRequest → Handled W AgentLogsResource
  agent_logs request = do
    permit actor read_agent none
    reject_if (request.limit == 0 || ltb 1000 request.limit) "limit" "must be between 1 and 1000"
    raise api_application (application.agent_logs request)

  unfoldable pub get_operation : OperationId → Handled W OperationResource
  get_operation id = do
    permit actor read_agent none
    raise api_application (application.get_operation id)

  unfoldable pub await_operation : OperationId → Handled W OperationResource
  await_operation id = do
    permit actor read_agent none
    raise api_application (application.wait_operation id 120)

  unfoldable pub submit_draft : SubmitDraftRequest → Handled W DraftResource
  submit_draft request = do
    permit actor Capability.submit_draft none
    checked (validate_metadata request.metadata)
    checked (validate_create request.agent)
    raise api_application (application.submit_draft actor request)

  -- The draft is read first, since its owner decides.
  unfoldable pub get_draft : String → Handled W DraftResource
  get_draft id = do
    draft ← raise api_application (application.get_draft id)
    permit actor read_draft (some draft.owner)
    pure draft

  unfoldable pub promote_draft : PromoteDraftRequest → Handled W OperationResource
  promote_draft request = do
    permit actor Capability.promote_draft none
    checked (validate_metadata request.metadata)
    checked (validate_token "draft_id" request.draft_id 200)
    raise api_application (application.promote_draft actor request)
