-- ===== src/Application/Agents.antt =====
-- src/application.rs: agents are created, changed, deleted and read.
use buzz_server.Base.{
  true, false, ◌||◌, not, List, [], ◌∷◌, Option, none, some, map, String, ◌==◌, nat_eq,
  if◌then◌else◌, select,
}
use mathlib.Core.Option
use buzz_server.Base.Int.{ℤ, pos, max_ℤ, saturating_add}
use buzz_server.Base.Action.{◌>>=◌, ◌>>◌, pure, fail, lift}
use buzz_server.Operation.{
  OperationKind, create_agent, update_agent, enable_agent, disable_agent, delete_agent, purge_agent,
  kind_eq,
}
use buzz_server.Text.Validate.{invalid}
use buzz_server.Agent
use buzz_server.Agent.{AgentId, AgentSpec, enabled, disabled, deleted, desired_eq}
use buzz_server.Auth.{AuthenticatedPrincipal}
use buzz_server.Storage.Schema.{CreateAgentInput, RedactedLogEntry, Db}
use buzz_server.Storage.Operations.{get_operation}
use buzz_server.Storage.Command.{AgentCommandMutation}
use buzz_server.Storage.Retention.{get_agent, list_agents, agent_retention}
use buzz_server.Storage.Drafts.{agent_logs}
use buzz_server.Api
use buzz_server.Api.{
  CommandMetadata, UpdateAgentRequest, ChangeAgentStateRequest, AgentCommandRequest,
  ListAgentsRequest, AgentLogsRequest, AgentResource, OperationResource, AgentLogsResource,
  ApplicationError, not_found, internal,
}
use buzz_server.Api.Service.{Call}
use buzz_server.Application.{
  World, SqliteLifecycleApplication, ExecutionPlan, Payload, agent_resource, is_unfinished, load,
  found, clock, new_id,
}
use buzz_server.Application.Execute.{execute, existing_community}

unfoldable pub create_plan : AgentSpec → Option String → ExecutionPlan
create_plan agent promoted_draft_id = record {
  kind = create_agent;
  agent_id = agent.id;
  community_id = agent.community_config_id;
  mutation = AgentCommandMutation.create agent;
  promoted_draft_id = promoted_draft_id;
  wake_immediately = false;
}

abbrev pub last_cursor : List RedactedLogEntry → Option String
last_cursor [] = none
last_cursor (e ∷ []) = some e.cursor
last_cursor (_ ∷ e ∷ es) = last_cursor (e ∷ es)

unfoldable pub purge_after_of : AgentId → Db → Option ℤ
unfolding agent_retention
purge_after_of id db = Option.map (λ r. r.purge_after) (agent_retention id db)

module _ {X : Type 0} (self : SqliteLifecycleApplication X) where
  -- The agent that a create has committed: this one, or that of an earlier request.
  unfoldable pub committed_agent : AgentSpec → AgentId → Call (World X) AgentSpec
  committed_agent agent id =
      if id == agent.id then pure agent else (do row ← load (get_agent id); found not_found row)

  unfoldable pub wake_stored : OperationResource → Call (World X) (Unit {0})
  wake_stored resource = do
    row ← load (get_operation resource.id)
    elim row [
      | none ↦ pure tt
      | some operation ↦
          if is_unfinished operation.status then self.effects.operation_ready operation else pure tt
    ]

  -- What creating an agent and promoting a draft share, from the resolved agent on.
  unfoldable pub create_from :
      AuthenticatedPrincipal
      → CommandMetadata
      → Payload
      → Option String
      → CreateAgentInput
      → AgentSpec
      → Call (World X) OperationResource
  create_from actor metadata payload promoted_draft_id input agent = do
    lift Api.invalid (Agent.validate agent)
    resource ← execute self actor metadata payload (create_plan agent promoted_draft_id)
    committed_agent_id ← found internal resource.agent_id
    committed ← committed_agent agent committed_agent_id
    self.effects.persist_agent_create committed input
    wake_stored resource
    pure resource

  unfoldable pub create :
      AuthenticatedPrincipal → CommandMetadata → CreateAgentInput → Call (World X) OperationResource
  create actor metadata input = do
    fresh ← new_id self
    agent ← self.effects.prepare_agent_create fresh input
    create_from actor metadata (Payload.create_input input) none input agent

  unfoldable pub update :
      AuthenticatedPrincipal → UpdateAgentRequest → Call (World X) OperationResource
  update actor request = do
    row ← load (get_agent request.agent_id)
    current ← found not_found row
    self.effects.prepare_agent_update current request.changes
    execute self actor request.metadata (Payload.update_request request) (record {
      kind = update_agent;
      agent_id = request.agent_id;
      community_id = current.community_config_id;
      mutation = AgentCommandMutation.update request.agent_id request.changes;
      promoted_draft_id = none;
      wake_immediately = true;
    })

  unfoldable pub change_to :
      OperationKind
      → AuthenticatedPrincipal
      → ChangeAgentStateRequest
      → Call (World X) OperationResource
  change_to kind actor request = do
    community ← existing_community self request.agent_id
    execute self actor request.metadata (Payload.state_request request) (record {
      kind = kind;
      agent_id = request.agent_id;
      community_id = community;
      mutation = AgentCommandMutation.set_state request.agent_id request.desired_state none;
      promoted_draft_id = none;
      wake_immediately = true;
    })

  unfoldable pub change_agent_state :
      AuthenticatedPrincipal → ChangeAgentStateRequest → Call (World X) OperationResource
  change_agent_state actor request = elim request.desired_state [
    | enabled ↦ change_to enable_agent actor request
    | disabled ↦ change_to disable_agent actor request
    | deleted ↦ fail (Api.invalid (invalid "desired_state" "deleted state requires delete"))
  ]

  -- `now.saturating_add(retention_seconds.max(0))`
  unfoldable pub new_deadline : Call (World X) ℤ
  unfolding saturating_add
  new_deadline = do
    now ← clock self
    pure (saturating_add now (max_ℤ self.retention_seconds (pos 0)))

  -- An agent that is deleted already keeps the deadline that it has.
  unfoldable pub retention_deadline :
      OperationKind → AgentSpec → AgentId → Call (World X) (Option ℤ)
  retention_deadline delete_agent agent id =
      if agent.desired_state == deleted
      then (do
        existing ← load (purge_after_of id)
        elim existing [
          | some deadline ↦ pure (some deadline)
          | none ↦ do deadline ← new_deadline; pure (some deadline)
        ])
      else (do deadline ← new_deadline; pure (some deadline))
  retention_deadline _ agent id = pure none

  unfoldable pub deleted_plan : OperationKind → AgentSpec → AgentId → Option ℤ → ExecutionPlan
  deleted_plan kind agent id deadline = record {
    kind = kind;
    agent_id = id;
    community_id = agent.community_config_id;
    mutation = AgentCommandMutation.set_state id deleted deadline;
    promoted_draft_id = none;
    wake_immediately = true;
  }

  unfoldable pub deleted_command :
      AuthenticatedPrincipal
      → AgentCommandRequest
      → OperationKind
      → Call (World X) OperationResource
  deleted_command actor request kind = do
    row ← load (get_agent request.agent_id)
    agent ← found not_found row
    deadline ← retention_deadline kind agent request.agent_id
    execute self actor request.metadata (Payload.command_request request)
        (deleted_plan kind agent request.agent_id deadline)

  unfoldable pub delete :
      AuthenticatedPrincipal → AgentCommandRequest → Call (World X) OperationResource
  delete actor request = deleted_command actor request delete_agent

  unfoldable pub purge :
      AuthenticatedPrincipal → AgentCommandRequest → Call (World X) OperationResource
  purge actor request = deleted_command actor request purge_agent

  -- An agent with its retention, its key and its prompt file.
  unfoldable pub resource_of : AgentSpec → AgentId → World X → AgentResource
  resource_of agent id w =
      agent_resource agent (purge_after_of id w.db) (self.effects.agent_public_key id w)
        (self.effects.agent_system_prompt_file id w)

  unfoldable pub read_agent : AgentId → Call (World X) AgentResource
  read_agent id = do
    row ← load (get_agent id)
    agent ← found not_found row
    λ w. pure (resource_of agent id w) w

  unfoldable pub read_agents : ListAgentsRequest → Call (World X) (List AgentResource)
  unfolding select
  read_agents request = do
    agents ← load (list_agents request.community_config_id)
    λ w.
        pure
          (map (λ a. resource_of a a.id w)
            (select (λ a. request.include_deleted || not (a.desired_state == deleted)) agents))
          w

  unfoldable pub read_logs : AgentLogsRequest → Call (World X) AgentLogsResource
  read_logs request = do
    _ ← existing_community self request.agent_id
    entries ← load (agent_logs request.agent_id request.after_cursor request.limit)
    pure (record { entries = entries; next_cursor = last_cursor entries })
