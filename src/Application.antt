-- ===== src/Application.antt =====
-- src/application.rs, the lifecycle application: the world that it works in, what it is given, and
-- the values that it derives from a request.
pub mod Execute
pub mod Completion
pub mod Communities
pub mod Agents
pub mod Drafts
pub mod Waiting
pub mod Service
pub mod Once
pub mod Scopes
pub mod Retained
pub mod Written
pub mod Ends
pub mod Identities
use buzz_server.Base.{
  ℕ, suc, ◌+◌, ◌*◌, ◌%◌, ◌^◌, Bool, true, false, List, [], Option, none, some, String, Result, ok,
  err,
}
use Prim.Native.String.{◌++◌ as str_append}
use buzz_server.Base.Int.{ℤ, pos}
use buzz_server.Base.Action.{Action, ◌>>=◌, pure, fail}
use buzz_server.Text.Display.{decimal, prefix_of}
use buzz_server.Text.Validate.{invalid}
use buzz_server.Operation.{
  OperationKind, OperationStatus, create_agent, update_agent, enable_agent, disable_agent,
  delete_agent, purge_agent, pending, running,
}
use buzz_server.Agent.{AgentId, CommunityConfigId, AgentSpec, enabled}
use buzz_server.Agent.Files.{PersonaDefinition}
use buzz_server.Community.{CommunityConfig}
use buzz_server.Auth.{AuthenticatedPrincipal, Principal, unix_peer, nip98}
use buzz_server.Storage.Schema.{
  CreateAgentInput, UpdateAgentInput, DurableOperation, StorageError, Db, Query,
}
use buzz_server.Storage.Command.{AgentCommandMutation}
use buzz_server.Api
use buzz_server.Api.{
  CreatePersonaRequest, UpdatePersonaRequest, UpdateAgentRequest, ChangeAgentStateRequest,
  AgentCommandRequest, SubmitDraftRequest, PromoteDraftRequest, AgentResource, OperationResource,
  ApplicationError, unsupported, internal, from_storage,
}
use buzz_server.Api.Service.{Call}

-- The database, the count of `OperationCompletionSignal` (a u64), and all else.
pub record World (X : Type 0) : Type 0 where
  pub db : Db
  pub generation : ℕ
  pub outside : X

pub record LifecycleEffects (W : Type 0) : Type 0 where
  pub verify_community_join : CommunityConfig → Call W (Unit {0})
  pub community_changed : CommunityConfigId → W → W
  pub community_identity_unreferenced : List ℕ → W → W
  pub community_agents_purged : List AgentId → Call W (Unit {0})
  pub create_persona : CreatePersonaRequest → Call W PersonaDefinition
  pub update_persona : UpdatePersonaRequest → Call W PersonaDefinition
  pub get_persona : String → Call W PersonaDefinition
  pub list_personas : Call W (List PersonaDefinition)
  pub delete_persona : String → Call W PersonaDefinition
  pub prepare_agent_create : AgentId → CreateAgentInput → Call W AgentSpec
  pub persist_agent_create : AgentSpec → CreateAgentInput → Call W (Unit {0})
  pub prepare_agent_update : AgentSpec → UpdateAgentInput → Call W (Unit {0})
  pub agent_public_key : AgentId → W → Option String
  pub agent_system_prompt_file : AgentId → W → Option String
  pub operation_ready : DurableOperation → Call W (Unit {0})

abbrev or_empty : Option String → String
or_empty none = ""
or_empty (some s) = s

-- The trait's default of `prepare_agent_create`.
unfoldable pub default_prepare : {W : Type 0} → AgentId → CreateAgentInput → Call W AgentSpec
unfolding invalid
default_prepare id input = elim input.runtime_id [
  | none ↦ fail (
      Api.invalid
        (invalid "runtime_id" "is required when no file-backed persona resolver is installed"))
  | some runtime_id ↦ pure (record {
    id = id;
    community_config_id = input.community_config_id;
    display_name = input.display_name;
    system_prompt = or_empty input.system_prompt;
    runtime = record { runtime_id = runtime_id; environment = [] };
    desired_state = enabled;
  })
]

-- The trait's default methods, over the one that has no default.
unfoldable pub default_effects :
    {W : Type 0} → (DurableOperation → Call W (Unit {0})) → LifecycleEffects W
unfolding default_prepare
default_effects operation_ready = record {
  verify_community_join = λ _. pure tt;
  community_changed = λ _ w. w;
  community_identity_unreferenced = λ _ w. w;
  community_agents_purged = λ _. pure tt;
  create_persona = λ _. fail unsupported;
  update_persona = λ _. fail unsupported;
  get_persona = λ _. fail unsupported;
  list_personas = fail unsupported;
  delete_persona = λ _. fail unsupported;
  prepare_agent_create = default_prepare;
  persist_agent_create = λ _ _. pure tt;
  prepare_agent_update = λ _ _. pure tt;
  agent_public_key = λ _ _. none;
  agent_system_prompt_file = λ _ _. none;
  operation_ready = operation_ready;
}

-- The requests that are hashed.
pub data Payload : Type 0 where
  create_input : CreateAgentInput → Payload
  update_request : UpdateAgentRequest → Payload
  state_request : ChangeAgentStateRequest → Payload
  command_request : AgentCommandRequest → Payload
  submit_request : SubmitDraftRequest → Payload
  promote_request : PromoteDraftRequest → Payload

-- The fields of the source, and what it calls of other code: the clock, `Uuid::now_v7`, a UUID's
-- simple form, `serde_json::to_vec` and the hexadecimal SHA-256 of a text.
pub record SqliteLifecycleApplication (X : Type 0) : Type 0 where
  pub effects : LifecycleEffects (World X)
  pub retention_seconds : ℤ
  pub now : X → ℤ × X
  pub now_v7 : X → ℕ × X
  pub simple : ℕ → String
  pub to_vec : Payload → Option String
  pub sha256 : String → String

abbrev pub default_retention_seconds : ℤ
default_retention_seconds = pos (30 * 24 * 60 * 60)

pub record ExecutionPlan : Type 0 where
  pub kind : OperationKind
  pub agent_id : AgentId
  pub community_id : CommunityConfigId
  pub mutation : AgentCommandMutation
  pub promoted_draft_id : Option String
  pub wake_immediately : Bool

unfoldable pub operation_action : OperationKind → String
operation_action create_agent = "agent.create"
operation_action update_agent = "agent.update"
operation_action enable_agent = "agent.enable"
operation_action disable_agent = "agent.disable"
operation_action delete_agent = "agent.delete"
operation_action purge_agent = "agent.purge"

unfoldable pub principal_scope : Principal → String
unfolding decimal
principal_scope (unix_peer uid gid pid) = str_append "unix_uid:" (decimal uid)
principal_scope (nip98 pubkey) = str_append "nostr:" pubkey

unfoldable pub authentication_method : Principal → String
authentication_method (unix_peer uid gid pid) = "unix_peer"
authentication_method (nip98 pubkey) = "nip98"

unfoldable pub operation_resource : DurableOperation → OperationResource
operation_resource o = record {
  id = o.id;
  kind = o.kind;
  status = o.status;
  agent_id = o.agent_id;
  correlation_id = o.correlation_id;
  error_code = o.error_code;
  created_at = o.created_at;
  updated_at = o.updated_at;
}

unfoldable pub agent_resource : AgentSpec → Option ℤ → Option String → Option String → AgentResource
agent_resource agent purge_after public_key system_prompt_file = record {
  id = agent.id;
  community_config_id = agent.community_config_id;
  display_name = agent.display_name;
  system_prompt = agent.system_prompt;
  system_prompt_file = system_prompt_file;
  runtime_id = agent.runtime.runtime_id;
  desired_state = agent.desired_state;
  purge_after = purge_after;
  public_key = public_key;
}

abbrev pub is_unfinished : OperationStatus → Bool
is_unfinished pending = true
is_unfinished running = true
is_unfinished _ = false

abbrev pub stored :
    {A X : Type 0} → World X → Result StorageError (A × Db) → Result ApplicationError A × World X
stored w (ok (a, db)) = (ok a, record w { db = db })
stored w (err e) = (err (from_storage e), w)

-- A method of the repository, `?` carrying its error over.
unfoldable pub store : {X A : Type 0} → Query A → Call (World X) A
unfolding from_storage
store query w = stored w (query w.db)

-- A query that fails only with the database.
abbrev pub load : {X A : Type 0} → (Db → A) → Call (World X) A
load f w = (ok (f w.db), w)

-- `.ok_or(error)?`
abbrev pub found : {W A : Type 0} → ApplicationError → Option A → Call W A
found e none = fail e
found e (some a) = pure a

-- An effect that cannot fail.
abbrev pub perform : {W : Type 0} → (W → W) → Call W (Unit {0})
perform f w = (ok tt, f w)

module _ {X : Type 0} (self : SqliteLifecycleApplication X) where
  unfoldable pub clock : Call (World X) ℤ
  clock w = let (time, x) = self.now w.outside in (ok time, record w { outside = x })

  unfoldable pub new_id : Call (World X) ℕ
  new_id w = let (id, x) = self.now_v7 w.outside in (ok id, record w { outside = x })

  unfoldable pub request_hash : Payload → Call (World X) String
  request_hash payload = elim (self.to_vec payload) [
    | none ↦ fail internal
    | some bytes ↦ pure (str_append "sha256:" (self.sha256 bytes))
  ]

  -- `AgentId`'s Display.
  unfoldable pub agent_text : AgentId → String
  agent_text id = str_append "agent_" (self.simple id)

  unfoldable pub audit_actor : Principal → String
  unfolding decimal prefix_of
  audit_actor (unix_peer uid gid pid) = str_append "unix_uid:" (decimal uid)
  audit_actor (nip98 pubkey) = str_append "nostr_sha256:" (prefix_of 16 (self.sha256 pubkey))

-- `OperationCompletionSignal::notify`, the increment wrapping.
unfoldable pub notify : {X : Type 0} → Call (World X) (Unit {0})
notify w = (ok tt, record w { generation = (w.generation + 1) % 2 ^ 64 })
