-- ===== src/Application/Execute.antt =====
-- src/application.rs, `execute`: a command becomes a durable operation under its idempotency key.
use buzz_server.Base.{Bool, ◌&&◌, none, some, String, if◌then◌else◌}
use Prim.Native.String.{◌++◌ as str_append}
use buzz_server.Base.Int.{ℤ}
use buzz_server.Base.Action.{◌>>=◌, ◌>>◌, pure}
use buzz_server.Operation.{pending}
use buzz_server.Agent.{AgentId, CommunityConfigId}
use buzz_server.Auth.{AuthenticatedPrincipal}
use buzz_server.Storage.Schema.{OperationId, DurableOperation, IdempotencyRecord, NewAuditRecord}
use buzz_server.Storage.Command.{apply_agent_command}
use buzz_server.Storage.Retention.{get_agent}
use buzz_server.Api.{CommandMetadata, OperationResource, not_found}
use buzz_server.Api.Service.{Call}
use buzz_server.Application.{
  World, SqliteLifecycleApplication, ExecutionPlan, Payload, operation_action, principal_scope,
  authentication_method, operation_resource, is_unfinished, store, load, found, clock, new_id,
  request_hash, agent_text, audit_actor,
}

unfoldable pub new_operation : ExecutionPlan → CommandMetadata → OperationId → ℤ → DurableOperation
new_operation plan metadata id now = record {
  id = id;
  kind = plan.kind;
  status = pending;
  agent_id = some plan.agent_id;
  error_code = none;
  created_at = now;
  updated_at = now;
  correlation_id = metadata.correlation_id;
}

-- `format!("{principal_scope}:{}", operation_action(kind))`
unfoldable pub command_scope : AuthenticatedPrincipal → ExecutionPlan → String
unfolding principal_scope operation_action
command_scope actor plan =
    str_append (principal_scope actor.principal) (str_append ":" (operation_action plan.kind))

unfoldable pub command_entry :
    AuthenticatedPrincipal
    → CommandMetadata
    → ExecutionPlan
    → String
    → OperationId
    → ℤ
    → IdempotencyRecord
command_entry actor metadata plan hash id now = record {
  scope = command_scope actor plan;
  key = metadata.idempotency_key;
  request_hash = hash;
  operation_id = id;
  created_at = now;
}

module _ {X : Type 0} (self : SqliteLifecycleApplication X) where
  unfoldable pub command_audit :
      AuthenticatedPrincipal → CommandMetadata → ExecutionPlan → OperationId → ℤ → NewAuditRecord
  unfolding operation_action
  command_audit actor metadata plan id now = record {
    occurred_at = now;
    actor_principal = audit_actor self actor.principal;
    authentication_method = authentication_method actor.principal;
    community_config_id = some plan.community_id;
    operation_id = some id;
    correlation_id = metadata.correlation_id;
    idempotency_key = some metadata.idempotency_key;
    action = operation_action plan.kind;
    subject_type = "agent";
    subject_id = some (agent_text self plan.agent_id);
    outcome = "accepted";
    redacted_detail = none;
  }

  -- The end of `execute`: a committed operation that is not finished wakes the reconciler.
  unfoldable pub wake : Bool → DurableOperation → Call (World X) (Unit {0})
  wake wake_immediately operation =
      if wake_immediately && is_unfinished operation.status
      then self.effects.operation_ready operation
      else pure tt

  -- The transaction of `execute`, once the values that it writes are drawn.
  unfoldable pub commit :
      AuthenticatedPrincipal
      → CommandMetadata
      → ExecutionPlan
      → ℤ
      → OperationId
      → String
      → Call (World X) (DurableOperation × Bool)
  commit actor metadata plan now id hash = store (
      apply_agent_command (new_operation plan metadata id now)
        (command_entry actor metadata plan hash id now) plan.mutation plan.promoted_draft_id
        (command_audit actor metadata plan id now))

  unfoldable pub execute :
      AuthenticatedPrincipal
      → CommandMetadata
      → Payload
      → ExecutionPlan
      → Call (World X) OperationResource
  execute actor metadata payload plan = do
    now ← clock self
    id ← new_id self
    hash ← request_hash self payload
    committed ← commit actor metadata plan now id hash
    wake plan.wake_immediately committed.0
    pure (operation_resource committed.0)

  unfoldable pub existing_community : AgentId → Call (World X) CommunityConfigId
  existing_community id = do
    agent ← load (get_agent id)
    spec ← found not_found agent
    pure spec.community_config_id
