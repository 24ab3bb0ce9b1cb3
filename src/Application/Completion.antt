-- ===== src/Application/Completion.antt =====
-- src/application.rs: how an operation is started and completed, and read.
use buzz_server.Base.{
  Bool, true, false, ◌&&◌, List, Option, none, some, String, ◌==◌, nat_eq, if◌then◌else◌,
}
use mathlib.Core.Option
use buzz_server.Base.Int.{ℤ}
use buzz_server.Base.Action.{◌>>=◌, ◌>>◌, pure, fail}
use buzz_server.Operation.{
  purge_agent, kind_eq, OperationStatus, running, succeeded, failed, cancelled, status_eq,
}
use buzz_server.Text.Validate.{invalid}
use buzz_server.Agent.{AgentId, CommunityConfigId}
use buzz_server.Storage.Schema.{
  OperationId, ErrorCode, Detail, DurableOperation, NewAuditRecord, Db,
}
use buzz_server.Storage.Operations.{get_operation, transition_operation}
use buzz_server.Storage.Audits.{append_audit}
use buzz_server.Storage.Retention.{get_agent, expired_retained_agents, complete_purge}
use buzz_server.Api
use buzz_server.Api.{OperationResource, ApplicationError, not_found, conflict}
use buzz_server.Api.Service.{Call}
use buzz_server.Application.{
  World, SqliteLifecycleApplication, operation_resource, store, load, found, clock, agent_text,
  notify,
}

-- `matches!(status, Succeeded | Failed | Cancelled)`
abbrev pub is_end : OperationStatus → Bool
is_end succeeded = true
is_end failed = true
is_end cancelled = true
is_end _ = false

-- The community of the operation's agent, if the agent is there.
unfoldable pub community_of : Option AgentId → Db → Option CommunityConfigId
community_of none db = none
community_of (some id) db = Option.map (λ a. a.community_config_id) (get_agent id db)

unfoldable pub get_operation_resource :
    {X : Type 0} → OperationId → Call (World X) OperationResource
get_operation_resource id = do
  row ← load (get_operation id)
  operation ← found not_found row
  pure (operation_resource operation)

module _ {X : Type 0} (self : SqliteLifecycleApplication X) where
  unfoldable pub subject_text : Option AgentId → Option String
  subject_text none = none
  subject_text (some id) = some (agent_text self id)

  unfoldable pub reconciler_audit :
      DurableOperation → Option CommunityConfigId → String → String → ℤ → NewAuditRecord
  reconciler_audit operation community action outcome now = record {
    occurred_at = now;
    actor_principal = "system:reconciler";
    authentication_method = "internal";
    community_config_id = community;
    operation_id = some operation.id;
    correlation_id = operation.correlation_id;
    idempotency_key = none;
    action = action;
    subject_type = "agent";
    subject_id = subject_text operation.agent_id;
    outcome = outcome;
    redacted_detail = none;
  }

  unfoldable pub audit_reconciliation :
      DurableOperation → String → String → Call (World X) (Unit {0})
  audit_reconciliation operation action outcome = do
    community ← load (community_of operation.agent_id)
    now ← clock self
    _ ← store (append_audit (reconciler_audit operation community action outcome now))
    pure tt

  unfoldable pub start_operation : OperationId → Call (World X) (Unit {0})
  start_operation id = do
    row ← load (get_operation id)
    operation ← found not_found row
    now ← clock self
    store (transition_operation id running none now)
    audit_reconciliation operation "operation.running" "accepted"

  -- A purge that has succeeded ends in one transaction.
  unfoldable pub finish_purge : OperationId → DurableOperation → Call (World X) (Unit {0})
  finish_purge id operation = do
    agent_id ← found (conflict (Detail.text "purge operation has no agent")) operation.agent_id
    row ← load (get_agent agent_id)
    agent ← found not_found row
    now ← clock self
    audited ← clock self
    store (
        complete_purge agent_id id now (
          reconciler_audit (record operation { id = id; agent_id = some agent_id })
            (some agent.community_config_id) "operation.complete" "succeeded" audited))
    notify

  unfoldable pub finish :
      OperationId
      → DurableOperation
      → OperationStatus
      → Option ErrorCode
      → Call (World X) (Unit {0})
  finish id operation status error_code = do
    now ← clock self
    store (transition_operation id status error_code now)
    audit_reconciliation operation "operation.complete"
        (if status == succeeded then "succeeded" else "failed")
    notify

  unfoldable pub complete_operation :
      OperationId → OperationStatus → Option ErrorCode → Call (World X) (Unit {0})
  complete_operation id status error_code =
      if is_end status
      then (do
        row ← load (get_operation id)
        operation ← found not_found row
        if status == succeeded && operation.kind == purge_agent
            then finish_purge id operation
            else finish id operation status error_code)
      else fail (Api.invalid (invalid "status" "completion status must be terminal"))

  unfoldable pub expired_agents : Call (World X) (List AgentId)
  expired_agents = do now ← clock self; load (expired_retained_agents now)
