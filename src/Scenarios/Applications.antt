-- ===== src/Scenarios/Applications.antt =====
-- An application over a counted clock, and what it answers (src/application.rs, src/api.rs).
use buzz_server.Base.{ℕ, suc, none, some, [], ◌∷◌, ok, ◌≡◌, refl, true, ◌↔◌, arith, string_eq}
use buzz_server.Base.Int.{pos}
use buzz_server.Base.Action.{pure}
use buzz_server.Operation.{
  pending, running, succeeded, failed, create_agent, delete_agent, is_terminal,
}
use buzz_server.Agent.{deleted}
use buzz_server.Auth.{
  AuthenticatedPrincipal, administrator, draft_submitter, unix_peer, ownership_key,
}
use buzz_server.Storage.Schema.{Db}
use buzz_server.Storage.Calls.{run_calls}
use buzz_server.Storage.Command
use buzz_server.Storage.Command.{AgentCommandMutation}
use buzz_server.Storage.Statements
use buzz_server.Storage.Operations
use buzz_server.Storage.Audits
use buzz_server.Agent
use buzz_server.Application
use buzz_server.Application.Execute
use buzz_server.Application.Agents
use buzz_server.Application.Completion
use buzz_server.Api.{CommandMetadata, AgentCommandRequest, OperationResource}
use buzz_server.Application.{
  World, SqliteLifecycleApplication, ExecutionPlan, Payload, default_effects, operation_resource,
}
use buzz_server.Application.Execute.{execute, command_scope}
use buzz_server.Application.Agents.{create_plan, delete, purge_after_of}
use buzz_server.Application.Completion.{complete_operation}
use buzz_server.Application.Once.{execute_once}
use buzz_server.Application.Retained.{delete_keeps}
use buzz_server.Application.Ends.{Ended, complete_operation-Ended}
use buzz_server.Application.Scopes.{command_scope_iff}
use buzz_server.Storage.Retention.{get_agent, agent_retention}
use buzz_server.Scenarios.Removals.{retained, doomed}
use buzz_server.Scenarios.Commands.{scout, request, before, accepted}

abbrev pub app : SqliteLifecycleApplication ℕ
app = record {
  effects = default_effects (λ _. pure tt);
  retention_seconds = pos 10;
  now = λ x. (pos x, suc x);
  now_v7 = λ x. (x, suc x);
  simple = λ _. "00";
  to_vec = λ _. some "body";
  sha256 = λ _. "0123456789abcdef01";
}

abbrev root : AuthenticatedPrincipal
root = record { principal = unix_peer 0 0 none; authority = administrator }

abbrev pub guest : AuthenticatedPrincipal
guest = record { principal = unix_peer 1000 0 none; authority = draft_submitter }

abbrev metadata : CommandMetadata
metadata = record { idempotency_key = "k1"; correlation_id = "c1" }

abbrev again : CommandMetadata
again = record { idempotency_key = "k1"; correlation_id = "c2" }

abbrev body : Payload
body = Payload.promote_request (record { metadata = metadata; draft_id = "d" })

abbrev plan : ExecutionPlan
plan = record {
  kind = create_agent;
  agent_id = 7;
  community_id = 1;
  mutation = AgentCommandMutation.create scout;
  promoted_draft_id = none;
  wake_immediately = true;
}

abbrev pub world : Db → World ℕ
world db = record { db = db; generation = 0; outside = 100 }

abbrev answer : OperationResource
answer = record {
  id = 101;
  kind = create_agent;
  status = pending;
  agent_id = some 7;
  correlation_id = "c1";
  error_code = none;
  created_at = pos 100;
  updated_at = pos 100;
}

abbrev first : World ℕ
first = (execute app root metadata body plan (world before)).1

answers_first : execute app root metadata body plan (world before) ≡ (ok answer, first)
unfolding execute Application.clock Application.new_id Application.request_hash Execute.commit
    Application.store Command.apply_agent_command Statements.idempotency_row Command.fresh_command
    Command.apply_mutation Execute.new_operation Agent.validate Statements.insert_operation
    Statements.insert_idempotency Command.promote Statements.insert_audit Execute.command_audit
    Execute.wake default_effects operation_resource
answers_first = refl

abbrev second : World ℕ
second = (execute app root again body plan (world (run_calls first.db []))).1

answers_again :
    execute app root again body plan (world (run_calls first.db [])) ≡ (ok answer, second)
unfolding execute Application.clock Application.new_id Application.request_hash Execute.commit
    Application.store Command.apply_agent_command Statements.idempotency_row Command.fresh_command
    Command.apply_mutation Execute.new_operation Agent.validate Statements.insert_operation
    Statements.insert_idempotency Command.promote Statements.insert_audit Execute.command_audit
    Execute.wake default_effects operation_resource run_calls Command.replay_command
    Statements.operation_row Execute.command_entry command_scope
answers_again = refl

execute_once_example : (◌≡◌ {A = ℕ} 101 101) × (second.db ≡ run_calls first.db [])
unfolding default_effects
execute_once_example =
    execute_once app (λ o w. refl) root root metadata again body body plan plan (world before) first
      (world (run_calls first.db [])) second answer answer [] answers_first tt refl answers_again
      refl refl

-- An agent that is deleted, with a purge due at 200, is deleted again.
abbrev request_again : AgentCommandRequest
request_again = record { metadata = metadata; agent_id = 7 }

abbrev deleting : OperationResource
deleting = record answer { kind = delete_agent }

abbrev deleted_twice : World ℕ
deleted_twice = (delete app root request_again (world retained)).1

deletes : delete app root request_again (world retained) ≡ (ok deleting, deleted_twice)
unfolding execute Application.clock Application.new_id Application.request_hash Execute.commit
    Application.store Command.apply_agent_command Statements.idempotency_row Command.fresh_command
    Command.apply_mutation Execute.new_operation Agent.validate Statements.insert_operation
    Statements.insert_idempotency Command.promote Statements.insert_audit Execute.command_audit
    Execute.wake default_effects operation_resource delete Agents.deleted_command get_agent
    Agents.retention_deadline purge_after_of Agents.deleted_plan Statements.load_agent_transaction
    Statements.update_agent_transaction Command.update_retention
deletes = refl

doomed_found : get_agent 7 retained ≡ some doomed
unfolding get_agent
doomed_found = refl

due_found : purge_after_of 7 retained ≡ some (pos 200)
unfolding purge_after_of agent_retention
due_found = refl

delete_keeps_example : purge_after_of 7 deleted_twice.db ≡ some (pos 200)
unfolding default_effects
delete_keeps_example =
    delete_keeps app (λ o w. refl) root request_again (world retained) deleted_twice deleting doomed
      (pos 200) doomed_found refl due_found deletes

-- A running operation fails.
abbrev busy : Db
busy = record accepted { operations = record request { status = running } ∷ [] }

abbrev over : World ℕ
over = (complete_operation app 5 failed none (world busy)).1

completes : complete_operation app 5 failed none (world busy) ≡ (ok tt, over)
unfolding complete_operation Operations.get_operation Completion.finish Application.clock
    Application.store Operations.transition_operation buzz_server.Operation.can_transition_to
    Completion.audit_reconciliation Audits.append_audit Statements.insert_audit
    Completion.reconciler_audit Application.notify
completes = refl

complete_operation-Ended_example : (is_terminal failed ≡ true) × Ended 5 failed (world busy) over
complete_operation-Ended_example =
    complete_operation-Ended app 5 failed none (world busy) over completes

-- Two owners, and one kind of command.
command_scope_iff_example : (command_scope root plan ≡ command_scope guest plan) ↔ (
    (ownership_key (unix_peer 0 0 none) ≡ ownership_key (unix_peer 1000 0 none))
    × (create_agent ≡ create_agent))
command_scope_iff_example = command_scope_iff root guest plan plan (omega arith) (omega arith)
