-- ===== src/Scenarios/Failures.antt =====
-- An operation whose reconciliation fails (src/main.rs, `reconcile_operation_contained`).
use buzz_server.Base.{ok, ◌≡◌, refl, ℕ}
use buzz_server.Application.{World}
use buzz_server.Contained.{start_pending, terminal_result, Settled, terminal_result-Settled}
use buzz_server.Operation
use buzz_server.Application
use buzz_server.Application.Completion
use buzz_server.Application.Completion.{complete_operation}
use buzz_server.Storage.Operations
use buzz_server.Storage.Audits
use buzz_server.Storage.Statements
use buzz_server.Scenarios.Commands.{accepted}
use buzz_server.Scenarios.Applications.{app, world}

-- The pending operation 5 is started and fails.
abbrev over : World ℕ
over = (terminal_result app 5 (world accepted)).1

ends : terminal_result app 5 (world accepted) ≡ (ok tt, over)
unfolding terminal_result Completion.get_operation_resource Operations.get_operation
    Application.operation_resource buzz_server.Operation.is_terminal start_pending
    Completion.start_operation complete_operation Completion.finish Application.clock
    Application.store Operations.transition_operation buzz_server.Operation.can_transition_to
    Completion.audit_reconciliation Audits.append_audit Statements.insert_audit
    Completion.reconciler_audit Application.notify Operations.set_status
ends = refl

terminal_result-Settled_example : Settled app 5 (world accepted) over
terminal_result-Settled_example = terminal_result-Settled app 5 (world accepted) over ends
