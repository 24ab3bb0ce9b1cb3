-- ===== src/Scenarios/Processes.antt =====
-- One launch, its process and its receipt (src/launch.rs and src/reconcile.rs).
use buzz_server.Base.{◌≢◌, Option, none, some, [], ◌∷◌, ok, err, ◌≡◌, refl, true, ◌≤◌, ◌↔◌, arith}
use buzz_server.Base.Int.{pos}
use buzz_server.Operation.{running, enable_agent, status_eq}
use buzz_server.Agent
use buzz_server.Agent.{AgentSpec, enabled, disabled}
use buzz_server.Storage.Schema.{DurableOperation}
use buzz_server.Text.Validate
use buzz_server.Launch.{LaunchSpec, acp_bridge, ExecutableIdentity, never, process, identity}
use buzz_server.Launch.Checks
use buzz_server.Launch.Checks.{validate_launch, validate_identity}
use buzz_server.Launch.Process
use buzz_server.Launch.Process.{
  ProcessReceipt, same_identity, exited, lost, starting, healthy, is_terminal, validate_receipt,
  observe, can_adopt, unset,
}
use buzz_server.Launch.Receipts.{
  validate_identity-validate_launch, Made, can_adopt_iff, can_adopt_unique, observe_keeps,
}
use buzz_server.Reconcile
use buzz_server.Reconcile.{
  SupervisorError, clock, Parts, deferred, unchanged, started, reconcile, reconcile_desired,
}
use buzz_server.Reconcile.Outcomes.{StartCommitted, reconcile-started, reconcile_desired_inert}

abbrev program : ExecutableIdentity
program = record { path = "/opt/acp"; package_id = "acp"; version = "1.2.3"; sha256 = none }

abbrev launch : LaunchSpec
launch = record {
  launch_id = "agent-7";
  agent_id = 7;
  role = acp_bridge;
  harness = program;
  harness_arguments = "serve" ∷ [];
  runtime = record { runtime_id = "goose"; executable = program; arguments = []; preflight = none };
  environment = ("MODE", "fast") ∷ [];
  secret_environment = ("TOKEN", record { key = "token"; version = none }) ∷ [];
  working_directory = "/w";
  workspace_path = "/w";
  runtime_path = "/r";
  process_group_id = "group-7";
  restart = record {
    mode = never;
    max_attempts = 0;
    initial_backoff_ms = 10;
    max_backoff_ms = 10;
    stable_after_ms = 10;
  };
  health = process 10;
}

abbrev receipt : ProcessReceipt
receipt = record {
  launch_id = "agent-7";
  generation = none;
  agent_id = 7;
  process_group_id = "group-7";
  desired = identity launch;
  pid = 42;
  started_at_unix_ms = 1000;
  process_start_ticks = none;
  command_path = none;
  observed_state = starting;
  exit_code = none;
  wait_outcome = none;
  ended_at_unix_ms = none;
  duration_ms = none;
  failure = none;
  app_server_logs = unset;
  lifecycle = none;
}

abbrev agent : AgentSpec
agent = record {
  id = 7;
  community_config_id = 1;
  display_name = "Scout";
  system_prompt = "";
  runtime = record { runtime_id = "goose"; environment = [] };
  desired_state = enabled;
}

abbrev order : DurableOperation
order = record {
  id = 5;
  kind = enable_agent;
  status = running;
  agent_id = some 7;
  error_code = none;
  created_at = pos 100;
  updated_at = pos 100;
  correlation_id = "c1";
}

-- A world that is the stored receipt.
abbrev parts : Parts (Option ProcessReceipt)
parts = record {
  get_agent = λ id w. (ok (some agent), w);
  get_receipt = λ id w. (ok w, w);
  put_receipt = λ r w. (ok tt, some r);
  delete_receipt = λ id w. (ok tt, none);
  start = λ l w. (ok receipt, w);
  inspect = λ r w. (ok r, w);
  stop = λ r w. (ok r, w);
}

starts : reconcile parts 7 order (some launch) none ≡ (ok started, some receipt)
unfolding reconcile reconcile_desired Agent.validate Reconcile.ensure_enabled
    Reconcile.ensure_started Reconcile.start_process Reconcile.after_start
starts = refl

reconcile-started_example :
    (desired : LaunchSpec) × (some launch ≡ some desired)
    × (order.agent_id ≡ some 7)
    × (running ≡ running)
    × StartCommitted parts desired (some receipt)
reconcile-started_example = reconcile-started parts 7 order (some launch) none (some receipt) starts

reconcile_desired_inert_example :
    reconcile_desired parts (record agent { desired_state = disabled }) (some launch) (some receipt)
    ≡ reconcile_desired
        (record parts { start = λ l w. (err clock, w) })
        (record agent { desired_state = disabled })
        (some launch)
        (some receipt)
reconcile_desired_inert_example =
    reconcile_desired_inert parts (λ l w. (err clock, w))
      (record agent { desired_state = disabled }) (some launch) (some receipt) (ground arith)

launch_valid : validate_launch launch ≡ ok tt
unfolding validate_launch Checks.nonempty Checks.validate_executable Checks.absolute_path
    Checks.validate_resolved Checks.bounded_arguments Checks.spec_environment
    Validate.valid_environment_key Checks.secret_entries Checks.validate_secret
    Checks.validate_restart Checks.validate_health
launch_valid = refl

validate_identity-validate_launch_example : validate_identity (identity launch) ≡ ok tt
validate_identity-validate_launch_example = validate_identity-validate_launch launch launch_valid

can_adopt_iff_example : (can_adopt launch receipt ≡ true) ↔ (
    (receipt.launch_id ≡ launch.launch_id)
    × (receipt.agent_id ≡ launch.agent_id)
    × (receipt.process_group_id ≡ launch.process_group_id)
    × Made launch receipt
    × (1 ≤ 42)
    × (starting ≢ exited)
    × (starting ≢ lost))
can_adopt_iff_example = can_adopt_iff launch receipt

adopts : can_adopt launch receipt ≡ true
unfolding can_adopt same_identity identity is_terminal
adopts = refl

can_adopt_unique_example : launch ≡ launch
can_adopt_unique_example = can_adopt_unique launch launch receipt adopts adopts

receipt_valid : validate_receipt receipt ≡ ok tt
unfolding validate_receipt Process.validate_process validate_identity identity Checks.nonempty
    Checks.validate_executable Checks.absolute_path Checks.validate_resolved
    Checks.bounded_arguments Checks.identity_environment Validate.valid_environment_key
    Checks.secret_entries Checks.validate_secret Checks.validate_restart Checks.validate_health
receipt_valid = refl

seen_healthy : observe receipt healthy none ≡ ok (record receipt { observed_state = healthy })
unfolding observe
seen_healthy = refl

observe_keeps_example :
    (validate_receipt (record receipt { observed_state = healthy }) ≡ ok tt)
    × (record receipt { observed_state = healthy }
        ≡ record receipt { observed_state = healthy; exit_code = none })
    × (is_terminal starting ≡ true → healthy ≡ starting)
observe_keeps_example =
    observe_keeps receipt (record receipt { observed_state = healthy }) healthy none receipt_valid
      seen_healthy
