-- ===== src/Reconcile.antt =====
-- src/reconcile.rs: durable intent of agents against local processes.
pub mod Outcomes
use buzz_server.Base.{
  Bool, true, false, not, Option, none, some, String, Result, ok, err, ◌==◌, nat_eq, option_eq,
  if◌then◌else◌,
}
use buzz_server.Base.Action.{Action, ◌>>=◌, ◌>>◌, pure, fail, lift, raise}
use buzz_server.Operation.{pending, running}
use buzz_server.Operation
use buzz_server.Text.Validate.{ValidationError}
use buzz_server.Agent
use buzz_server.Agent.{AgentId, AgentSpec, enabled, disabled, deleted}
use buzz_server.Storage.Schema.{Detail, StorageError, invalid_data, not_found, DurableOperation}
use buzz_server.Launch.{LaunchSpec}
use buzz_server.Launch.Process.{ProcessReceipt, can_adopt}
use buzz_server.Launch.Process

-- src/supervisor.rs; an I/O error keeps what the operating system reports.
pub data SupervisorError : Type 0 where
  invalid_spec : ValidationError → SupervisorError
  secret_resolution : SupervisorError
  preflight : String → SupervisorError
  receipt_mismatch : SupervisorError
  io : String → SupervisorError
  lock_poisoned clock : SupervisorError

pub data ReconcileOutcome : Type 0 where
  deferred unchanged adopted started stopped failed_preflight no_presence : ReconcileOutcome

pub data ReconcileError : Type 0 where
  storage : StorageError → ReconcileError
  supervisor : SupervisorError → ReconcileError
  operation_agent_mismatch missing_launch launch_agent_mismatch : ReconcileError

-- What the reconciler is given: `AgentRepository::get_agent`, a `ProcessReceiptRepository` and a
-- `ProcessSupervisor` with its secrets, over one world.
pub record Parts (W : Type 0) : Type 0 where
  pub get_agent : AgentId → Action W StorageError (Option AgentSpec)
  pub get_receipt : AgentId → Action W StorageError (Option ProcessReceipt)
  pub put_receipt : ProcessReceipt → Action W StorageError (Unit {0})
  pub delete_receipt : AgentId → Action W StorageError (Unit {0})
  pub start : LaunchSpec → Action W SupervisorError ProcessReceipt
  pub inspect : ProcessReceipt → Action W SupervisorError ProcessReceipt
  pub stop : ProcessReceipt → Action W SupervisorError ProcessReceipt

abbrev pub Reconciliation : Type 0 → Type 0
Reconciliation W = Action W ReconcileError ReconcileOutcome

module _ {W : Type 0} (parts : Parts W) where
  -- The end of `ensure_started`, by what the supervisor's start has answered.
  unfoldable pub after_start : Result SupervisorError ProcessReceipt → Reconciliation W
  after_start (ok receipt) = do raise storage (parts.put_receipt receipt); pure started
  after_start (err (preflight reason)) = pure failed_preflight
  after_start (err secret_resolution) = pure no_presence
  after_start (err (invalid_spec e)) = pure no_presence
  after_start (err e) = fail (supervisor e)

  unfoldable pub start_process : LaunchSpec → Reconciliation W
  start_process desired w = let (answer, w') = parts.start desired w in after_start answer w'

  -- A live process of another launch is stopped first.
  unfoldable pub replace_process : LaunchSpec → ProcessReceipt → Reconciliation W
  replace_process desired observed =
      if Process.is_terminal observed.observed_state then start_process desired else (do
        stopped_receipt ← raise supervisor (parts.stop observed)
        raise storage (parts.put_receipt stopped_receipt)
        start_process desired)

  unfoldable pub ensure_started : LaunchSpec → Option ProcessReceipt → Reconciliation W
  ensure_started desired none = start_process desired
  ensure_started desired (some durable) = do
    observed ← raise supervisor (parts.inspect durable)
    raise storage (parts.put_receipt observed)
    if can_adopt desired observed then pure adopted else replace_process desired observed

  unfoldable pub ensure_stopped : AgentId → Option ProcessReceipt → Reconciliation W
  ensure_stopped agent none = pure unchanged
  ensure_stopped agent (some durable) = do
    observed ← raise supervisor (parts.inspect durable)
    if Process.is_terminal observed.observed_state
        then (do raise storage (parts.delete_receipt agent); pure unchanged)
        else (do
          stopped_receipt ← raise supervisor (parts.stop observed)
          raise storage (parts.put_receipt stopped_receipt)
          raise storage (parts.delete_receipt agent)
          pure stopped)

  -- The enabled case of `reconcile_desired`.
  unfoldable pub ensure_enabled :
      AgentSpec → Option LaunchSpec → Option ProcessReceipt → Reconciliation W
  ensure_enabled agent none receipt = fail missing_launch
  ensure_enabled agent (some desired) receipt =
      if desired.agent_id == agent.id
      then ensure_started desired receipt
      else fail launch_agent_mismatch

  unfoldable pub reconcile_desired : AgentSpec → Option LaunchSpec → Reconciliation W
  reconcile_desired agent launch = do
    lift (λ e. storage (invalid_data (Detail.validation e))) (Agent.validate agent)
    receipt ← raise storage (parts.get_receipt agent.id)
    elim agent.desired_state [
      | disabled ↦ ensure_stopped agent.id receipt
      | deleted ↦ ensure_stopped agent.id receipt
      | enabled ↦ ensure_enabled agent launch receipt
    ]

  unfoldable pub reconcile : AgentId → DurableOperation → Option LaunchSpec → Reconciliation W
  reconcile agent_id operation launch =
      if operation.agent_id == some agent_id
      then elim operation.status [
        | pending ↦ pure deferred
        | running ↦ (do
          found ← raise storage (parts.get_agent agent_id)
          elim found [
            | none ↦ fail (storage not_found)
            | some agent ↦ reconcile_desired agent launch
          ])
        | _ ↦ pure unchanged
      ]
      else fail operation_agent_mismatch
