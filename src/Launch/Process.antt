-- ===== src/Launch/Process.antt =====
-- src/launch.rs: the states of a supervised process and the receipt that remembers it.
use buzz_server.Base.{
  ℕ, Bool, true, false, not, ◌&&◌, ◌||◌, Option, none, some, String, Result, ok, ◌>>◌, fail_if, ltb,
  ◌==◌, nat_eq, string_eq, option_eq, is_some, ◌≡◌, ◌↔◌,
}
use buzz_server.Base.Int.{ℤ}
use buzz_server.Agent.{AgentId}
use buzz_server.Text.{codes, is_empty}
use buzz_server.Text.Validate.{ValidationError, invalid}
use buzz_server.Launch.{LaunchIdentity, LaunchSpec, identity, identity_eq}
use buzz_server.Launch.Checks.{Check, nonempty, validate_identity}

pub data ObservedProcessState : Type 0 where
  starting healthy unhealthy stopping exited lost : ObservedProcessState

unfoldable pub is_terminal : ObservedProcessState → Bool
is_terminal exited = true
is_terminal lost = true
is_terminal _ = false

unfoldable pub can_transition_to : ObservedProcessState → ObservedProcessState → Bool
can_transition_to starting _ = true
can_transition_to healthy starting = false
can_transition_to healthy _ = true
can_transition_to unhealthy starting = false
can_transition_to unhealthy _ = true
can_transition_to stopping stopping = true
can_transition_to stopping exited = true
can_transition_to stopping lost = true
can_transition_to exited exited = true
can_transition_to lost lost = true
can_transition_to _ _ = false

pub data ParentWaitOutcome : Type 0 where
  wait_exited : (code : ℤ) → ParentWaitOutcome
  wait_signaled : (signal : ℤ) → ParentWaitOutcome

pub data AppServerLogsStatus : Type 0 where
  unset configured unwritable : AppServerLogsStatus

pub record LifecycleStamp : Type 0 where
  pub actor : String
  pub decision : String
  pub occurred_at_unix_ms : ℕ
  pub before : ObservedProcessState
  pub after : ObservedProcessState

pub record ProcessReceipt : Type 0 where
  pub launch_id : String
  pub generation : Option String
  pub agent_id : AgentId
  pub process_group_id : String
  pub desired : LaunchIdentity
  pub pid : ℕ
  pub started_at_unix_ms : ℕ
  pub process_start_ticks : Option ℕ
  pub command_path : Option String
  pub observed_state : ObservedProcessState
  pub exit_code : Option ℤ
  pub wait_outcome : Option ParentWaitOutcome
  pub ended_at_unix_ms : Option ℕ
  pub duration_ms : Option ℕ
  pub failure : Option String
  pub app_server_logs : AppServerLogsStatus
  pub lifecycle : Option LifecycleStamp

-- The checks of `ProcessReceipt::validate` that read neither the state nor the exit code.
unfoldable pub validate_process : ProcessReceipt → Check
unfolding is_empty invalid
validate_process r = do
  nonempty "launch_id" r.launch_id 160
  nonempty "process_group_id" r.process_group_id 160
  validate_identity r.desired
  fail_if (r.pid == 0) (invalid "pid" "must be non-zero")
  fail_if
      (r.process_start_ticks == some 0
        || elim r.command_path [ none ↦ false | some path ↦ is_empty (codes path) ])
      (invalid "process_identity" "contains an invalid live-process identity")

-- `ProcessReceipt::validate`
unfoldable pub validate_receipt : ProcessReceipt → Check
unfolding invalid
validate_receipt r = do
  validate_process r
  fail_if (is_some r.exit_code && not (is_terminal r.observed_state))
      (invalid "exit_code" "may only be present for a terminal process")

-- `ProcessReceipt::observe`: the receipt that a success leaves; an error leaves it as it was.
unfoldable pub observe :
    ProcessReceipt → ObservedProcessState → Option ℤ → Result ValidationError ProcessReceipt
unfolding invalid is_terminal can_transition_to
observe r state exit_code = do
  fail_if (not (can_transition_to r.observed_state state))
      (invalid "observed_state" "contains an invalid process lifecycle transition")
  fail_if (is_some exit_code && not (is_terminal state))
      (invalid "exit_code" "may only be present for a terminal process")
  ok (record r { observed_state = state; exit_code = exit_code })

-- The derived `==` of identities.
unfoldable pub same_identity : LaunchIdentity → LaunchIdentity → Bool
same_identity a b = a == b

pub same_identity_iff : (a b : LaunchIdentity) → (same_identity a b ≡ true) ↔ (a ≡ b)
unfolding same_identity
same_identity_iff a b = identity_eq.eqb_iff a b

unfoldable pub can_adopt : LaunchSpec → ProcessReceipt → Bool
can_adopt l r =
    r.launch_id == l.launch_id
    && r.agent_id == l.agent_id
    && r.process_group_id == l.process_group_id
    && same_identity r.desired (identity l)
    && ltb 0 r.pid
    && not (is_terminal r.observed_state)
