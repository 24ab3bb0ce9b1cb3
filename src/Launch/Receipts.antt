-- ===== src/Launch/Receipts.antt =====
-- What holds of launches and of the receipts of their processes (src/launch.rs).
use buzz_server.Base.{
  ap, subst, sym, ◌≢◌, true, false, not, ◌&&◌, Option, String, List, [], ◌∷◌, ok, ◌≡◌, ◌↔◌, refl,
  arith, ◌≤◌, is_some, string_eq, nat_eq,
}
use buzz_server.Base.Int.{ℤ}
use buzz_server.Launch.{LaunchSpec, SecretRef, identity, identity_eq}
use buzz_server.Launch.Checks.{
  validate_launch, validate_identity, spec_environment, identity_environment,
}
use buzz_server.Launch.Process.{
  ObservedProcessState, exited, lost, is_terminal, can_transition_to, ProcessReceipt,
  validate_process, validate_receipt, observe, same_identity_iff, can_adopt,
}

spec_environment-identity_environment :
    (secrets : List (String × SecretRef)) (environment : List (String × String))
    → spec_environment secrets environment ≡ ok tt
    → identity_environment secrets environment ≡ ok tt
unfolding spec_environment identity_environment
spec_environment-identity_environment secrets [] h = refl
spec_environment-identity_environment secrets ((k, v) ∷ rest) h =
    ground (arith, spec_environment-identity_environment secrets rest)

-- The identity that the receipt of a valid launch keeps is valid itself.
pub validate_identity-validate_launch :
    (l : LaunchSpec) → validate_launch l ≡ ok tt → validate_identity (identity l) ≡ ok tt
unfolding validate_launch validate_identity identity
validate_identity-validate_launch l h =
    let same = spec_environment-identity_environment l.secret_environment l.environment in
    ground arith

-- A receipt was made for a launch of this program: the identity that it keeps has each field that
-- the launch starts its process with.
pub record Made (l : LaunchSpec) (r : ProcessReceipt) : Type 0 where
  pub role : r.desired.role ≡ l.role
  pub harness : r.desired.harness ≡ l.harness
  pub harness_arguments : r.desired.harness_arguments ≡ l.harness_arguments
  pub runtime : r.desired.runtime ≡ l.runtime
  pub environment : r.desired.environment ≡ l.environment
  pub secret_environment : r.desired.secret_environment ≡ l.secret_environment
  pub working_directory : r.desired.working_directory ≡ l.working_directory
  pub workspace_path : r.desired.workspace_path ≡ l.workspace_path
  pub runtime_path : r.desired.runtime_path ≡ l.runtime_path
  pub restart : r.desired.restart ≡ l.restart
  pub health : r.desired.health ≡ l.health

Made-identity : (l : LaunchSpec) (r : ProcessReceipt) → (r.desired ≡ identity l) ↔ Made l r
unfolding identity
Made-identity l r = (
  λ e. record {
    role = ap (λ x. x.role) e;
    harness = ap (λ x. x.harness) e;
    harness_arguments = ap (λ x. x.harness_arguments) e;
    runtime = ap (λ x. x.runtime) e;
    environment = ap (λ x. x.environment) e;
    secret_environment = ap (λ x. x.secret_environment) e;
    working_directory = ap (λ x. x.working_directory) e;
    workspace_path = ap (λ x. x.workspace_path) e;
    runtime_path = ap (λ x. x.runtime_path) e;
    restart = ap (λ x. x.restart) e;
    health = ap (λ x. x.health) e;
  },
  λ m. ground (
    arith, m.role, m.harness, m.harness_arguments, m.runtime, m.environment, m.secret_environment,
    m.working_directory, m.workspace_path, m.runtime_path, m.restart, m.health,
  ),
)

-- A receipt is adopted exactly when it names this launch, agent and group, was made for the same
-- program, arguments, environment, secrets, paths and policies, and has a process id and a process
-- that has neither exited nor been lost.
pub can_adopt_iff :
    (l : LaunchSpec) (r : ProcessReceipt)
    → (can_adopt l r ≡ true) ↔ (
        (r.launch_id ≡ l.launch_id)
        × (r.agent_id ≡ l.agent_id)
        × (r.process_group_id ≡ l.process_group_id)
        × Made l r
        × (1 ≤ r.pid)
        × (r.observed_state ≢ exited)
        × (r.observed_state ≢ lost))
unfolding can_adopt is_terminal
can_adopt_iff l r =
    let launch = string_eq.eqb_iff r.launch_id l.launch_id in
    let group = string_eq.eqb_iff r.process_group_id l.process_group_id in
    let same = same_identity_iff r.desired (identity l) in
    let made = Made-identity l r in ground arith

-- A receipt is adopted for one launch at most: a launch that differs in any field is refused.
pub can_adopt_unique :
    (l other : LaunchSpec) (r : ProcessReceipt)
    → can_adopt l r ≡ true
    → can_adopt other r ≡ true
    → l ≡ other
can_adopt_unique l other r h k =
    let (launch, agent, group, made, pid, alive, kept) = (can_adopt_iff l r).0 h in
    let (launch', agent', group', made', pid', alive', kept') = (can_adopt_iff other r).0 k in
    ground (
      arith, made.role, made.harness, made.harness_arguments, made.runtime, made.environment,
      made.secret_environment, made.working_directory, made.workspace_path, made.runtime_path,
      made.restart, made.health, made'.role, made'.harness, made'.harness_arguments, made'.runtime,
      made'.environment, made'.secret_environment, made'.working_directory, made'.workspace_path,
      made'.runtime_path, made'.restart, made'.health,
    )

validate_receipt-observed :
    (r : ProcessReceipt) (state : ObservedProcessState) (exit_code : Option ℤ)
    → validate_receipt r ≡ ok tt
    → (is_some exit_code && not (is_terminal state)) ≡ false
    → validate_receipt (record r { observed_state = state; exit_code = exit_code }) ≡ ok tt
unfolding validate_receipt
validate_receipt-observed r state exit_code h e =
    let next : ProcessReceipt = record r { observed_state = state; exit_code = exit_code } in
    let same : validate_process next ≡ validate_process r = unfold validate_process in refl in
    ground arith

-- An accepted observation keeps a valid receipt valid, keeps all but its state and exit code, and
-- never leaves a terminal state for another one.
pub observe_keeps :
    (r r' : ProcessReceipt) (state : ObservedProcessState) (exit_code : Option ℤ)
    → validate_receipt r ≡ ok tt
    → observe r state exit_code ≡ ok r'
    → (validate_receipt r' ≡ ok tt)
      × (r' ≡ record r { observed_state = state; exit_code = exit_code })
      × (is_terminal r.observed_state ≡ true → r'.observed_state ≡ r.observed_state)
unfolding observe
observe_keeps r r' state exit_code h e =
    let changed : r' ≡ record r { observed_state = state; exit_code = exit_code } = ground arith in
    (
      subst (λ x. validate_receipt x ≡ ok tt) (sym changed)
          (validate_receipt-observed r state exit_code h (ground arith)),
      changed,
      λ t. unfold can_transition_to in ground arith,
    )
