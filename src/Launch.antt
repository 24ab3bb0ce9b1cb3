-- ===== src/Launch.antt =====
-- src/launch.rs: what is launched, and the identity that a receipt of it keeps.
pub mod Checks
pub mod Process
pub mod Receipts
use buzz_server.Base.{
  ℕ, Bool, true, false, Option, none, some, String, List, Eq, ◌↔◌, ◌≡◌, refl, arith, nat_eq,
  string_eq, option_eq,
}
use buzz_server.Base.Compare.{pair_eq, list_eq, encoded}
use buzz_server.Agent.{AgentId}

pub data LocalProcessRole : Type 0 where
  acp_bridge agent_runtime : LocalProcessRole

pub record ExecutableIdentity : Type 0 where
  pub path : String
  pub package_id : String
  pub version : String
  pub sha256 : Option String

pub record SecretRef : Type 0 where
  pub key : String
  pub version : Option String

pub data RestartMode : Type 0 where
  never on_failure always : RestartMode

pub record RestartPolicy : Type 0 where
  pub mode : RestartMode
  pub max_attempts : ℕ
  pub initial_backoff_ms : ℕ
  pub max_backoff_ms : ℕ
  pub stable_after_ms : ℕ

pub data HealthPolicy : Type 0 where
  process : (startup_grace_ms : ℕ) → HealthPolicy
  tcp : String → (port startup_grace_ms interval_ms timeout_ms : ℕ) → HealthPolicy

-- src/runtime.rs
pub record PreflightProbe : Type 0 where
  pub timeout_seconds : ℕ
  pub command : String
  pub arguments : List String

pub record ResolvedRuntime : Type 0 where
  pub runtime_id : String
  pub executable : ExecutableIdentity
  pub arguments : List String
  pub preflight : Option PreflightProbe

-- A BTreeMap is the list of its entries in the order of their keys.
pub record LaunchIdentity : Type 0 where
  pub role : LocalProcessRole
  pub harness : ExecutableIdentity
  pub harness_arguments : List String
  pub runtime : ResolvedRuntime
  pub environment : List (String × String)
  pub secret_environment : List (String × SecretRef)
  pub working_directory : String
  pub workspace_path : String
  pub runtime_path : String
  pub restart : RestartPolicy
  pub health : HealthPolicy

pub record LaunchSpec : Type 0 where
  pub launch_id : String
  pub agent_id : AgentId
  pub role : LocalProcessRole
  pub harness : ExecutableIdentity
  pub harness_arguments : List String
  pub runtime : ResolvedRuntime
  pub environment : List (String × String)
  pub secret_environment : List (String × SecretRef)
  pub working_directory : String
  pub workspace_path : String
  pub runtime_path : String
  pub process_group_id : String
  pub restart : RestartPolicy
  pub health : HealthPolicy

unfoldable pub identity : LaunchSpec → LaunchIdentity
identity l = record {
  role = l.role;
  harness = l.harness;
  harness_arguments = l.harness_arguments;
  runtime = l.runtime;
  environment = l.environment;
  secret_environment = l.secret_environment;
  working_directory = l.working_directory;
  workspace_path = l.workspace_path;
  runtime_path = l.runtime_path;
  restart = l.restart;
  health = l.health;
}

-- The derived `==` of each of them.
abbrev role_beq : LocalProcessRole → LocalProcessRole → Bool
role_beq acp_bridge acp_bridge = true
role_beq agent_runtime agent_runtime = true
role_beq _ _ = false

pub role_beq_iff : (a b : LocalProcessRole) → (role_beq a b ≡ true) ↔ (a ≡ b)
role_beq_iff a b = ground arith

instance abbrev pub role_eq : Eq LocalProcessRole
role_eq = record { eqb = role_beq; eqb_iff = role_beq_iff }

abbrev mode_beq : RestartMode → RestartMode → Bool
mode_beq never never = true
mode_beq on_failure on_failure = true
mode_beq always always = true
mode_beq _ _ = false

pub mode_beq_iff : (a b : RestartMode) → (mode_beq a b ≡ true) ↔ (a ≡ b)
mode_beq_iff a b = ground arith

instance abbrev pub mode_eq : Eq RestartMode
mode_eq = record { eqb = mode_beq; eqb_iff = mode_beq_iff }

instance abbrev pub executable_eq : Eq ExecutableIdentity
executable_eq =
    encoded (λ e. (e.path, (e.package_id, (e.version, e.sha256))))
      (λ (p, (i, (v, s))). record { path = p; package_id = i; version = v; sha256 = s }) (λ e. refl)

instance abbrev pub secret_eq : Eq SecretRef
secret_eq =
    encoded (λ s. (s.key, s.version)) (λ (k, v). record { key = k; version = v }) (λ s. refl)

instance abbrev pub restart_eq : Eq RestartPolicy
restart_eq =
    encoded
      (λ r.
        (r.mode, (r.max_attempts, (r.initial_backoff_ms, (r.max_backoff_ms, r.stable_after_ms)))))
      (λ (m, (a, (i, (b, s)))). record {
        mode = m;
        max_attempts = a;
        initial_backoff_ms = i;
        max_backoff_ms = b;
        stable_after_ms = s;
      })
      (λ r. refl)

abbrev health_code : HealthPolicy → ℕ × Option (String × (ℕ × (ℕ × ℕ)))
health_code (process grace) = (grace, none)
health_code (tcp host port grace interval timeout) =
    (grace, some (host, (port, (interval, timeout))))

abbrev health_decode : ℕ × Option (String × (ℕ × (ℕ × ℕ))) → HealthPolicy
health_decode (grace, none) = process grace
health_decode (grace, some (host, (port, (interval, timeout)))) =
    tcp host port grace interval timeout

pub health_undo : (h : HealthPolicy) → health_decode (health_code h) ≡ h
health_undo (process grace) = refl
health_undo (tcp host port grace interval timeout) = refl

instance abbrev pub health_eq : Eq HealthPolicy
health_eq = encoded health_code health_decode health_undo

instance abbrev pub preflight_eq : Eq PreflightProbe
preflight_eq =
    encoded (λ p. (p.timeout_seconds, (p.command, p.arguments)))
      (λ (t, (c, a)). record { timeout_seconds = t; command = c; arguments = a }) (λ p. refl)

instance abbrev pub runtime_eq : Eq ResolvedRuntime
runtime_eq =
    encoded (λ r. (r.runtime_id, (r.executable, (r.arguments, r.preflight))))
      (λ (i, (e, (a, p))). record { runtime_id = i; executable = e; arguments = a; preflight = p })
      (λ r. refl)

instance abbrev pub identity_eq : Eq LaunchIdentity
identity_eq =
    encoded
      (λ l. (
        l.role,
        (
          l.harness,
          (
            l.harness_arguments,
            (
              l.runtime,
              (
                l.environment,
                (
                  l.secret_environment,
                  (
                    l.working_directory,
                    (l.workspace_path, (l.runtime_path, (l.restart, l.health))),
                  ),
                ),
              ),
            ),
          ),
        ),
      ))
      (λ (o, (h, (a, (r, (e, (s, (w, (p, (t, (b, c)))))))))). record {
        role = o;
        harness = h;
        harness_arguments = a;
        runtime = r;
        environment = e;
        secret_environment = s;
        working_directory = w;
        workspace_path = p;
        runtime_path = t;
        restart = b;
        health = c;
      })
      (λ l. refl)
