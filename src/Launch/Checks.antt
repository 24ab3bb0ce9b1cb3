-- ===== src/Launch/Checks.antt =====
-- src/launch.rs: the validation of a launch and of the identity that its receipt keeps.
use buzz_server.Base.{
  ℕ, ◌+◌, Bool, false, not, ◌&&◌, ◌||◌, none, some, String, List, [], ◌∷◌, ◌++◌, Result, ok, ◌>>◌,
  fail_if, ltb, leb, ◌==◌, nat_eq, string_eq, any, all, length,
}
use buzz_server.Text.{
  codes, trim, is_empty, utf8_len, contains_char, is_whitespace, is_digit, starts_with,
}
use buzz_server.Text.Validate.{ValidationError, one_to, invalid, valid_environment_key}
use buzz_server.Launch.{
  acp_bridge, role_eq, ExecutableIdentity, SecretRef, never, mode_eq, RestartPolicy, HealthPolicy,
  process, tcp, PreflightProbe, ResolvedRuntime, LaunchIdentity, LaunchSpec,
}

abbrev pub Check : Type 0
Check = Result ValidationError (Unit {0})

unfoldable pub nonempty : String → String → ℕ → Check
unfolding trim is_empty utf8_len contains_char
nonempty field value max =
    fail_if
      (is_empty (trim (codes value))
        || ltb max (utf8_len (codes value))
        || contains_char 0 (codes value))
      (record { field = field; message = one_to max })

-- `Path::is_absolute` on Unix: the path starts with a slash.
unfoldable pub absolute_path : String → String → Check
unfolding contains_char starts_with invalid
absolute_path field value =
    fail_if (contains_char 0 (codes value) || not (starts_with (codes "/") (codes value)))
      (invalid field "must be an absolute NUL-free path")

abbrev pub max_arguments : ℕ
max_arguments = 256

-- At most 256 values, none with a NUL byte.
unfoldable pub bounded_arguments : String → List String → Check
unfolding any contains_char invalid
bounded_arguments field arguments =
    fail_if (ltb max_arguments (length arguments) || any (λ a. contains_char 0 (codes a)) arguments)
      (invalid field "must contain at most 256 NUL-free values")

-- A sha256 digest in lowercase hexadecimal; `len` counts bytes.
unfoldable pub valid_digest : String → Bool
unfolding utf8_len is_digit all
valid_digest digest =
    utf8_len (codes digest) == 64
    && all (λ b. is_digit b || (leb b'a' b && leb b b'f')) (codes digest)

unfoldable pub validate_executable : ExecutableIdentity → Check
unfolding any contains_char invalid
validate_executable e = do
  absolute_path "executable.path" e.path
  nonempty "executable.package_id" e.package_id 160
  nonempty "executable.version" e.version 160
  fail_if
      (e.version == "latest"
        || e.version == "stable"
        || e.version == "current"
        || any (λ c. c == b'*' || c == b'^' || c == b'~') (codes e.version))
      (invalid "executable.version" "must be an immutable exact version")
  fail_if (elim e.sha256 [ none ↦ false | some digest ↦ not (valid_digest digest) ])
      (invalid "executable.sha256" "must be 64 lowercase hexadecimal characters")

unfoldable pub validate_preflight : PreflightProbe → Check
unfolding invalid
validate_preflight p = do
  absolute_path "runtime.preflight.command" p.command
  fail_if (p.timeout_seconds == 0 || ltb 300 p.timeout_seconds)
      (invalid "runtime.preflight.timeout_seconds" "must be between 1 and 300 seconds")
  bounded_arguments "runtime.preflight.arguments" p.arguments

unfoldable pub validate_resolved : ResolvedRuntime → Check
validate_resolved r = do
  validate_executable r.executable
  bounded_arguments "runtime.arguments" r.arguments
  elim r.preflight [ none ↦ ok tt | some p ↦ validate_preflight p ]

unfoldable pub validate_secret : SecretRef → Check
unfolding any is_whitespace contains_char is_empty utf8_len invalid
validate_secret s = do
  nonempty "secret_environment.key" s.key 256
  fail_if (any is_whitespace (codes s.key) || contains_char 0 (codes s.key))
      (invalid "secret_environment.key" "must not contain whitespace or NUL bytes")
  fail_if
      (elim s.version [
        | none ↦ false
        | some v ↦ is_empty (codes v) || ltb 160 (utf8_len (codes v))
      ])
      (invalid "secret_environment.version" "must contain 1 to 160 characters when present")

unfoldable pub validate_restart : RestartPolicy → Check
unfolding invalid
validate_restart r = do
  fail_if (ltb r.max_backoff_ms r.initial_backoff_ms)
      (invalid "restart.max_backoff_ms" "must be greater than or equal to initial_backoff_ms")
  fail_if (r.mode == never && not (r.max_attempts == 0))
      (invalid "restart.max_attempts" "must be zero when restart mode is never")

unfoldable pub validate_health : HealthPolicy → Check
unfolding invalid
validate_health (process grace) = ok tt
validate_health (tcp host port grace interval timeout) = do
  fail_if (not (host == "127.0.0.1") && not (host == "::1") && not (host == "localhost"))
      (invalid "health.host" "local process health checks must use a loopback host")
  fail_if (port == 0 || interval == 0 || timeout == 0 || ltb interval timeout) (
      invalid "health"
        "TCP port and intervals must be non-zero and timeout must not exceed interval")

abbrev pub contains_key {ℓ} : {A : Type ℓ} → String → List (String × A) → Bool
contains_key key = any (λ (k, v). k == key)

-- The loop of `LaunchSpec::validate` over the environment, and that of `LaunchIdentity::validate`.
unfoldable pub spec_environment : List (String × SecretRef) → List (String × String) → Check
unfolding any contains_char invalid
spec_environment secrets [] = ok tt
spec_environment secrets ((key, value) ∷ rest) = do
  fail_if (not (valid_environment_key key) || contains_char 0 (codes value))
      (invalid "environment" "contains an invalid name or NUL byte")
  fail_if (contains_key key secrets)
      (invalid "secret_environment" "must not shadow a non-secret environment entry")
  spec_environment secrets rest

unfoldable pub identity_environment : List (String × SecretRef) → List (String × String) → Check
unfolding any contains_char invalid
identity_environment secrets [] = ok tt
identity_environment secrets ((key, value) ∷ rest) = do
  fail_if
      (not (valid_environment_key key) || contains_char 0 (codes value) || contains_key key secrets)
      (invalid "environment" "contains an invalid or shadowed value")
  identity_environment secrets rest

unfoldable pub secret_entries : List (String × SecretRef) → Check
unfolding invalid
secret_entries [] = ok tt
secret_entries ((key, secret) ∷ rest) = do
  fail_if (not (valid_environment_key key))
      (invalid "secret_environment" "contains an invalid environment variable name")
  validate_secret secret
  secret_entries rest

unfoldable pub validate_identity : LaunchIdentity → Check
unfolding invalid
validate_identity l = do
  fail_if (not (l.role == acp_bridge))
      (invalid "role" "launch identity must describe a supervised ACP bridge")
  validate_executable l.harness
  validate_resolved l.runtime
  bounded_arguments "arguments" (l.harness_arguments ++ l.runtime.arguments)
  absolute_path "working_directory" l.working_directory
  absolute_path "workspace_path" l.workspace_path
  absolute_path "runtime_path" l.runtime_path
  identity_environment l.secret_environment l.environment
  secret_entries l.secret_environment
  validate_restart l.restart
  validate_health l.health

-- `LaunchSpec::validate`; its last step is the check of `harness_runtime_environment`.
unfoldable pub validate_launch : LaunchSpec → Check
unfolding invalid any contains_char
validate_launch l = do
  nonempty "launch_id" l.launch_id 160
  nonempty "process_group_id" l.process_group_id 160
  fail_if (not (l.role == acp_bridge))
      (invalid "role" "Local LaunchSpec must directly supervise the ACP bridge")
  validate_executable l.harness
  validate_resolved l.runtime
  absolute_path "working_directory" l.working_directory
  absolute_path "workspace_path" l.workspace_path
  absolute_path "runtime_path" l.runtime_path
  bounded_arguments "arguments" (l.harness_arguments ++ l.runtime.arguments)
  fail_if (ltb 256 (length l.environment + length l.secret_environment))
      (invalid "environment" "must contain at most 256 entries")
  spec_environment l.secret_environment l.environment
  secret_entries l.secret_environment
  validate_restart l.restart
  validate_health l.health
  fail_if (any (λ a. contains_char b',' (codes a)) l.runtime.arguments) (
      invalid "runtime.arguments"
        "Buzz ACP comma-separated agent arguments must not contain commas")
