-- ===== src/Api/Requests.antt =====
-- src/api.rs: the checks of requests.
use buzz_server.Base.{
  ℕ, Bool, not, ◌&&◌, Option, none, some, String, Result, ok, ◌>>◌, fail_if, ltb, length, is_some,
}
use buzz_server.Text.{codes, trim, is_empty}
use buzz_server.Text.Validate.{ValidationError, at_most, invalid}
use buzz_server.Agent.Files.{too_long, is_absolute}
use buzz_server.Storage.Schema.{CreateAgentInput, UpdateAgentInput}
use buzz_server.Api.{CommandMetadata, UpdatePersonaInput}

-- The limit counts the characters as they are, those that a trim takes away too.
unfoldable pub validate_token : String → String → ℕ → Result ValidationError (Unit {0})
unfolding trim is_empty invalid
validate_token field value max_chars = do
  fail_if (is_empty (trim (codes value))) (invalid field "must not be empty")
  fail_if (ltb max_chars (length (codes value)))
      (record { field = field; message = at_most max_chars })

-- `CommandMetadata::validate`
unfoldable pub validate_metadata : CommandMetadata → Result ValidationError (Unit {0})
unfolding validate_token
validate_metadata m = do
  validate_token "idempotency_key" m.idempotency_key 200
  validate_token "correlation_id" m.correlation_id 200

unfoldable pub check_prompt : String → Result ValidationError (Unit {0})
unfolding too_long invalid
check_prompt prompt =
    fail_if (too_long prompt) (invalid "system_prompt" "must be at most 65536 NUL-free characters")

unfoldable pub check_prompt_file : Option String → Result ValidationError (Unit {0})
unfolding validate_token is_absolute invalid
check_prompt_file none = ok tt
check_prompt_file (some path) = do
  validate_token "system_prompt_file" path 4096
  fail_if (not (is_absolute path)) (invalid "system_prompt_file" "must be an absolute path")

-- `CreateAgentInput::validate`
unfoldable pub validate_create : CreateAgentInput → Result ValidationError (Unit {0})
unfolding validate_token check_prompt check_prompt_file invalid
validate_create input = do
  validate_token "display_name" input.display_name 120
  elim input.system_prompt [
    | none ↦ ok tt
    | some prompt ↦ do
      elim input.system_prompt_file [
        | none ↦ validate_token "system_prompt" prompt 65536
        | some _ ↦ ok tt
      ]
      check_prompt prompt
  ]
  check_prompt_file input.system_prompt_file
  fail_if (is_some input.persona_id && is_some input.system_prompt)
      (invalid "system_prompt" "is defined by the selected persona; omit --system-prompt")
  fail_if (is_some input.persona_id && is_some input.system_prompt_file)
      (invalid "system_prompt_file" "is defined by the selected persona; omit --system-prompt-file")
  fail_if (not (is_some input.persona_id) && not (is_some input.runtime_id))
      (invalid "runtime_id" "is required when no persona is selected")

-- `UpdateAgentInput::validate`
unfoldable pub validate_update : UpdateAgentInput → Result ValidationError (Unit {0})
unfolding validate_token check_prompt check_prompt_file
validate_update changes = do
  elim changes.display_name [ none ↦ ok tt | some value ↦ validate_token "display_name" value 120 ]
  elim changes.system_prompt [ none ↦ ok tt | some value ↦ check_prompt value ]
  check_prompt_file changes.system_prompt_file

-- `== UpdateAgentInput::default()`: no field is given.
unfoldable pub no_changes : UpdateAgentInput → Bool
no_changes c =
    not (is_some c.display_name)
    && not (is_some c.system_prompt)
    && not (is_some c.system_prompt_file)
    && not (is_some c.runtime_id)
    && not (is_some c.filesystem_user)

-- `== UpdatePersonaInput::default()`
unfoldable pub no_persona_changes : UpdatePersonaInput → Bool
no_persona_changes c =
    not (is_some c.display_name) && not (is_some c.system_prompt) && not (is_some c.runtime)
