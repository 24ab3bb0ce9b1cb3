-- ===== src/Agent/Files.antt =====
-- src/agent.rs: persona definitions and the configuration files of agents, with their checks.
use buzz_server.Base.{
  ℕ, Bool, true, false, not, ◌&&◌, ◌||◌, List, [], ◌∷◌, Option, none, some, String, Result, ok,
  ◌>>◌, fail_if, ltb, leb, ◌==◌, nat_eq, all, any, length, is_some,
}
use buzz_server.Text.{
  codes, contains_char, is_empty, utf8_len, is_ascii_alphanumeric, is_ascii_hexdigit,
}
use buzz_server.Text.Validate.{ValidationError, invalid, validate_nonempty, valid_environment_key}
use buzz_server.Agent.{AgentId, AgentSpec, key_of}

pub data RespondToMode : Type 0 where
  owner_only allowlist anyone : RespondToMode

pub data AutoJoinOpenChannels : Type 0 where
  disabled all_channels new_channels : AutoJoinOpenChannels

pub record PersonaDefinition : Type 0 where
  pub id : String
  pub display_name : String
  pub avatar_url : Option String
  pub system_prompt : String
  pub runtime : Option String
  pub model : Option String
  pub provider : Option String
  pub name_pool : List String
  pub environment : List (String × String)
  pub respond_to : Option RespondToMode
  pub respond_to_allowlist : List String
  pub parallelism : Option ℕ
  pub is_builtin : Bool
  pub is_active : Bool
  pub shared : Bool

pub record FilesystemConfig : Type 0 where
  pub user : Option String

pub record AgentConfigFile : Type 0 where
  pub id : AgentId
  pub display_name : String
  pub persona_id : Option String
  pub avatar_url : Option String
  pub system_prompt : Option String
  pub system_prompt_file : Option String
  pub runtime : Option String
  pub model : Option String
  pub provider : Option String
  pub environment : List (String × String)
  pub filesystem : FilesystemConfig
  pub auto_join_open_channels : AutoJoinOpenChannels
  pub agent_args : List String
  pub parallelism : ℕ
  pub respond_to : RespondToMode
  pub respond_to_allowlist : List String
  pub idle_timeout_seconds : Option ℕ
  pub max_turn_duration_seconds : Option ℕ

pub record ResolvedAgentConfig : Type 0 where
  pub spec : AgentSpec
  pub persona_id : Option String
  pub avatar_url : Option String
  pub model : Option String
  pub provider : Option String
  pub filesystem : FilesystemConfig
  pub agent_args : List String
  pub parallelism : ℕ
  pub respond_to : RespondToMode
  -- The code points of each key.
  pub respond_to_allowlist : List (List ℕ)
  pub idle_timeout_seconds : Option ℕ
  pub max_turn_duration_seconds : Option ℕ

-- `Path::is_absolute` on Unix.
unfoldable pub is_absolute : String → Bool
is_absolute path = elim (codes path) [ [] ↦ false | c ∷ _ ↦ c == b'/' ]

unfoldable pub validate_identifier : String → String → Result ValidationError (Unit {0})
unfolding validate_nonempty invalid all is_ascii_alphanumeric
validate_identifier field value = do
  validate_nonempty field value 120
  fail_if (not (all (λ c. is_ascii_alphanumeric c || c == b'-' || c == b'_') (codes value)))
      (invalid field "must contain only letters, numbers, '-' or '_'")

unfoldable pub validate_environment : List (String × String) → Result ValidationError (Unit {0})
unfolding any valid_environment_key invalid
validate_environment environment =
    fail_if (any (λ e. not (valid_environment_key (key_of e))) environment)
      (invalid "environment" "contains an invalid environment variable name")

unfoldable pub validate_agent_args : List String → Result ValidationError (Unit {0})
unfolding any contains_char is_empty invalid
validate_agent_args args =
    fail_if
      (ltb 256 (length args)
        || any
            (λ arg.
              is_empty (codes arg) || contains_char 0 (codes arg) || contains_char b',' (codes arg))
            args)
      (invalid "agent_args" "must contain at most 256 non-empty, comma-free, NUL-free arguments")

abbrev pub out_of_range : Option ℕ → Bool
out_of_range none = false
out_of_range (some value) = not (leb 1 value && leb value 32)

abbrev pub is_allowlist : Option RespondToMode → Bool
is_allowlist (some allowlist) = true
is_allowlist _ = false

abbrev pub no_entries : List String → Bool
no_entries [] = true
no_entries (_ ∷ _) = false

unfoldable pub validate_behavior :
    Option ℕ → Option RespondToMode → List String → Result ValidationError (Unit {0})
unfolding any all utf8_len is_ascii_hexdigit invalid
validate_behavior parallelism respond_to entries = do
  fail_if (out_of_range parallelism) (invalid "parallelism" "must be between 1 and 32")
  fail_if (is_allowlist respond_to && no_entries entries)
      (invalid "respond_to_allowlist" "must contain at least one pubkey in allowlist mode")
  fail_if
      (any (λ key. not (utf8_len (codes key) == 64) || not (all is_ascii_hexdigit (codes key)))
        entries)
      (invalid "respond_to_allowlist" "entries must be 64-character hex pubkeys")

-- `value.chars().count() > 65_536 || value.contains('\0')`
unfoldable pub too_long : String → Bool
unfolding contains_char
too_long prompt = ltb 65536 (length (codes prompt)) || contains_char 0 (codes prompt)

-- `PersonaDefinition::validate`
unfoldable pub validate_persona : PersonaDefinition → Result ValidationError (Unit {0})
unfolding validate_identifier validate_nonempty too_long validate_environment validate_behavior
    invalid
validate_persona p = do
  validate_identifier "persona.id" p.id
  validate_nonempty "persona.display_name" p.display_name 120
  fail_if (too_long p.system_prompt)
      (invalid "persona.system_prompt" "must be at most 65536 NUL-free characters")
  validate_environment p.environment
  validate_behavior p.parallelism p.respond_to p.respond_to_allowlist

unfoldable pub bad_user : List ℕ → Bool
unfolding is_empty utf8_len all is_ascii_alphanumeric
bad_user [] = true
bad_user (c ∷ cs) =
    ltb 32 (utf8_len (c ∷ cs))
    || c == b'-'
    || not (all (λ d. is_ascii_alphanumeric d || d == b'_' || d == b'-') (c ∷ cs))

-- `FilesystemConfig::validate`
unfoldable pub validate_filesystem : FilesystemConfig → Result ValidationError (Unit {0})
unfolding bad_user invalid
validate_filesystem f = elim f.user [
  | none ↦ ok tt
  | some user ↦
      fail_if (bad_user (codes user))
        (invalid "filesystem.user" "must be a 1-32 character Unix account name")
]

-- The block on an inline prompt, which a prompt file may stand in for.
unfoldable pub validate_prompt : Option String → Bool → Result ValidationError (Unit {0})
unfolding validate_nonempty too_long invalid
validate_prompt none from_file = ok tt
validate_prompt (some prompt) true =
    fail_if (too_long prompt) (invalid "system_prompt" "must be at most 65536 NUL-free characters")
validate_prompt (some prompt) false = do
  validate_nonempty "system_prompt" prompt 65536
  fail_if (too_long prompt) (invalid "system_prompt" "must be at most 65536 NUL-free characters")

unfoldable pub validate_prompt_file : Option String → Result ValidationError (Unit {0})
unfolding validate_nonempty is_absolute invalid
validate_prompt_file none = ok tt
validate_prompt_file (some path) = do
  validate_nonempty "system_prompt_file" path 4096
  fail_if (not (is_absolute path)) (invalid "system_prompt_file" "must be an absolute path")

-- `AgentConfigFile::validate`
unfoldable pub validate_file : AgentConfigFile → Result ValidationError (Unit {0})
unfolding validate_nonempty validate_identifier validate_prompt validate_prompt_file
    validate_environment validate_filesystem validate_agent_args validate_behavior invalid
validate_file f = do
  validate_nonempty "display_name" f.display_name 120
  elim f.persona_id [ none ↦ ok tt | some persona_id ↦ validate_identifier "persona_id" persona_id ]
  validate_prompt f.system_prompt (is_some f.system_prompt_file)
  validate_prompt_file f.system_prompt_file
  fail_if (is_some f.persona_id && is_some f.system_prompt_file)
      (invalid "system_prompt_file" "cannot be used with persona_id")
  validate_environment f.environment
  validate_filesystem f.filesystem
  validate_agent_args f.agent_args
  validate_behavior (some f.parallelism) (some f.respond_to) f.respond_to_allowlist
