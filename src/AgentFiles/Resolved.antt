-- ===== src/AgentFiles/Resolved.antt =====
-- src/agent_files.rs: a new agent's file, and what a file stands for with its persona.
use buzz_server.Base.{
  ℕ, Bool, not, List, [], ◌∷◌, Option, none, some, map, String, Result, ok, ◌>>=◌, ◌>>◌, ok_or,
  map_err, fail_if, ◌==◌, string_eq, ltb, if◌then◌else◌, is_some,
}
use Prim.Native.String.{◌++◌ as str_append}
use buzz_server.Text.{codes, to_ascii_lowercase}
use buzz_server.Text.Display.{trimmed, is_blank}
use buzz_server.Agent
use buzz_server.Agent.{AgentId, CommunityConfigId, AgentSpec, DesiredAgentState}
use buzz_server.Agent.Files.{
  RespondToMode, owner_only, disabled, AgentConfigFile, ResolvedAgentConfig, validate_file,
}
use buzz_server.AgentFiles.{
  AgentFileStore, AgentCreateFileOptions, AgentFileError, Loaded, runtime_required,
  standalone_runtime_required, system_prompt_file, checked, default_agent_parallelism, agent_file,
  load_persona, write_agent, string_lt,
}

-- One entry of `BTreeMap::extend`, the keys kept in order.
unfoldable pub put_entry : String → String → List (String × String) → List (String × String)
put_entry k v [] = (k, v) ∷ []
put_entry k v ((j, w) ∷ rest) =
    let later = put_entry k v rest in
    if k == j
    then (k, v) ∷ rest
    else if string_lt k j
    then (k, v) ∷ (j, w) ∷ rest
    else (j, w) ∷ later

unfoldable pub extend : List (String × String) → List (String × String) → List (String × String)
unfolding put_entry
extend env [] = env
extend env ((k, v) ∷ more) = extend (put_entry k v env) more

unfoldable pub nonblank : Option String → Option String
unfolding trimmed
nonblank none = none
nonblank (some v) = let t = trimmed v in if is_blank t then none else some t

-- `value.filter(|v| *v > 0)`
abbrev pub positive : Option ℕ → Option ℕ
positive none = none
positive (some n) = if ltb 0 n then some n else none

abbrev pub or_else {ℓ} : {A : Type ℓ} → Option A → Option A → Option A
or_else none b = b
or_else (some a) b = some a

abbrev pub or_default {ℓ} : {A : Type ℓ} → Option A → A → A
or_default none d = d
or_default (some a) d = a

-- The runtime, the prompt, the model, the provider and the environment of a file.
pub record Parts : Type 0 where
  pub runtime_id : String
  pub system_prompt : String
  pub model : Option String
  pub provider : Option String
  pub environment : List (String × String)

-- The calls of std on a path, each with its value or the text of its error.
pub record Host : Type 1 where
  pub Bytes : Type 0
  pub canonicalize : String → Result String String
  pub is_file : String → Result String Bool
  pub read : String → Result String Bytes
  pub from_utf8 : Bytes → Result String String

abbrev pub because : String → String → String → AgentFileError
because path what error = system_prompt_file path (str_append what error)

module _ (host : Host) where
  unfoldable pub prompt_from_file : Option String → Loaded String
  unfolding trimmed
  prompt_from_file none = ok ""
  prompt_from_file (some path) = do
    resolved ← map_err (because path "cannot resolve file: ") (host.canonicalize path)
    regular ← map_err (because path "cannot inspect file: ") (host.is_file resolved)
    fail_if (not regular) (system_prompt_file path "path is not a regular file")
    bytes ← map_err (because path "cannot read file: ") (host.read resolved)
    prompt ← map_err (because path "file is not valid UTF-8: ") (host.from_utf8 bytes)
    ok (trimmed prompt)

  -- An inline prompt that is not blank comes first.
  unfoldable pub resolve_system_prompt : AgentConfigFile → Loaded String
  unfolding nonblank
  resolve_system_prompt file = elim (nonblank file.system_prompt) [
    | some prompt ↦ ok prompt
    | none ↦ prompt_from_file file.system_prompt_file
  ]

  unfoldable pub linked_parts : String → AgentConfigFile → AgentFileStore → Loaded Parts
  unfolding trimmed nonblank extend
  linked_parts persona_id file files = do
    persona ← load_persona persona_id files
    runtime ← ok_or (or_else file.runtime persona.runtime) (runtime_required persona_id)
    ok (record {
      runtime_id = runtime;
      system_prompt = trimmed persona.system_prompt;
      model = nonblank persona.model;
      provider = nonblank persona.provider;
      environment = extend persona.environment file.environment;
    })

  unfoldable pub standalone_parts : AgentConfigFile → Loaded Parts
  unfolding nonblank
  standalone_parts file = do
    runtime ← ok_or file.runtime standalone_runtime_required
    prompt ← resolve_system_prompt file
    ok (record {
      runtime_id = runtime;
      system_prompt = prompt;
      model = nonblank file.model;
      provider = nonblank file.provider;
      environment = file.environment;
    })

  unfoldable pub parts_of : AgentConfigFile → AgentFileStore → Loaded Parts
  parts_of file files = elim file.persona_id [
    | some persona_id ↦ linked_parts persona_id file files
    | none ↦ standalone_parts file
  ]

  unfoldable pub spec_of :
      AgentConfigFile → CommunityConfigId → DesiredAgentState → Parts → AgentSpec
  spec_of file community_config_id desired_state parts = record {
    id = file.id;
    community_config_id = community_config_id;
    display_name = file.display_name;
    system_prompt = parts.system_prompt;
    runtime = record { runtime_id = parts.runtime_id; environment = parts.environment };
    desired_state = desired_state;
  }

  unfoldable pub resolve :
      AgentConfigFile
      → CommunityConfigId
      → DesiredAgentState
      → AgentFileStore
      → Loaded ResolvedAgentConfig
  unfolding to_ascii_lowercase
  resolve file community_config_id desired_state files = do
    checked (validate_file file)
    parts ← parts_of file files
    let spec = spec_of file community_config_id desired_state parts
    checked (Agent.validate spec)
    ok (record {
      spec = spec;
      persona_id = file.persona_id;
      avatar_url = file.avatar_url;
      model = parts.model;
      provider = parts.provider;
      filesystem = file.filesystem;
      agent_args = file.agent_args;
      parallelism = file.parallelism;
      respond_to = file.respond_to;
      respond_to_allowlist = map (λ v. map to_ascii_lowercase (codes v)) file.respond_to_allowlist;
      idle_timeout_seconds = positive file.idle_timeout_seconds;
      max_turn_duration_seconds = positive file.max_turn_duration_seconds;
    })

-- What a new file takes over from the persona, if there is one.
pub record Minted : Type 0 where
  pub avatar_url : Option String
  pub parallelism : ℕ
  pub respond_to : RespondToMode
  pub respond_to_allowlist : List String
  pub prompt_snapshot : Option String

unfoldable pub minted : AgentCreateFileOptions → AgentFileStore → Loaded Minted
minted options files = elim options.persona_id [
  | some persona_id ↦ do
    p ← load_persona persona_id files
    ok (record {
      avatar_url = p.avatar_url;
      parallelism = or_default p.parallelism default_agent_parallelism;
      respond_to = or_default p.respond_to owner_only;
      respond_to_allowlist = p.respond_to_allowlist;
      prompt_snapshot = some p.system_prompt;
    })
  | none ↦ ok (record {
    avatar_url = none;
    parallelism = default_agent_parallelism;
    respond_to = owner_only;
    respond_to_allowlist = [];
    prompt_snapshot = options.system_prompt;
  })
]

unfoldable pub new_file : AgentId → AgentCreateFileOptions → Minted → AgentConfigFile
new_file id options m = record {
  id = id;
  display_name = options.display_name;
  persona_id = options.persona_id;
  avatar_url = m.avatar_url;
  system_prompt = m.prompt_snapshot;
  system_prompt_file = options.system_prompt_file;
  runtime = options.runtime;
  model = none;
  provider = none;
  environment = [];
  filesystem = record { user = options.filesystem_user };
  auto_join_open_channels = disabled;
  agent_args = [];
  parallelism = m.parallelism;
  respond_to = m.respond_to;
  respond_to_allowlist = m.respond_to_allowlist;
  idle_timeout_seconds = none;
  max_turn_duration_seconds = none;
}

unfoldable pub build_create_file :
    AgentId → AgentCreateFileOptions → AgentFileStore → Loaded AgentConfigFile
build_create_file id options files = do
  m ← minted options files
  checked (validate_file (new_file id options m))
  ok (new_file id options m)

-- The file that `ensure_agent_file` makes of a lifecycle record.
unfoldable pub file_of : AgentSpec → AgentConfigFile
file_of spec = record {
  id = spec.id;
  display_name = spec.display_name;
  persona_id = none;
  avatar_url = none;
  system_prompt = if is_blank spec.system_prompt then none else some spec.system_prompt;
  system_prompt_file = none;
  runtime = some spec.runtime.runtime_id;
  model = none;
  provider = none;
  environment = spec.runtime.environment;
  filesystem = record { user = none };
  auto_join_open_channels = disabled;
  agent_args = [];
  parallelism = default_agent_parallelism;
  respond_to = owner_only;
  respond_to_allowlist = [];
  idle_timeout_seconds = none;
  max_turn_duration_seconds = none;
}

unfoldable pub ensure_agent_file : AgentSpec → AgentFileStore → Loaded AgentFileStore
ensure_agent_file spec files =
    if is_some (agent_file spec.id files) then ok files else write_agent (file_of spec) files
