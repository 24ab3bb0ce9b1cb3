-- ===== src/Json/Files.antt =====
-- The JSON of an agent's file: what serde derives from the attributes of `AgentConfigFile` and its
-- parts (src/agent.rs), with the readers of src/id.rs and src/runtime.rs. A
-- struct that is given as an array of its fields, which serde reads as well, is left out.
use buzz_server.Base.{
  ℕ, not, ◌||◌, List, [], ◌∷◌, Option, none, some, String, ok, err, ◌>>=◌, ◌>>◌, fail_if, map_err,
  ◌==◌, nat_eq, string_eq, ltb, all, if◌then◌else◌,
}
use buzz_server.Text.{codes, is_empty, utf8_len, is_lower, is_digit}
use buzz_server.Agent.Files.{
  RespondToMode, owner_only, allowlist, anyone, AutoJoinOpenChannels, disabled, all_channels,
  new_channels, FilesystemConfig, AgentConfigFile,
}
use buzz_server.AgentFiles.{default_agent_parallelism}
use buzz_server.AgentFiles.Resolved.{extend}
use buzz_server.Id.{Uuids, to_string, from_str}
use buzz_server.Json.{
  Json, string, number, array, object, Members, invalid_type, custom, Read, lookup, check_members,
  required, optional, defaulted, text, unsigned, variant, texts, read_members, write_items,
  write_members, compact,
}

abbrev pub u32_max : ℕ
u32_max = 4294967295

abbrev pub u64_max : ℕ
u64_max = 18446744073709551615

-- `RuntimeId::parse`
unfoldable pub parse_runtime : String → Read String
unfolding is_empty utf8_len all is_lower is_digit
parse_runtime value = do
  fail_if (is_empty (codes value) || ltb 80 (utf8_len (codes value))) (custom "runtime id")
  fail_if
      (not
        (all (λ c. is_lower c || is_digit c || c == b'-' || c == b'_' || c == b'.') (codes value)))
      (custom "runtime id")
  ok value

abbrev pub runtime_id : Json → Read String
runtime_id v = do s ← text v; parse_runtime s

-- `rename_all = "kebab-case"`
unfoldable pub mode_name : RespondToMode → String
mode_name owner_only = "owner-only"
mode_name allowlist = "allowlist"
mode_name anyone = "anyone"

unfoldable pub mode_named : String → Read RespondToMode
mode_named s =
    if s == "owner-only"
    then ok owner_only
    else if s == "allowlist"
    then ok allowlist
    else if s == "anyone"
    then ok anyone
    else err (custom "unknown variant")

-- `rename_all = "snake_case"`
unfoldable pub join_name : AutoJoinOpenChannels → String
join_name disabled = "disabled"
join_name all_channels = "all"
join_name new_channels = "new"

unfoldable pub join_named : String → Read AutoJoinOpenChannels
join_named s =
    if s == "disabled"
    then ok disabled
    else if s == "all"
    then ok all_channels
    else if s == "new"
    then ok new_channels
    else err (custom "unknown variant")

-- A map is read entry by entry into a `BTreeMap`.
abbrev pub environment_of : Json → Read (List (String × String))
environment_of (object ms) = do entries ← read_members ms; ok (extend [] entries)
environment_of _ = err invalid_type

abbrev pub filesystem_of : Json → Read FilesystemConfig
filesystem_of (object ms) = do
  check_members ("user" ∷ []) ms
  user ← optional text (lookup "user" ms)
  ok (record { user = user })
filesystem_of _ = err invalid_type

abbrev pub agent_id_of : Uuids → Json → Read ℕ
agent_id_of uuids v = do s ← text v; map_err (λ _. custom "agent id") (from_str uuids "agent_" s)

abbrev pub file_fields : List String
file_fields =
    "id" ∷ "display_name" ∷ "persona_id" ∷ "avatar_url" ∷ "system_prompt" ∷ "system_prompt_file"
    ∷ "runtime" ∷ "model" ∷ "provider" ∷ "environment" ∷ "filesystem" ∷ "auto_join_open_channels"
    ∷ "agent_args" ∷ "parallelism" ∷ "respond_to" ∷ "respond_to_allowlist" ∷ "idle_timeout_seconds"
    ∷ "max_turn_duration_seconds" ∷ []

-- `skip_serializing_if`, of an `Option`, a list, a map and the two other types that have one.
abbrev pub given : Option String → Option Json
given none = none
given (some s) = some (string s)

abbrev pub given_number : Option ℕ → Option Json
given_number none = none
given_number (some n) = some (number n)

abbrev pub given_list : List String → Option Json
given_list [] = none
given_list (s ∷ rest) = some (array (write_items (s ∷ rest)))

abbrev pub given_map : List (String × String) → Option Json
given_map [] = none
given_map (e ∷ rest) = some (object (write_members (e ∷ rest)))

abbrev pub given_filesystem : FilesystemConfig → Option Json
given_filesystem f = elim f.user [
  | none ↦ none
  | some user ↦ some (object (compact (("user", some (string user)) ∷ [])))
]

abbrev pub given_join : AutoJoinOpenChannels → Option Json
given_join disabled = none
given_join all_channels = some (string (join_name all_channels))
given_join new_channels = some (string (join_name new_channels))

module _ (uuids : Uuids) where
  unfoldable pub file_slots : AgentConfigFile → List (String × Option Json)
  unfolding to_string
  file_slots f =
      ("id", some (string (to_string uuids "agent_" f.id)))
      ∷ ("display_name", some (string f.display_name))
      ∷ ("persona_id", given f.persona_id)
      ∷ ("avatar_url", given f.avatar_url)
      ∷ ("system_prompt", given f.system_prompt)
      ∷ ("system_prompt_file", given f.system_prompt_file)
      ∷ ("runtime", given f.runtime)
      ∷ ("model", given f.model)
      ∷ ("provider", given f.provider)
      ∷ ("environment", given_map f.environment)
      ∷ ("filesystem", given_filesystem f.filesystem)
      ∷ ("auto_join_open_channels", given_join f.auto_join_open_channels)
      ∷ ("agent_args", given_list f.agent_args)
      ∷ ("parallelism", some (number f.parallelism))
      ∷ ("respond_to", some (string (mode_name f.respond_to)))
      ∷ ("respond_to_allowlist", given_list f.respond_to_allowlist)
      ∷ ("idle_timeout_seconds", given_number f.idle_timeout_seconds)
      ∷ ("max_turn_duration_seconds", given_number f.max_turn_duration_seconds)
      ∷ []

  unfoldable pub to_json : AgentConfigFile → Json
  unfolding file_slots
  to_json f = object (compact (file_slots f))

  -- The fields of a file, by what the object has under each name.
  unfoldable pub read_fields : (String → Option Json) → Read AgentConfigFile
  unfolding join_named mode_named
  read_fields field = do
    id ← required "id" (agent_id_of uuids) (field "id")
    display_name ← required "display_name" text (field "display_name")
    persona_id ← optional text (field "persona_id")
    avatar_url ← optional text (field "avatar_url")
    system_prompt ← optional text (field "system_prompt")
    system_prompt_file ← optional text (field "system_prompt_file")
    runtime ← optional runtime_id (field "runtime")
    model ← optional text (field "model")
    provider ← optional text (field "provider")
    environment ← defaulted [] environment_of (field "environment")
    filesystem ← defaulted (record { user = none }) filesystem_of (field "filesystem")
    auto_join ← defaulted disabled (variant join_named) (field "auto_join_open_channels")
    agent_args ← defaulted [] texts (field "agent_args")
    parallelism ← defaulted default_agent_parallelism (unsigned u32_max) (field "parallelism")
    respond_to ← defaulted owner_only (variant mode_named) (field "respond_to")
    respond_to_allowlist ← defaulted [] texts (field "respond_to_allowlist")
    idle ← optional (unsigned u64_max) (field "idle_timeout_seconds")
    longest ← optional (unsigned u64_max) (field "max_turn_duration_seconds")
    ok (record {
      id = id;
      display_name = display_name;
      persona_id = persona_id;
      avatar_url = avatar_url;
      system_prompt = system_prompt;
      system_prompt_file = system_prompt_file;
      runtime = runtime;
      model = model;
      provider = provider;
      environment = environment;
      filesystem = filesystem;
      auto_join_open_channels = auto_join;
      agent_args = agent_args;
      parallelism = parallelism;
      respond_to = respond_to;
      respond_to_allowlist = respond_to_allowlist;
      idle_timeout_seconds = idle;
      max_turn_duration_seconds = longest;
    })

  abbrev read_object : Members → Read AgentConfigFile
  read_object ms = do check_members file_fields ms; read_fields (λ k. lookup k ms)

  unfoldable pub from_json : Json → Read AgentConfigFile
  unfolding read_fields
  from_json (object ms) = read_object ms
  from_json _ = err invalid_type
