-- ===== src/AgentFiles.antt =====
-- src/agent_files.rs: the configuration files of agents and personas. A file holds the value that its
-- JSON encodes, or something that serde_json does not read; other I/O errors are left out.
pub mod Resolved
pub mod Stored
pub mod Linked
use buzz_server.Base.{
  ℕ, Bool, true, false, not, ◌&&◌, ◌||◌, List, [], ◌∷◌, Option, none, some, map, String, Result, ok,
  err, ◌>>=◌, ◌>>◌, fail_if, ok_or, map_err, ◌==◌, nat_eq, string_eq, option_eq, ltb, all, is_some,
  if◌then◌else◌, find, select, update_where, delete_where, insert_row, order_by,
}
use Prim.Native.Nat.{Ordering}
use Prim.Native.String.{compare}
use mathlib.Core.Option
use buzz_server.Text.{codes, is_empty, is_ascii_alphanumeric, to_ascii_lowercase}
use buzz_server.Text.Display.{trimmed}
use buzz_server.Text.Validate.{ValidationError, invalid}
use buzz_server.Agent
use buzz_server.Agent.{AgentId, CommunityConfigId, AgentSpec, RuntimeSpec, DesiredAgentState}
use buzz_server.Agent.Files.{
  RespondToMode, owner_only, disabled, PersonaDefinition, AgentConfigFile, FilesystemConfig,
  ResolvedAgentConfig, validate_persona, validate_file,
}

-- A file: what `from_json` of Json/Files reads of it, if it can be read; a write puts the value there that
-- it writes as JSON.
pub record AgentFile : Type 0 where
  pub id : AgentId
  pub content : Option AgentConfigFile

pub record PersonaFile : Type 0 where
  pub id : String
  pub content : Option PersonaDefinition

-- The two directories, by the id in the name of each file.
pub record AgentFileStore : Type 0 where
  pub agents : List AgentFile
  pub personas : List PersonaFile

pub record AgentCreateFileOptions : Type 0 where
  pub display_name : String
  pub persona_id : Option String
  pub system_prompt : Option String
  pub system_prompt_file : Option String
  pub runtime : Option String
  pub filesystem_user : Option String

pub data AgentFileError : Type 0 where
  io json : AgentFileError
  validation : ValidationError → AgentFileError
  persona_not_found : String → AgentFileError
  persona_referenced : String → List AgentId → AgentFileError
  runtime_required : String → AgentFileError
  standalone_runtime_required : AgentFileError
  agent_id_mismatch : AgentId → AgentId → AgentFileError
  system_prompt_file : String → String → AgentFileError

abbrev pub Loaded : Type 0 → Type 0
Loaded A = Result AgentFileError A

abbrev pub default_agent_parallelism : ℕ
default_agent_parallelism = 10

abbrev pub checked : Result ValidationError (Unit {0}) → Loaded (Unit {0})
checked r = map_err validation r

unfoldable pub agent_file : AgentId → AgentFileStore → Option AgentFile
unfolding find
agent_file id files = find (λ f. f.id == id) files.agents

unfoldable pub persona_file : String → AgentFileStore → Option PersonaFile
unfolding find
persona_file id files = find (λ f. f.id == id) files.personas

-- `persona_path`, as far as it can fail.
unfoldable pub check_persona_path : String → Loaded (Unit {0})
unfolding invalid all is_ascii_alphanumeric is_empty
check_persona_path id =
    fail_if
      (is_empty (codes id)
        || not (all (λ c. is_ascii_alphanumeric c || c == b'-' || c == b'_') (codes id)))
      (validation (invalid "persona_id" "must contain only letters, numbers, '-' or '_'"))

unfoldable pub load_agent : AgentId → AgentFileStore → Loaded AgentConfigFile
unfolding agent_file
load_agent id files = do
  file ← ok_or (agent_file id files) io
  value ← ok_or file.content json
  fail_if (not (value.id == id)) (agent_id_mismatch id value.id)
  checked (validate_file value)
  ok value

unfoldable pub load_persona : String → AgentFileStore → Loaded PersonaDefinition
unfolding persona_file check_persona_path invalid
load_persona id files = do
  check_persona_path id
  file ← ok_or (persona_file id files) (persona_not_found id)
  value ← ok_or file.content json
  checked (validate_persona value)
  fail_if (not (value.id == id))
      (validation (invalid "persona.id" "must match the persona filename"))
  ok value

unfoldable pub read_all : List PersonaFile → Loaded (List PersonaDefinition)
read_all [] = ok []
read_all (f ∷ fs) = do
  value ← ok_or f.content json
  checked (validate_persona value)
  rest ← read_all fs
  ok (value ∷ rest)

abbrev pub string_lt : String → String → Bool
string_lt a b = elim (compare a b) [
  | Ordering.lt ↦ true
  | Ordering.eq ↦ false
  | Ordering.gt ↦ false
]

unfoldable pub list_personas : AgentFileStore → Loaded (List PersonaDefinition)
unfolding read_all order_by
list_personas files = do
  values ← read_all files.personas
  ok (order_by (λ a b. string_lt a.id b.id) values)

-- The agents whose files name the persona.
unfoldable pub linked_agents : String → List AgentFile → Loaded (List AgentId)
linked_agents id [] = ok []
linked_agents id (f ∷ fs) = do
  value ← ok_or f.content json
  rest ← linked_agents id fs
  ok (if value.persona_id == some id then value.id ∷ rest else rest)

abbrev refuse_linked : String → List AgentId → Loaded (Unit {0})
refuse_linked id [] = ok tt
refuse_linked id (a ∷ rest) = err (persona_referenced id (order_by ltb (a ∷ rest)))

unfoldable pub ensure_persona_removable : String → AgentFileStore → Loaded PersonaDefinition
unfolding linked_agents order_by
ensure_persona_removable id files = do
  persona ← load_persona id files
  linked ← linked_agents id files.agents
  refuse_linked id linked
  ok persona

unfoldable pub remove_persona :
    String → AgentFileStore → Loaded (PersonaDefinition × AgentFileStore)
unfolding delete_where
remove_persona id files = do
  persona ← ensure_persona_removable id files
  ok (persona, record files { personas = delete_where (λ f. f.id == id) files.personas })

-- `atomic_pretty_json`: the file is replaced, or a new one is made.
unfoldable pub put_agent_file : AgentConfigFile → AgentFileStore → AgentFileStore
unfolding agent_file update_where insert_row
put_agent_file value files = record files {
  agents =
      if is_some (agent_file value.id files)
      then update_where (λ f. f.id == value.id) (λ f. record f { content = some value })
          files.agents
      else insert_row (record { id = value.id; content = some value }) files.agents;
}

unfoldable pub put_persona_file : PersonaDefinition → AgentFileStore → AgentFileStore
unfolding persona_file update_where insert_row
put_persona_file value files = record files {
  personas =
      if is_some (persona_file value.id files)
      then update_where (λ f. f.id == value.id) (λ f. record f { content = some value })
          files.personas
      else insert_row (record { id = value.id; content = some value }) files.personas;
}

unfoldable pub write_agent : AgentConfigFile → AgentFileStore → Loaded AgentFileStore
write_agent value files = do checked (validate_file value); ok (put_agent_file value files)

unfoldable pub write_persona : PersonaDefinition → AgentFileStore → Loaded AgentFileStore
write_persona value files = do
  checked (validate_persona value)
  check_persona_path value.id
  ok (put_persona_file value files)

-- A file that is missing is removed already.
unfoldable pub remove_agent : AgentId → AgentFileStore → AgentFileStore
unfolding delete_where
remove_agent id files = record files { agents = delete_where (λ f. f.id == id) files.agents }
