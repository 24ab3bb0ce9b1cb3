-- ===== src/Wake/Files.antt =====
-- src/main.rs, `LifecycleWake`: the file of an agent that is created or changed.
use buzz_server.Base.{
  ℕ, Bool, true, false, not, ◌&&◌, List, [], ◌∷◌, Option, none, some, String, Result, ok, err,
  fail_if, is_some, if◌then◌else◌,
}
use buzz_server.Base
use buzz_server.Base.Action.{◌>>=◌, ◌>>◌, lift}
use buzz_server.Text.Validate.{invalid}
use buzz_server.Agent.{AgentId, AgentSpec, enabled}
use buzz_server.Agent.Files.{AgentConfigFile}
use buzz_server.Storage.Schema.{CreateAgentInput, UpdateAgentInput}
use buzz_server.Api
use buzz_server.Api.{ApplicationError}
use buzz_server.AgentFiles.{
  AgentFileStore, Loaded, AgentCreateFileOptions, agent_file, load_agent, write_agent,
}
use buzz_server.AgentFiles.Resolved.{
  Host, or_default, resolve, build_create_file, ensure_agent_file,
}
use buzz_server.Application.{World}
use buzz_server.Wake.{Outside, Effect, LifecycleWake, read_files, write_files}

unfoldable pub options_of : CreateAgentInput → AgentCreateFileOptions
options_of input = record {
  display_name = input.display_name;
  persona_id = input.persona_id;
  system_prompt = input.system_prompt;
  system_prompt_file = input.system_prompt_file;
  runtime = input.runtime_id;
  filesystem_user = input.filesystem_user;
}

-- An agent with a persona may not change its prompt.
abbrev from_persona : String → ApplicationError
from_persona field =
    Api.invalid (invalid field "is defined by the selected persona; update the persona instead")

unfoldable pub check_changes :
    UpdateAgentInput → AgentConfigFile → Result ApplicationError (Unit {0})
unfolding invalid
check_changes changes file =
    Base.◌>>◌
      (fail_if (is_some changes.system_prompt && is_some file.persona_id)
        (from_persona "system_prompt"))
      (fail_if (is_some changes.system_prompt_file && is_some file.persona_id)
        (from_persona "system_prompt_file"))

abbrev pub or_same {ℓ} : {A : Type ℓ} → Option A → Option A → Option A
or_same none old = old
or_same (some new) old = some new

-- A new prompt file without a new prompt clears the prompt.
abbrev pub changed_prompt : Option String → Option String → Option String → Option String
changed_prompt (some prompt) file old = some prompt
changed_prompt none (some path) old = some ""
changed_prompt none none old = old

unfoldable pub changed : UpdateAgentInput → AgentConfigFile → AgentConfigFile
changed changes file = record file {
  display_name = or_default changes.display_name file.display_name;
  system_prompt =
      changed_prompt changes.system_prompt changes.system_prompt_file file.system_prompt;
  system_prompt_file = or_same changes.system_prompt_file file.system_prompt_file;
  runtime = or_same changes.runtime_id file.runtime;
  filesystem = record file.filesystem {
    user = or_same changes.filesystem_user file.filesystem.user;
  };
}

-- What `prepare_agent_create` reads of the files.
unfoldable pub prepared : Host → AgentId → CreateAgentInput → AgentFileStore → Loaded AgentSpec
unfolding options_of
prepared host id input files = Base.◌>>=◌ (build_create_file id (options_of input) files) (λ file.
    Base.◌>>=◌ (resolve host file input.community_config_id enabled files)
      (λ resolved. ok resolved.spec))

-- What `persist_agent_create` makes of them.
unfoldable pub persisted : AgentSpec → CreateAgentInput → AgentFileStore → Loaded AgentFileStore
unfolding options_of
persisted agent input files =
    if is_some (agent_file agent.id files)
    then ok files
    else Base.◌>>=◌ (build_create_file agent.id (options_of input) files)
        (λ file. write_agent file files)

module _ {Y : Type 0} (self : LifecycleWake Y) where
  unfoldable pub prepare_agent_create : AgentId → CreateAgentInput → Effect Y AgentSpec
  unfolding prepared
  prepare_agent_create id input = read_files (prepared self.host id input)

  unfoldable pub agent_system_prompt_file : AgentId → World (Outside Y) → Option String
  agent_system_prompt_file id w = elim (load_agent id w.outside.files) [
    | ok file ↦ file.system_prompt_file
    | err e ↦ none
  ]

unfoldable pub persist_agent_create :
    {Y : Type 0} → AgentSpec → CreateAgentInput → Effect Y (Unit {0})
unfolding persisted
persist_agent_create agent input = write_files (persisted agent input)

unfoldable pub prepare_agent_update :
    {Y : Type 0} → AgentSpec → UpdateAgentInput → Effect Y (Unit {0})
unfolding check_changes changed
prepare_agent_update current changes = do
  write_files (ensure_agent_file current)
  file ← read_files (load_agent current.id)
  lift (λ e. e) (check_changes changes file)
  write_files (write_agent (changed changes file))
