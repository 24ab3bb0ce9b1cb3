-- ===== src/Scenarios/Files.antt =====
-- A persona and an agent in their directories (src/agent_files.rs).
use buzz_server.Base.{none, some, [], ◌∷◌, String, ok, err, ◌≡◌, refl, true, false, All}
use buzz_server.Text.{codes, trim, is_empty}
use buzz_server.Text.Display.{trimmed}
use buzz_server.Agent.{enabled, AgentId}
use buzz_server.Agent.Files.{
  PersonaDefinition, AgentConfigFile, ResolvedAgentConfig, owner_only, disabled,
}
use buzz_server.AgentFiles.{
  AgentFileStore, AgentFile, AgentCreateFileOptions, load_agent, load_persona, write_agent,
  remove_persona, persona_not_found,
}
use buzz_server.AgentFiles.Resolved.{Host, resolve, build_create_file, nonblank, or_else}
use buzz_server.AgentFiles.Stored.{remove_persona-Unlinked, Unlinked}
use buzz_server.AgentFiles.Linked.{resolve_linked, build_create_file-blank, lookup, lookup_last}

abbrev builder : PersonaDefinition
builder = record {
  id = "builder";
  display_name = "Builder";
  avatar_url = none;
  system_prompt = " Build it. ";
  runtime = some "goose";
  model = some "large";
  provider = none;
  name_pool = [];
  environment = ("LEVEL", "1") ∷ ("MODE", "slow") ∷ [];
  respond_to = none;
  respond_to_allowlist = [];
  parallelism = none;
  is_builtin = false;
  is_active = true;
  shared = false;
}

-- The agent 7, with a mode of its own.
abbrev pub seven : AgentConfigFile
seven = record {
  id = 7;
  display_name = "Seven";
  persona_id = some "builder";
  avatar_url = none;
  system_prompt = none;
  system_prompt_file = none;
  runtime = none;
  model = none;
  provider = none;
  environment = ("MODE", "fast") ∷ [];
  filesystem = record { user = none };
  auto_join_open_channels = disabled;
  agent_args = [];
  parallelism = 3;
  respond_to = owner_only;
  respond_to_allowlist = [];
  idle_timeout_seconds = none;
  max_turn_duration_seconds = none;
}

abbrev pub directories : AgentFileStore
directories = record {
  agents = record { id = 8; content = some (record seven { id = 8; persona_id = none }) } ∷ [];
  personas = record { id = "builder"; content = some builder } ∷ [];
}

abbrev pub with_seven : AgentFileStore
with_seven = record directories {
  agents =
      record { id = 8; content = some (record seven { id = 8; persona_id = none }) }
      ∷ record { id = 7; content = some seven }
      ∷ [];
}

removed : remove_persona "builder" directories ≡ ok (builder, record directories { personas = [] })
unfolding remove_persona buzz_server.AgentFiles.ensure_persona_removable load_persona
    buzz_server.Agent.Files.validate_persona
removed = refl

remove_persona-Unlinked_example :
    (load_persona "builder" (record directories { personas = [] })
      ≡ err (persona_not_found "builder"))
    × (directories.agents ≡ directories.agents)
    × All (Unlinked "builder") directories.agents
remove_persona-Unlinked_example =
    remove_persona-Unlinked "builder" builder directories (record directories { personas = [] })
      removed

abbrev pub no_prompts : Host
no_prompts = record {
  Bytes = String;
  canonicalize = λ path. err "not found";
  is_file = λ path. ok true;
  read = λ path. ok path;
  from_utf8 = λ bytes. ok bytes;
}

abbrev seven_resolved : ResolvedAgentConfig
seven_resolved = record {
  spec = record {
    id = 7;
    community_config_id = 1;
    display_name = "Seven";
    system_prompt = "Build it.";
    runtime = record { runtime_id = "goose"; environment = ("LEVEL", "1") ∷ ("MODE", "fast") ∷ [] };
    desired_state = enabled;
  };
  persona_id = some "builder";
  avatar_url = none;
  model = some "large";
  provider = none;
  filesystem = record { user = none };
  agent_args = [];
  parallelism = 3;
  respond_to = owner_only;
  respond_to_allowlist = [];
  idle_timeout_seconds = none;
  max_turn_duration_seconds = none;
}

resolved : resolve no_prompts seven 1 enabled with_seven ≡ ok seven_resolved
unfolding resolve buzz_server.Agent.Files.validate_file buzz_server.AgentFiles.Resolved.parts_of
    buzz_server.AgentFiles.Resolved.linked_parts load_persona
    buzz_server.Agent.Files.validate_persona buzz_server.Agent.validate
    buzz_server.AgentFiles.Resolved.spec_of
resolved = refl

persona_read : load_persona "builder" with_seven ≡ ok builder
unfolding load_persona buzz_server.Agent.Files.validate_persona
persona_read = refl

resolve_linked_example :
    (seven_resolved.spec.system_prompt ≡ trimmed builder.system_prompt)
    × (seven_resolved.model ≡ nonblank builder.model)
    × (seven_resolved.provider ≡ nonblank builder.provider)
    × (or_else seven.runtime builder.runtime ≡ some seven_resolved.spec.runtime.runtime_id)
    × ((k : String)
        → lookup k seven_resolved.spec.runtime.environment
          ≡ or_else (lookup_last k seven.environment) (lookup k builder.environment))
resolve_linked_example =
    resolve_linked no_prompts seven 1 enabled with_seven seven_resolved "builder" builder resolved
      refl persona_read

abbrev silent : AgentFileStore
silent = record directories {
  personas =
      record { id = "builder"; content = some (record builder { system_prompt = " " }) } ∷ [];
}

abbrev new_agent : AgentCreateFileOptions
new_agent = record {
  display_name = "Nine";
  persona_id = some "builder";
  system_prompt = none;
  system_prompt_file = none;
  runtime = some "goose";
  filesystem_user = none;
}

silent_read : load_persona "builder" silent ≡ ok (record builder { system_prompt = " " })
unfolding load_persona buzz_server.Agent.Files.validate_persona
silent_read = refl

silent_blank : is_empty (trim (codes " ")) ≡ true
unfolding is_empty trim
silent_blank = refl

abbrev nine : AgentConfigFile
nine = record seven { id = 9; display_name = "Nine"; runtime = some "goose" }

build_create_file-blank_example : ¬ (build_create_file 9 new_agent silent ≡ ok nine)
build_create_file-blank_example =
    build_create_file-blank 9 new_agent silent "builder" (record builder { system_prompt = " " })
      refl silent_read silent_blank nine
