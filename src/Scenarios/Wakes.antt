-- ===== src/Scenarios/Wakes.antt =====
-- An agent that is created with a persona and then changed (src/main.rs, `LifecycleWake`).
use buzz_server.Base.{ℕ, ◌+◌, none, some, [], ◌∷◌, ok, ◌≡◌, ◌≢◌, refl, true, is_some}
use buzz_server.Base.Int.{pos}
use buzz_server.Agent.{enabled, AgentId, AgentSpec}
use buzz_server.Agent.Files.{AgentConfigFile}
use buzz_server.Storage.Schema.{CreateAgentInput, UpdateAgentInput, empty_db}
use buzz_server.AgentFiles.{agent_file, load_agent}
use buzz_server.Application.{World}
use buzz_server.Wake.{Outside, LifecycleWake}
use buzz_server.Wake.Files.{prepare_agent_create, persist_agent_create, prepare_agent_update}
use buzz_server.Wake.Updated.{Revised, prepare_agent_update-Revised}
use buzz_server.Wake.Prepared.{Created, persist_agent_create-Created}
use buzz_server.Scenarios.Files.{no_prompts, seven, directories, with_seven}

-- All other parts are there and answer at once.
abbrev parts : LifecycleWake ℕ
parts = record {
  host = no_prompts;
  send_operation = λ id y. (true, y + 1);
  wake_relay = λ y. y + 1;
  wake_auto_join = λ id y. y + 1;
  verify = λ community y. (ok tt, y);
  agent_key = λ id y. none;
  read_secret = λ key y. none;
  public_key = λ secret. none;
  remove_custody = λ key y. y + 1;
  sync_persona = λ url owner p y. (true, y);
  persona_d_tag = λ id. id;
  now_v7 = λ y. ("new", y);
  unix_seconds = λ y. (pos 100, y);
  draw = λ y. (y, y + 1);
  iteration = λ ids. ids;
}

abbrev before : World (Outside ℕ)
before = record {
  db = empty_db;
  generation = 0;
  outside = record { files = directories; rest = 0 };
}

abbrev input : CreateAgentInput
input = record {
  community_config_id = 1;
  display_name = "Seven";
  persona_id = some "builder";
  system_prompt = none;
  system_prompt_file = none;
  runtime_id = none;
  filesystem_user = none;
}

abbrev spec : AgentSpec
spec = record {
  id = 7;
  community_config_id = 1;
  display_name = "Seven";
  system_prompt = "Build it.";
  runtime = record { runtime_id = "goose"; environment = ("LEVEL", "1") ∷ ("MODE", "slow") ∷ [] };
  desired_state = enabled;
}

prepares : prepare_agent_create parts 7 input before ≡ (ok spec, before)
unfolding prepare_agent_create buzz_server.Wake.read_files
    buzz_server.AgentFiles.Resolved.build_create_file buzz_server.AgentFiles.Resolved.minted
    buzz_server.AgentFiles.load_persona buzz_server.Agent.Files.validate_persona
    buzz_server.Agent.Files.validate_file buzz_server.AgentFiles.Resolved.new_file
    buzz_server.AgentFiles.Resolved.resolve buzz_server.AgentFiles.Resolved.parts_of
    buzz_server.AgentFiles.Resolved.linked_parts buzz_server.Agent.validate
    buzz_server.AgentFiles.Resolved.spec_of
prepares = refl

no_file : agent_file 7 directories ≡ none
unfolding agent_file
no_file = refl

persist_agent_create-Created_example :
    (w' : World (Outside ℕ)) × (persist_agent_create spec input before ≡ (ok tt, w'))
    × (w'.db ≡ empty_db)
    × Created no_prompts spec input w'.outside.files
persist_agent_create-Created_example =
    persist_agent_create-Created parts 7 input spec before before prepares no_file

abbrev has_seven : World (Outside ℕ)
has_seven = record before { outside = record { files = with_seven; rest = 0 } }

abbrev renamed : UpdateAgentInput
renamed = record {
  display_name = some "Septima";
  system_prompt = none;
  system_prompt_file = none;
  runtime_id = some "codex";
  filesystem_user = none;
}

abbrev after : World (Outside ℕ)
after = (prepare_agent_update spec renamed has_seven).1

reads : load_agent 7 with_seven ≡ ok seven
unfolding load_agent buzz_server.Agent.Files.validate_file
reads = refl

updates : prepare_agent_update spec renamed has_seven ≡ (ok tt, after)
unfolding prepare_agent_update buzz_server.Wake.write_files
    buzz_server.AgentFiles.Resolved.ensure_agent_file agent_file buzz_server.Wake.read_files
    load_agent buzz_server.Agent.Files.validate_file buzz_server.AgentFiles.write_agent
updates = refl

prepare_agent_update-Revised_example :
    ((new : AgentConfigFile) × (load_agent 7 after.outside.files ≡ ok new)
      × Revised renamed seven new)
    × ((id : AgentId) → id ≢ 7 → load_agent id after.outside.files ≡ load_agent id with_seven)
    × (after.db ≡ empty_db)
    × (is_some seven.persona_id ≡ true
        → (renamed.system_prompt ≡ none) × (renamed.system_prompt_file ≡ none))
prepare_agent_update-Revised_example =
    prepare_agent_update-Revised spec renamed seven has_seven after reads updates
