-- ===== src/Wake/Personas.antt =====
-- src/main.rs, `LifecycleWake`: the personas, and their publication to the relays.
use buzz_server.Base.{
  true, false, List, [], ◌∷◌, ◌++◌, none, some, map, String, Result, ok, err, ◌==◌, string_eq,
  option_eq, if◌then◌else◌,
}
use mathlib.Core.Option
use buzz_server.Base.Action.{◌>>=◌, ◌>>◌, pure}
use buzz_server.Text.Display.{trimmed}
use buzz_server.Agent.{AgentSpec, CommunityConfigId}
use buzz_server.Agent.Files.{PersonaDefinition}
use buzz_server.Community.{CommunityConfig}
use buzz_server.Storage.Schema.{
  Subject, RelayProjectionScope, persona, sync_persona, tombstone_persona,
}
use buzz_server.Storage.Communities.{get_community}
use buzz_server.Storage.Retention.{list_agents}
use buzz_server.Storage.Relay.{
  record_relay_projection, relay_projection_scopes, enqueue_relay_publication,
}
use buzz_server.Api.{
  ApplicationError, CreatePersonaRequest, UpdatePersonaRequest, UpdatePersonaInput,
}
use buzz_server.AgentFiles
use buzz_server.AgentFiles.{
  AgentFileStore, load_agent, load_persona, write_persona, ensure_persona_removable,
}
use buzz_server.AgentFiles.Resolved.{or_default, or_else}
use buzz_server.Application.{World, load, store, LifecycleEffects}
use buzz_server.Wake.{
  Outside, Effect, LifecycleWake, put_files, ask, tell, attempt, agent_file_application_error,
  read_files, write_files, owner_keys_for_community, community_changed, community_agents_purged,
  community_identity_unreferenced, verify_community_join, agent_public_key, operation_ready,
}
use buzz_server.Wake.Files.{
  prepare_agent_create, persist_agent_create, prepare_agent_update, agent_system_prompt_file,
}

-- The communities of the agents whose files name the persona.
unfoldable pub linked_communities :
    String → AgentFileStore → List AgentSpec → List CommunityConfigId
linked_communities id files [] = []
linked_communities id files (agent ∷ agents) =
    let rest = linked_communities id files agents in
    elim (load_agent agent.id files) [
      | ok file ↦ if file.persona_id == some id then agent.community_config_id ∷ rest else rest
      | err e ↦ rest
    ]

unfoldable pub new_persona : CreatePersonaRequest → String → PersonaDefinition
unfolding trimmed
new_persona request id = record {
  id = id;
  display_name = trimmed request.display_name;
  avatar_url = none;
  system_prompt = trimmed request.system_prompt;
  runtime = request.runtime;
  model = none;
  provider = none;
  name_pool = [];
  environment = [];
  respond_to = none;
  respond_to_allowlist = [];
  parallelism = none;
  is_builtin = false;
  is_active = true;
  shared = false;
}

unfoldable pub changed_persona : UpdatePersonaInput → PersonaDefinition → PersonaDefinition
unfolding trimmed
changed_persona changes p = record p {
  display_name = or_default (Option.map trimmed changes.display_name) p.display_name;
  system_prompt = or_default (Option.map trimmed changes.system_prompt) p.system_prompt;
  runtime = or_else changes.runtime p.runtime;
}

abbrev removed_persona :
    {Y : Type 0}
    → World (Outside Y)
    → AgentFiles.Loaded (PersonaDefinition × AgentFileStore)
    → Result ApplicationError PersonaDefinition × World (Outside Y)
removed_persona w (ok (p, files)) = (ok p, put_files files w)
removed_persona w (err e) = (err (agent_file_application_error e), w)

unfoldable pub remove_persona_file : {Y : Type 0} → String → Effect Y PersonaDefinition
unfolding agent_file_application_error
remove_persona_file id w = removed_persona w (AgentFiles.remove_persona id w.outside.files)

module _ {Y : Type 0} (self : LifecycleWake Y) where
  unfoldable pub persona_scope : PersonaDefinition → CommunityConfig → String → RelayProjectionScope
  persona_scope p community owner = record {
    community_config_id = community.id;
    relay_url = community.relay_url.href;
    owner_pubkey = owner;
    d_tag = self.persona_d_tag p.id;
  }

  -- What was published is recorded, and what was not is put into the outbox.
  unfoldable pub sync_community : PersonaDefinition → CommunityConfig → String → Effect Y (Unit {0})
  unfolding persona_scope
  sync_community p community owner = do
    published ← ask (self.sync_persona community.relay_url owner p)
    now ← ask self.unix_seconds
    if published
        then (do
          recorded ← attempt (
              record_relay_projection persona (Subject.named p.id) (persona_scope p community owner)
                now)
          pure tt)
        else (do
          row ← ask self.draw
          queued ← attempt (
              enqueue_relay_publication row sync_persona (persona_scope p community owner)
                (Subject.named p.id) now)
          if queued then tell self.wake_relay else pure tt)

  -- Without the owner's key there is nothing to publish.
  unfoldable pub sync_owned : PersonaDefinition → CommunityConfig → Effect Y (Unit {0})
  sync_owned p community w = elim (owner_keys_for_community self community w.outside.rest) [
    | none ↦ (ok tt, w)
    | some owner ↦ sync_community p community owner w
  ]

  unfoldable pub sync_all : PersonaDefinition → List CommunityConfigId → Effect Y (Unit {0})
  sync_all p [] = pure tt
  sync_all p (id ∷ ids) = do
    row ← load (get_community id)
    elim row [ none ↦ pure tt | some community ↦ sync_owned p community ]
    sync_all p ids

  unfoldable pub sync_persona_references : PersonaDefinition → Effect Y (Unit {0})
  unfolding linked_communities
  sync_persona_references p w =
      let linked = linked_communities p.id w.outside.files (list_agents none w.db) in
      let scopes = relay_projection_scopes persona (Subject.named p.id) w.db in
      sync_all p (self.iteration (linked ++ map (λ s. s.community_config_id) scopes)) w

  unfoldable pub create_persona : CreatePersonaRequest → Effect Y PersonaDefinition
  unfolding new_persona
  create_persona request = do
    id ← ask self.now_v7
    write_files (write_persona (new_persona request id))
    sync_persona_references (new_persona request id)
    pure (new_persona request id)

  unfoldable pub update_persona : UpdatePersonaRequest → Effect Y PersonaDefinition
  unfolding changed_persona
  update_persona request = do
    old ← read_files (load_persona request.persona_id)
    write_files (write_persona (changed_persona request.changes old))
    sync_persona_references (changed_persona request.changes old)
    pure (changed_persona request.changes old)

  unfoldable pub enqueue_tombstones : String → List RelayProjectionScope → Effect Y (Unit {0})
  enqueue_tombstones id [] = pure tt
  enqueue_tombstones id (scope ∷ scopes) = do
    now ← ask self.unix_seconds
    row ← ask self.draw
    store (enqueue_relay_publication row tombstone_persona scope (Subject.named id) now)
    enqueue_tombstones id scopes

  abbrev wake_if_any : List RelayProjectionScope → Effect Y (Unit {0})
  wake_if_any [] = pure tt
  wake_if_any (scope ∷ scopes) = tell self.wake_relay

  unfoldable pub delete_persona : String → Effect Y PersonaDefinition
  delete_persona id = do
    removable ← read_files (ensure_persona_removable id)
    scopes ← load (relay_projection_scopes persona (Subject.named id))
    enqueue_tombstones id scopes
    p ← remove_persona_file id
    wake_if_any scopes
    pure p

  -- `impl LifecycleEffects for LifecycleWake`
  unfoldable pub wake_effects : LifecycleEffects (World (Outside Y))
  wake_effects = record {
    verify_community_join = verify_community_join self;
    community_changed = community_changed self;
    community_identity_unreferenced = community_identity_unreferenced self;
    community_agents_purged = community_agents_purged;
    create_persona = create_persona;
    update_persona = update_persona;
    get_persona = λ id. read_files (load_persona id);
    list_personas = read_files AgentFiles.list_personas;
    delete_persona = delete_persona;
    prepare_agent_create = prepare_agent_create self;
    persist_agent_create = persist_agent_create;
    prepare_agent_update = prepare_agent_update;
    agent_public_key = agent_public_key self;
    agent_system_prompt_file = agent_system_prompt_file self;
    operation_ready = operation_ready self;
  }
