-- ===== src/Wake/Prepared.antt =====
-- The agent that is created, and its file (src/main.rs, `prepare_agent_create` and
-- `persist_agent_create`).
use buzz_server.Base.{none, ok, ◌≡◌, ◌∙◌, sym, ap, subst, refl, >>=-eq-ok}
use buzz_server.Agent.{AgentId, AgentSpec, CommunityConfigId, DesiredAgentState, enabled}
use buzz_server.Agent.Files.{AgentConfigFile, ResolvedAgentConfig, validate_file}
use buzz_server.Storage.Schema.{CreateAgentInput}
use buzz_server.AgentFiles.{
  AgentFileStore, AgentCreateFileOptions, checked, agent_file, load_agent, load_persona,
  write_agent, put_agent_file,
}
use buzz_server.AgentFiles.Resolved.{
  Host, minted, new_file, build_create_file, resolve, spec_of, parts_of, linked_parts,
}
use buzz_server.AgentFiles.Stored.{load_agent-write_agent}
use buzz_server.AgentFiles.Linked.{resolve-parts_of, ok-injective}
use buzz_server.Application.{World}
use buzz_server.Wake.{Outside, LifecycleWake, put_files, write_files}
use buzz_server.Wake.Files.{
  options_of, prepared, persisted, prepare_agent_create, persist_agent_create,
}
use buzz_server.Wake.Updated.{read_files-ok}

-- A file that was made for an agent is valid and has its id.
build_create_file-valid :
    (id : AgentId) (options : AgentCreateFileOptions) (files : AgentFileStore)
    (file : AgentConfigFile)
    → build_create_file id options files ≡ ok file
    → (file.id ≡ id) × (checked (validate_file file) ≡ ok tt)
unfolding build_create_file new_file
build_create_file-valid id options files file h =
    let (m, taken, h1) = >>=-eq-ok (minted options files) _ h in
    let (u, valid, h2) = >>=-eq-ok (checked (validate_file (new_file id options m))) _ h1 in
    let same = ok-injective _ file _ _ refl refl h2 in
    (ap (λ x. x.id) (sym same), subst (λ x. checked (validate_file x) ≡ ok tt) same valid)

-- What a file resolves to does not depend on the other agents' files.
resolve-put_agent_file :
    (host : Host) (file value : AgentConfigFile) (community : CommunityConfigId)
    (state : DesiredAgentState) (files : AgentFileStore)
    → resolve host file community state (put_agent_file value files)
      ≡ resolve host file community state files
unfolding resolve parts_of linked_parts load_persona put_agent_file
resolve-put_agent_file host file value community state files = refl

-- The file of an agent that is created, read back, and what it resolves to.
pub record Created (host : Host) (spec : AgentSpec) (input : CreateAgentInput)
    (files : AgentFileStore) : Type 0 where
  pub file : AgentConfigFile
  pub resolved : ResolvedAgentConfig
  pub read : load_agent spec.id files ≡ ok file
  pub resolves : resolve host file input.community_config_id enabled files ≡ ok resolved
  pub same_spec : resolved.spec ≡ spec

write_agent-valid :
    (file : AgentConfigFile) (files : AgentFileStore)
    → checked (validate_file file) ≡ ok tt
    → write_agent file files ≡ ok (put_agent_file file files)
unfolding write_agent
write_agent-valid file files valid = rw valid refl

persisted-prepared :
    (host : Host) (id : AgentId) (input : CreateAgentInput) (files : AgentFileStore)
    (spec : AgentSpec)
    → prepared host id input files ≡ ok spec
    → agent_file id files ≡ none
    → (files' : AgentFileStore) × (persisted spec input files ≡ ok files')
      × Created host spec input files'
unfolding prepared persisted spec_of
persisted-prepared host id input files spec h new =
    let (file, built, h1) = >>=-eq-ok (build_create_file id (options_of input) files) _ h in
    let (resolved, resolves, h2) =
      >>=-eq-ok (resolve host file input.community_config_id enabled files) _ h1 in
    let same : resolved.spec ≡ spec = ok-injective _ spec _ _ refl refl h2 in
    let (file_id, valid) = build_create_file-valid id (options_of input) files file built in
    let (parts, found, made, model, provider) =
      resolve-parts_of host file input.community_config_id enabled files resolved resolves in
    let spec_id : spec.id ≡ id = ap (λ x. x.id) (sym same) ∙ ap (λ x. x.id) made ∙ file_id in
    let placed = write_agent-valid file files valid in
    (
      put_agent_file file files,
      rw (spec_id, new, built) placed,
      record {
        file = file;
        resolved = resolved;
        read =
            ap (λ i. load_agent i (put_agent_file file files)) (spec_id ∙ sym file_id)
            ∙ (load_agent-write_agent file files (put_agent_file file files) placed).0;
        resolves =
            resolve-put_agent_file host file file input.community_config_id enabled files
            ∙ resolves;
        same_spec = same;
      },
    )

-- An agent that is prepared, and has no file yet, can be persisted: its file is then read back, and
-- it resolves, with the community of the request and the intent `enabled`, to the document that was
-- prepared. The database is the same.
pub persist_agent_create-Created :
    {Y : Type 0} (self : LifecycleWake Y) (id : AgentId) (input : CreateAgentInput)
    (spec : AgentSpec) (w w1 : World (Outside Y))
    → prepare_agent_create self id input w ≡ (ok spec, w1)
    → agent_file id w.outside.files ≡ none
    → (w' : World (Outside Y)) × (persist_agent_create spec input w1 ≡ (ok tt, w'))
      × (w'.db ≡ w.db)
      × Created self.host spec input w'.outside.files
unfolding prepare_agent_create persist_agent_create write_files
persist_agent_create-Created self id input spec w w1 h new =
    let (there, same) = read_files-ok (prepared self.host id input) spec w w1 h in
    let (files, stored, created) =
      persisted-prepared self.host id input w.outside.files spec there new in
    (put_files files w, rw (← same, stored) refl, refl, created)
