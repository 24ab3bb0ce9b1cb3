-- ===== src/Wake/Updated.antt =====
-- What a change of an agent leaves in its file (src/main.rs, `prepare_agent_update`).
use buzz_server.Base.{
  Option, String, true, not, none, Result, ok, err, ◌≡◌, ◌≢◌, ◌∙◌, sym, ap, subst, refl, arith,
  some, is_some, >>=-eq-ok, ok_or-eq-ok, fail_if-eq-ok, ◌==◌, nat_eq,
}
use buzz_server.Base.Action.{continue-eq-ok, lift}
use buzz_server.Agent.{AgentId, AgentSpec}
use buzz_server.Agent.Files.{AgentConfigFile, validate_file}
use buzz_server.Storage.Schema.{UpdateAgentInput}
use buzz_server.AgentFiles.{
  AgentFileStore, Loaded, checked, io, json, agent_id_mismatch, agent_file, load_agent, write_agent,
}
use buzz_server.AgentFiles.Resolved.{or_default, ensure_agent_file}
use buzz_server.AgentFiles.Linked.{ok-injective}
use buzz_server.AgentFiles.Stored.{load_agent-write_agent}
use buzz_server.Application.{World}
use buzz_server.Wake.{Outside, written, carried, put_files, read_files, write_files}
use buzz_server.Wake.Files.{or_same, changed_prompt, check_changes, changed, prepare_agent_update}

written-ok :
    {Y : Type 0} (w w' : World (Outside Y)) (r : Loaded AgentFileStore)
    → written w r ≡ (ok tt, w')
    → (r ≡ ok w'.outside.files) × (put_files w'.outside.files w ≡ w')
written-ok w w' (ok files) h =
    let same : put_files files w ≡ w' = ground arith in
    let files_same : files ≡ w'.outside.files = ap (λ x. x.outside.files) same in
    (ap ok files_same, subst (λ x. put_files x w ≡ w') files_same same)
written-ok w w' (err e) h = absurd (ground arith)

pub write_files-ok :
    {Y : Type 0} (f : AgentFileStore → Loaded AgentFileStore) (w w' : World (Outside Y))
    → write_files f w ≡ (ok tt, w')
    → (f w.outside.files ≡ ok w'.outside.files) × (put_files w'.outside.files w ≡ w')
unfolding write_files
write_files-ok f w w' h = written-ok w w' (f w.outside.files) h

carried-ok :
    {W A : Type 0} (a : A) (w w' : W) (r : Loaded A)
    → carried w r ≡ (ok a, w')
    → (r ≡ ok a) × (w ≡ w')
carried-ok a w w' (ok b) h = ground arith
carried-ok a w w' (err e) h = absurd (ground arith)

pub read_files-ok :
    {Y A : Type 0} (f : AgentFileStore → Loaded A) (a : A) (w w' : World (Outside Y))
    → read_files f w ≡ (ok a, w')
    → (f w.outside.files ≡ ok a) × (w ≡ w')
unfolding read_files
read_files-ok f a w w' h = carried-ok a w w' (f w.outside.files) h

lift-ok :
    {W E F A : Type 0} (f : E → F) (r : Result E A) (a : A) (w w' : W)
    → lift f r w ≡ (ok a, w')
    → (r ≡ ok a) × (w ≡ w')
lift-ok f (ok b) a w w' h = ground arith
lift-ok f (err e) a w w' h = absurd (ground arith)

-- An agent whose file is read has it already.
ensure_agent_file-read :
    (spec : AgentSpec) (file : AgentConfigFile) (files : AgentFileStore)
    → load_agent spec.id files ≡ ok file
    → ensure_agent_file spec files ≡ ok files
unfolding ensure_agent_file load_agent
ensure_agent_file-read spec file files h =
    let (found, there, h1) = ok_or-eq-ok (agent_file spec.id files) io _ h in rw there refl

load_agent-id :
    (id : AgentId) (file : AgentConfigFile) (files : AgentFileStore)
    → load_agent id files ≡ ok file
    → file.id ≡ id
unfolding load_agent
load_agent-id id file files h =
    let (found, there, h1) = ok_or-eq-ok (agent_file id files) io _ h in
    let (value, content, h2) = ok_or-eq-ok found.content json _ h1 in
    let (same, h3) = fail_if-eq-ok (not (value.id == id)) (agent_id_mismatch id value.id) _ h2 in
    let (u, valid, h4) = >>=-eq-ok (checked (validate_file value)) _ h3 in ground arith

-- Prompts are not changed under a persona.
check_changes-ok :
    (changes : UpdateAgentInput) (file : AgentConfigFile)
    → check_changes changes file ≡ ok tt
    → is_some file.persona_id ≡ true
    → (changes.system_prompt ≡ none) × (changes.system_prompt_file ≡ none)
unfolding check_changes
check_changes-ok changes file h linked = ground arith

-- The steps of an update, put together.
update_steps :
    {Y : Type 0} (current : AgentSpec) (changes : UpdateAgentInput) (file file' : AgentConfigFile)
    (w w1 w2 w3 w' : World (Outside Y))
    → load_agent current.id w.outside.files ≡ ok file
    → ensure_agent_file current w.outside.files ≡ ok w1.outside.files
    → put_files w1.outside.files w ≡ w1
    → load_agent current.id w1.outside.files ≡ ok file'
    → w1 ≡ w2
    → w2 ≡ w3
    → write_agent (changed changes file') w3.outside.files ≡ ok w'.outside.files
    → (w ≡ w3)
      × (file' ≡ file)
      × (write_agent (changed changes file) w.outside.files ≡ ok w'.outside.files)
update_steps current changes file file' w w1 w2 w3 w' there ensured p1 loaded p2 p3 done =
    let same_files : w.outside.files ≡ w1.outside.files =
      ok-injective _ _ _ _ refl ensured
        (sym (ensure_agent_file-read current file w.outside.files there)) in
    let first : w ≡ w1 = ap (λ f. put_files f w) same_files ∙ p1 in
    let all : w ≡ w3 = first ∙ p2 ∙ p3 in
    let again : load_agent current.id w.outside.files ≡ ok file' =
      ap (λ (x : World (Outside _)). load_agent current.id x.outside.files) first ∙ loaded in
    let one : file' ≡ file = ok-injective file' file _ _ again there refl in
    let back : write_agent (changed changes file') w.outside.files ≡ ok w'.outside.files =
      ap (λ (x : World (Outside _)). write_agent (changed changes file') x.outside.files) all
      ∙ done in
    (
      all,
      one,
      subst (λ f. write_agent (changed changes f) w.outside.files ≡ ok w'.outside.files) one back,
    )

-- A field after an update: the value that was asked for, if one was, and else the value as it was.
abbrev pub Follows {ℓ} : {A : Type ℓ} → Option A → A → A → Type ℓ
Follows none old new = new ≡ old
Follows (some value) old new = new ≡ value

-- The same of a field that may be missing.
abbrev pub Sets {ℓ} : {A : Type ℓ} → Option A → Option A → Option A → Type ℓ
Sets none old new = new ≡ old
Sets (some value) old new = new ≡ some value

-- The prompt: a new prompt file without a new prompt empties it.
abbrev pub Prompts : Option String → Option String → Option String → Option String → Type 0
Prompts (some prompt) path old new = new ≡ some prompt
Prompts none (some path) old new = new ≡ some ""
Prompts none none old new = new ≡ old

-- A file after the changes that a request asks for, field by field.
pub record Revised (changes : UpdateAgentInput) (old new : AgentConfigFile) : Type 0 where
  pub display_name : Follows changes.display_name old.display_name new.display_name
  pub system_prompt :
      Prompts changes.system_prompt changes.system_prompt_file old.system_prompt new.system_prompt
  pub system_prompt_file :
      Sets changes.system_prompt_file old.system_prompt_file new.system_prompt_file
  pub runtime : Sets changes.runtime_id old.runtime new.runtime
  pub user : Sets changes.filesystem_user old.filesystem.user new.filesystem.user
  pub kept : new ≡ record old {
    display_name = new.display_name;
    system_prompt = new.system_prompt;
    system_prompt_file = new.system_prompt_file;
    runtime = new.runtime;
    filesystem = new.filesystem;
  }

changed-Revised :
    (changes : UpdateAgentInput) (old : AgentConfigFile) → Revised changes old (changed changes old)
unfolding changed
changed-Revised changes old = record {
  display_name =
      elim changes.display_name
        as (λ c. Follows c old.display_name (or_default c old.display_name)) [
          | none ↦ refl
          | some v ↦ refl
        ];
  system_prompt = prompts changes.system_prompt changes.system_prompt_file old.system_prompt;
  system_prompt_file = sets changes.system_prompt_file old.system_prompt_file;
  runtime = sets changes.runtime_id old.runtime;
  user = sets changes.filesystem_user old.filesystem.user;
  kept = refl;
}
  where
    sets : (c old : Option String) → Sets c old (or_same c old)
    sets none old = refl
    sets (some v) old = refl

    prompts : (c path old : Option String) → Prompts c path old (changed_prompt c path old)
    prompts (some v) path old = refl
    prompts none (some v) old = refl
    prompts none none old = refl

-- An update that is answered, of an agent whose file is read: the file that is read back has, field
-- by field, the value that was asked for, or else its old value, with an empty prompt if only a new
-- prompt file was asked for; every other agent's file is read as before, the database is the same,
-- and an agent with a persona was not given a prompt of its own.
pub prepare_agent_update-Revised :
    {Y : Type 0} (current : AgentSpec) (changes : UpdateAgentInput) (file : AgentConfigFile)
    (w w' : World (Outside Y))
    → load_agent current.id w.outside.files ≡ ok file
    → prepare_agent_update current changes w ≡ (ok tt, w')
    → ((new : AgentConfigFile) × (load_agent current.id w'.outside.files ≡ ok new)
        × Revised changes file new)
      × ((id : AgentId)
          → id ≢ current.id
          → load_agent id w'.outside.files ≡ load_agent id w.outside.files)
      × (w'.db ≡ w.db)
      × (is_some file.persona_id ≡ true
          → (changes.system_prompt ≡ none) × (changes.system_prompt_file ≡ none))
unfolding prepare_agent_update changed
prepare_agent_update-Revised current changes file w w' there h =
    let (u, w1, h1, k1) = continue-eq-ok _ (write_files (ensure_agent_file current) w) h in
    let (ensured, p1) = write_files-ok (ensure_agent_file current) w w1 h1 in
    let (file', w2, h2, k2) = continue-eq-ok _ (read_files (load_agent current.id) w1) k1 in
    let (loaded, p2) = read_files-ok (load_agent current.id) file' w1 w2 h2 in
    let (v, w3, h3, k3) = continue-eq-ok _ (lift (λ e. e) (check_changes changes file') w2) k2 in
    let (allowed, p3) = lift-ok (λ e. e) (check_changes changes file') v w2 w3 h3 in
    let (done, p4) = write_files-ok (write_agent (changed changes file')) w3 w' k3 in
    let (all, one, write) =
      update_steps current changes file file' w w1 w2 w3 w' there ensured p1 loaded p2 p3 done in
    let (read, others) =
      load_agent-write_agent (changed changes file) w.outside.files w'.outside.files write in
    let file_id = load_agent-id current.id file w.outside.files there in
    (
      (
        changed changes file,
        ap (λ i. load_agent i w'.outside.files) (sym file_id) ∙ read,
        changed-Revised changes file,
      ),
      λ id ne. others id (λ same. ne (same ∙ file_id)),
      sym (ap (λ x. x.db) p4) ∙ sym (ap (λ x. x.db) all),
      check_changes-ok changes file (subst (λ f. check_changes changes f ≡ ok tt) one allowed),
    )
