-- ===== src/AgentFiles/Stored.antt =====
-- What is read back after a file of src/agent_files.rs is written or removed.
use buzz_server.Base.{
  Bool, true, false, List, [], ◌∷◌, some, some-injective, String, ok, err, ◌≡◌, ◌≢◌, ◌∙◌, inl, inr,
  sym, ap, subst, refl, arith, ◌==◌, nat_eq, string_eq, option_eq, All, find, find-update_where,
  find-insert_row_fresh, find-delete_where-none, find_sound, Option-cases, ==_refl, >>=-eq-ok,
  ok_or-eq-ok, insert_row, update_where, delete_where,
}
use buzz_server.Agent.{AgentId}
use buzz_server.Agent.Files.{PersonaDefinition, AgentConfigFile, validate_file}
use buzz_server.AgentFiles.{
  AgentFile, PersonaFile, AgentFileStore, json, persona_not_found, checked, agent_file,
  persona_file, load_agent, load_persona, check_persona_path, linked_agents, refuse_linked,
  ensure_persona_removable, remove_persona, put_agent_file, write_agent,
}

find-update_other {ℓ} :
    {R : Type ℓ} (p q : R → Bool) (f : R → R) (rs : List R)
    → ((r : R) → q r ≡ true → (p r ≡ false) × (p (f r) ≡ false))
    → find p (update_where q f rs) ≡ find p rs
unfolding find update_where
find-update_other p q f [] h = refl
find-update_other p q f (r ∷ rs) h = ground (arith, find-update_other p q f rs h, h r)

find-insert_other {ℓ} :
    {R : Type ℓ} (p : R → Bool) (r : R) (rs : List R)
    → p r ≡ false
    → find p (insert_row r rs) ≡ find p rs
unfolding find insert_row
find-insert_other p r [] h = ground arith
find-insert_other p r (x ∷ rs) h = ground (arith, find-insert_other p r rs h)

-- The file that was written is there, and every other file is as it was.
agent_file-put :
    (value : AgentConfigFile) (files : AgentFileStore)
    → (f : AgentFile) × (agent_file value.id (put_agent_file value files) ≡ some f)
      × (f.content ≡ some value)
unfolding agent_file put_agent_file
agent_file-put value files = elim (Option-cases (agent_file value.id files)) [
  | inl e ↦
      let new : AgentFile = record { id = value.id; content = some value } in
      let placed =
        find-insert_row_fresh (λ (f : AgentFile). f.id == value.id) new files.agents e
          (==_refl value.id) in
      (new, ground (arith, placed), refl)
  | inr (old, e) ↦
      let updated =
        find-update_where (λ (f : AgentFile). f.id == value.id) (λ f. f.id == value.id)
          (λ f. record f { content = some value }) files.agents (λ f. refl) in
      (
        record old { content = some value },
        ground (arith, updated, find_sound (λ (f : AgentFile). f.id == value.id) files.agents e),
        refl,
      )
]

agent_file-put_other :
    (value : AgentConfigFile) (id : AgentId) (files : AgentFileStore)
    → id ≢ value.id
    → agent_file id (put_agent_file value files) ≡ agent_file id files
unfolding agent_file put_agent_file
agent_file-put_other value id files ne =
    let updated =
      find-update_other (λ (f : AgentFile). f.id == id) (λ f. f.id == value.id)
        (λ f. record f { content = some value }) files.agents (λ f e. ground arith) in
    let inserted =
      find-insert_other (λ (f : AgentFile). f.id == id)
        (record { id = value.id; content = some value }) files.agents (ground arith) in
    ground (arith, updated, inserted)

-- An agent's file that is written is read back as it was written, and every other agent's file is read
-- as before.
pub load_agent-write_agent :
    (value : AgentConfigFile) (files files' : AgentFileStore)
    → write_agent value files ≡ ok files'
    → (load_agent value.id files' ≡ ok value)
      × ((id : AgentId) → id ≢ value.id → load_agent id files' ≡ load_agent id files)
unfolding write_agent load_agent
load_agent-write_agent value files files' h =
    let (u, valid, done) = >>=-eq-ok (checked (validate_file value)) _ h in
    let same : put_agent_file value files ≡ files' = ground arith in
    let (f, there, content) = agent_file-put value files in
    let there' : agent_file value.id files' ≡ some f =
      ap (agent_file value.id) (sym same) ∙ there in
    let reads = ==_refl value.id in
    (
      rw (there', content, reads, valid) refl,
      λ id ne. rw (← same, agent_file-put_other value id files ne) refl,
    )

-- No file that can be read names the persona.
abbrev pub Unlinked : String → AgentFile → Type 0
Unlinked id f = (a : AgentConfigFile) → f.content ≡ some a → a.persona_id ≢ some id

linked_agents-Unlinked :
    (id : String) (fs : List AgentFile) → linked_agents id fs ≡ ok [] → All (Unlinked id) fs
unfolding linked_agents
linked_agents-Unlinked id [] h = tt
linked_agents-Unlinked id (f ∷ fs) h =
    let (a, content, h1) = ok_or-eq-ok f.content json _ h in
    let (rest, tail, h2) = >>=-eq-ok (linked_agents id fs) _ h1 in
    let none_left : rest ≡ [] = ground arith in
    let here : (a.persona_id == some id) ≡ false = ground arith in
    (
      λ b c named.
          let same : a ≡ b = some-injective a b (sym content ∙ c) in
          let test : (a.persona_id == some id) ≡ true =
            (option_eq.eqb_iff a.persona_id (some id)).1 (ap (λ x. x.persona_id) same ∙ named) in
          let wrong : true ≡ false = sym test ∙ here in absurd (ground arith),
      linked_agents-Unlinked id fs (tail ∙ ap ok none_left),
    )

refuse_linked-ok : (id : String) (l : List AgentId) → refuse_linked id l ≡ ok tt → l ≡ []
refuse_linked-ok id [] h = refl
refuse_linked-ok id (a ∷ rest) h = absurd (ground arith)

load_persona-gone :
    (id : String) (files : AgentFileStore)
    → check_persona_path id ≡ ok tt
    → load_persona id (record files { personas = delete_where (λ f. f.id == id) files.personas })
      ≡ err (persona_not_found id)
unfolding load_persona persona_file
load_persona-gone id files path =
    let gone =
      find-delete_where-none (λ (f : PersonaFile). f.id == id) (λ f. f.id == id) files.personas
        (λ f e. e) in
    rw (path, gone) refl

load_persona-path :
    (id : String) (files : AgentFileStore) (p : PersonaDefinition)
    → load_persona id files ≡ ok p
    → check_persona_path id ≡ ok tt
unfolding load_persona
load_persona-path id files p h = let (u, path, h1) = >>=-eq-ok (check_persona_path id) _ h in path

-- A persona that is removed is not found any more, it was removed only when no agent's file named it,
-- and the agents' files stay as they are: no agent is left without its persona.
pub remove_persona-Unlinked :
    (id : String) (persona : PersonaDefinition) (files files' : AgentFileStore)
    → remove_persona id files ≡ ok (persona, files')
    → (load_persona id files' ≡ err (persona_not_found id))
      × (files'.agents ≡ files.agents)
      × All (Unlinked id) files'.agents
unfolding remove_persona ensure_persona_removable
remove_persona-Unlinked id persona files files' h =
    let (p, ensured, h1) = >>=-eq-ok (ensure_persona_removable id files) _ h in
    let (q, loaded, h2) = >>=-eq-ok (load_persona id files) _ ensured in
    let (linked, found, h3) = >>=-eq-ok (linked_agents id files.agents) _ h2 in
    let (u, refused, h4) = >>=-eq-ok (refuse_linked id linked) _ h3 in
    let none_left = refuse_linked-ok id linked refused in
    let path = load_persona-path id files q loaded in
    let result : record files { personas = delete_where (λ f. f.id == id) files.personas }
        ≡ files' =
      ground arith in
    (
      ap (load_persona id) (sym result) ∙ load_persona-gone id files path,
      ap (λ s. s.agents) (sym result),
      subst (λ s. All (Unlinked id) s.agents) result
          (linked_agents-Unlinked id files.agents (found ∙ ap ok none_left)),
    )
