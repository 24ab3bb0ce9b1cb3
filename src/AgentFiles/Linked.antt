-- ===== src/AgentFiles/Linked.antt =====
-- An agent that is linked to a persona: what it resolves to, and when its file cannot be made
-- (src/agent_files.rs).
use buzz_server.Base.{
  Bool, true, false, List, [], ◌∷◌, Option, none, some, String, Result, ok, ◌≡◌, ◌∙◌, sym, ap,
  subst, refl, arith, is_some, ◌&&◌, ◌>>=◌, ◌==◌, nat_eq, string_eq, >>=-eq-ok, ok_or-eq-ok,
  map_err-eq-ok, if◌then◌else◌, eq_iff, fail_if-eq-ok,
}
use buzz_server.Text.{codes, trim, is_empty}
use buzz_server.Text.Display.{trimmed}
use buzz_server.Text.Validate.{ValidationError, validate_nonempty}
use buzz_server.Agent
use buzz_server.Agent.{AgentId, CommunityConfigId, DesiredAgentState}
use buzz_server.Agent.Files.{
  validate_prompt_file, PersonaDefinition, AgentConfigFile, ResolvedAgentConfig, validate_file,
  validate_prompt, validate_identifier,
}
use buzz_server.AgentFiles.{
  Loaded, AgentFileStore, AgentCreateFileOptions, runtime_required, checked, load_persona,
}
use buzz_server.AgentFiles.Resolved.{
  Host, Parts, Minted, minted, put_entry, extend, or_else, nonblank, linked_parts, parts_of,
  spec_of, resolve, new_file, build_create_file,
}

abbrev pub lookup : String → List (String × String) → Option String
lookup k [] = none
lookup k ((j, v) ∷ rest) = if j == k then some v else lookup k rest

-- The last entry under a key.
abbrev pub lookup_last : String → List (String × String) → Option String
lookup_last k [] = none
lookup_last k ((j, v) ∷ rest) = or_else (lookup_last k rest) (if j == k then some v else none)

lookup-put_entry :
    (k j v : String) (env : List (String × String))
    → lookup k (put_entry j v env) ≡ (if j == k then some v else lookup k env)
unfolding put_entry
lookup-put_entry k j v [] = refl
lookup-put_entry k j v ((i, w) ∷ rest) =
    ground (arith, eq_iff j k, eq_iff j i, eq_iff i k, lookup-put_entry k j v rest)

lookup-extend :
    (k : String) (env more : List (String × String))
    → lookup k (extend env more) ≡ or_else (lookup_last k more) (lookup k env)
unfolding extend
lookup-extend k env [] = refl
lookup-extend k env ((j, v) ∷ more) =
    let rest = lookup-extend k (put_entry j v env) more in
    let one = lookup-put_entry k j v env in ground (arith, rest, one)

parts_of-linked :
    (host : Host) (file : AgentConfigFile) (files : AgentFileStore) (persona_id : String)
    → file.persona_id ≡ some persona_id
    → parts_of host file files ≡ linked_parts host persona_id file files
unfolding parts_of
parts_of-linked host file files persona_id h = rw h refl

-- What a chain goes on with, once its first step is known.
>>=-from_ok :
    {A B : Type 0} (first : Loaded A) (rest : A → Loaded B) (a : A) (b : B)
    → first ≡ ok a
    → (first >>= rest) ≡ ok b
    → rest a ≡ ok b
>>=-from_ok first rest a b known h = subst (λ x. (x >>= rest) ≡ ok b) known h

pub ok-injective : {A : Type 0} (a b : A) (x y : Loaded A) → x ≡ ok a → y ≡ ok b → x ≡ y → a ≡ b
ok-injective a b x y hx hy h = ground arith

-- What a persona gives to an agent that is linked to it.
linked_parts-persona :
    (host : Host) (persona_id : String) (file : AgentConfigFile) (files : AgentFileStore)
    (p : PersonaDefinition) (parts : Parts)
    → load_persona persona_id files ≡ ok p
    → linked_parts host persona_id file files ≡ ok parts
    → (parts.system_prompt ≡ trimmed p.system_prompt)
      × (parts.model ≡ nonblank p.model)
      × (parts.provider ≡ nonblank p.provider)
      × (or_else file.runtime p.runtime ≡ some parts.runtime_id)
      × (parts.environment ≡ extend p.environment file.environment)
unfolding linked_parts
linked_parts-persona host persona_id file files p parts loaded h =
    let chosen = >>=-from_ok (load_persona persona_id files) _ p parts loaded h in
    let (runtime, given, made) =
      ok_or-eq-ok (or_else file.runtime p.runtime) (runtime_required persona_id) _ chosen in
    let same = ok-injective _ parts _ _ refl refl made in
    (
      ap (λ x. x.system_prompt) (sym same),
      ap (λ x. x.model) (sym same),
      ap (λ x. x.provider) (sym same),
      given ∙ ap (λ (x : Parts). some x.runtime_id) same,
      ap (λ x. x.environment) (sym same),
    )

-- What is resolved has the parts of its file.
pub resolve-parts_of :
    (host : Host) (file : AgentConfigFile) (community : CommunityConfigId)
    (state : DesiredAgentState) (files : AgentFileStore) (r : ResolvedAgentConfig)
    → resolve host file community state files ≡ ok r
    → (parts : Parts) × (parts_of host file files ≡ ok parts)
      × (r.spec ≡ spec_of host file community state parts)
      × (r.model ≡ parts.model)
      × (r.provider ≡ parts.provider)
unfolding resolve
resolve-parts_of host file community state files r h =
    let (u, valid, h1) = >>=-eq-ok (checked (validate_file file)) _ h in
    let (parts, found, h2) = >>=-eq-ok (parts_of host file files) _ h1 in
    let (v, sound, h3) =
      >>=-eq-ok (checked (Agent.validate (spec_of host file community state parts))) _ h2 in
    let same = ok-injective _ r _ _ refl refl h3 in
    (
      parts,
      found,
      ap (λ x. x.spec) (sym same),
      ap (λ x. x.model) (sym same),
      ap (λ x. x.provider) (sym same),
    )

-- An agent that is linked to a persona has the persona's prompt, model and provider, its own runtime
-- or else the persona's, and in its environment its own value of each variable or else the persona's.
pub resolve_linked :
    (host : Host) (file : AgentConfigFile) (community : CommunityConfigId)
    (state : DesiredAgentState) (files : AgentFileStore) (r : ResolvedAgentConfig)
    (persona_id : String) (p : PersonaDefinition)
    → resolve host file community state files ≡ ok r
    → file.persona_id ≡ some persona_id
    → load_persona persona_id files ≡ ok p
    → (r.spec.system_prompt ≡ trimmed p.system_prompt)
      × (r.model ≡ nonblank p.model)
      × (r.provider ≡ nonblank p.provider)
      × (or_else file.runtime p.runtime ≡ some r.spec.runtime.runtime_id)
      × ((k : String)
          → lookup k r.spec.runtime.environment
            ≡ or_else (lookup_last k file.environment) (lookup k p.environment))
unfolding spec_of
resolve_linked host file community state files r persona_id p h linked loaded =
    let (parts, found, spec, model, provider) =
      resolve-parts_of host file community state files r h in
    let (prompt, pm, pp, given, environment) =
      linked_parts-persona host persona_id file files p parts loaded
        (sym (parts_of-linked host file files persona_id linked) ∙ found) in
    (
      ap (λ x. x.system_prompt) spec ∙ prompt,
      model ∙ pm,
      provider ∙ pp,
      given ∙ ap (λ x. some x.runtime.runtime_id) (sym spec),
      λ k.
          ap (λ x. lookup k x.runtime.environment) spec
          ∙ ap (lookup k) environment
          ∙ lookup-extend k p.environment file.environment,
    )

-- A persona's prompt is what a new file of its agent has.
minted-persona :
    (options : AgentCreateFileOptions) (files : AgentFileStore) (persona_id : String)
    (p : PersonaDefinition) (m : Minted)
    → options.persona_id ≡ some persona_id
    → load_persona persona_id files ≡ ok p
    → minted options files ≡ ok m
    → m.prompt_snapshot ≡ some p.system_prompt
unfolding minted
minted-persona options files persona_id p m named loaded h =
    let from_persona = rw named at h in
    let made = >>=-from_ok (load_persona persona_id files) _ p m loaded from_persona in
    ap (λ x. x.prompt_snapshot) (sym (ok-injective _ m _ _ refl refl made))

-- A file that names a persona may not have a blank prompt.
validate_prompt-blank :
    (prompt : String) (from_file : Bool)
    → is_empty (trim (codes prompt)) ≡ true
    → validate_prompt (some prompt) from_file ≡ ok tt
    → from_file ≡ true
unfolding validate_prompt validate_nonempty
validate_prompt-blank prompt true blank h = refl
validate_prompt-blank prompt false blank h = ground arith

validate_file-blank :
    (f : AgentConfigFile) (persona_id prompt : String)
    → f.persona_id ≡ some persona_id
    → f.system_prompt ≡ some prompt
    → is_empty (trim (codes prompt)) ≡ true
    → ¬ (validate_file f ≡ ok tt)
unfolding validate_file
validate_file-blank f persona_id prompt named given blank h =
    let (a, h0, h1) = >>=-eq-ok (validate_nonempty "display_name" f.display_name 120) _ h in
    let identifier : Result ValidationError (Unit {0}) = elim f.persona_id [
      | none ↦ ok tt
      | some i ↦ validate_identifier "persona_id" i
    ] in
    let (b, i0, i1) = >>=-eq-ok identifier _ h1 in
    let (c, inline, j1) =
      >>=-eq-ok (validate_prompt f.system_prompt (is_some f.system_prompt_file)) _ i1 in
    let (d, k0, k1) = >>=-eq-ok (validate_prompt_file f.system_prompt_file) _ j1 in
    let (both, l1) = fail_if-eq-ok (is_some f.persona_id && is_some f.system_prompt_file) _ _ k1 in
    let from_file =
      validate_prompt-blank prompt (is_some f.system_prompt_file) blank
        (ap (λ x. validate_prompt x (is_some f.system_prompt_file)) (sym given) ∙ inline) in
    let linked = ap is_some named in absurd (ground arith)

-- A persona is read, and so it is valid, and its system prompt is blank: then no file can be made for
-- a new agent of that persona, whatever else the options say.
pub build_create_file-blank :
    (id : AgentId) (options : AgentCreateFileOptions) (files : AgentFileStore) (persona_id : String)
    (p : PersonaDefinition)
    → options.persona_id ≡ some persona_id
    → load_persona persona_id files ≡ ok p
    → is_empty (trim (codes p.system_prompt)) ≡ true
    → (file : AgentConfigFile) → ¬ (build_create_file id options files ≡ ok file)
unfolding build_create_file new_file
build_create_file-blank id options files persona_id p named loaded blank file h =
    let (m, taken, h1) = >>=-eq-ok (minted options files) _ h in
    let (u, valid, h2) = >>=-eq-ok (checked (validate_file (new_file id options m))) _ h1 in
    validate_file-blank (new_file id options m) persona_id p.system_prompt named
      (minted-persona options files persona_id p m named loaded taken) blank
      (map_err-eq-ok _ _ valid)
