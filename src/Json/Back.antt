-- ===== src/Json/Back.antt =====
-- The JSON of an agent's file is read back as the file that was written (src/agent.rs).
use buzz_server.Base.{
  ℕ, ◌≤◌, true, List, [], ◌∷◌, Option, none, some, String, ok, ◌≡◌, ◌∙◌, ap, refl, arith, leb, any,
  string_eq,
}
use buzz_server.Agent.Files.{
  RespondToMode, owner_only, allowlist, anyone, AutoJoinOpenChannels, disabled, all_channels,
  new_channels, AgentConfigFile,
}
use buzz_server.AgentFiles.Resolved.{extend}
use buzz_server.Id.{Uuids, Simple, from_str-to_string}
use buzz_server.Json.{
  optional, defaulted, text, unsigned, variant, texts, read_items-write_items,
  read_members-write_members, compact, slot, declared, lookup, lookup-compact, check_members,
  check_members-compact,
}
use buzz_server.Json.Files.{
  u32_max, u64_max, parse_runtime, runtime_id, mode_name, mode_named, join_name, join_named,
  environment_of, filesystem_of, file_fields, given, given_number, given_list, given_map,
  given_filesystem, given_join, file_slots, to_json, read_fields, from_json,
}

-- What Rust's types say of the fields: a runtime id parses, a map lists its entries in the order of
-- its keys, each once, and a number fits its type.
pub record Typed (f : AgentConfigFile) : Type 0 where
  pub runtime : (r : String) → f.runtime ≡ some r → parse_runtime r ≡ ok r
  pub environment : extend [] f.environment ≡ f.environment
  pub parallelism : f.parallelism ≤ u32_max
  pub idle : (n : ℕ) → f.idle_timeout_seconds ≡ some n → n ≤ u64_max
  pub longest : (n : ℕ) → f.max_turn_duration_seconds ≡ some n → n ≤ u64_max

given_back : (o : Option String) → optional text (given o) ≡ ok o
given_back none = refl
given_back (some s) = refl

runtime_back :
    (o : Option String)
    → ((r : String) → o ≡ some r → parse_runtime r ≡ ok r)
    → optional runtime_id (given o) ≡ ok o
runtime_back none h = refl
runtime_back (some r) h = rw (h r refl) refl

number_back :
    (max : ℕ) (o : Option ℕ)
    → ((n : ℕ) → o ≡ some n → n ≤ max)
    → optional (unsigned max) (given_number o) ≡ ok o
number_back max none h = refl
number_back max (some n) h =
    let fits = h n refl in let test : leb n max ≡ true = ground arith in rw test refl

list_back : (l : List String) → defaulted [] texts (given_list l) ≡ ok l
list_back [] = refl
list_back (s ∷ rest) = read_items-write_items (s ∷ rest)

map_back :
    (l : List (String × String))
    → extend [] l ≡ l
    → defaulted [] environment_of (given_map l) ≡ ok l
map_back [] h = refl
map_back (e ∷ rest) h = rw (read_members-write_members (e ∷ rest)) (ap ok h)

user_back :
    (user : Option String)
    → defaulted (record { user = none }) filesystem_of (given_filesystem (record { user = user }))
      ≡ ok (record { user = user })
unfolding compact check_members lookup any
user_back none = refl
user_back (some user) = refl

join_back :
    (j : AutoJoinOpenChannels) → defaulted disabled (variant join_named) (given_join j) ≡ ok j
unfolding join_named join_name
join_back disabled = refl
join_back all_channels = refl
join_back new_channels = refl

mode_back : (m : RespondToMode) → mode_named (mode_name m) ≡ ok m
unfolding mode_named mode_name
mode_back owner_only = refl
mode_back allowlist = refl
mode_back anyone = refl

module _ (uuids : Uuids) (f : AgentConfigFile) where
  slots_declared : declared file_fields (file_slots uuids f) ≡ true
  unfolding file_slots any
  slots_declared = refl

  slots_read :
      Simple uuids f.id → Typed f → read_fields uuids (λ k. slot k (file_slots uuids f)) ≡ ok f
  unfolding read_fields file_slots
  slots_read simple t =
      let fits : leb f.parallelism u32_max ≡ true = ground (arith, t.parallelism) in
      rw
        (
          from_str-to_string uuids "agent_" f.id simple,
          given_back f.persona_id,
          given_back f.avatar_url,
          given_back f.system_prompt,
          given_back f.system_prompt_file,
          runtime_back f.runtime t.runtime,
          given_back f.model,
          given_back f.provider,
          map_back f.environment t.environment,
          user_back f.filesystem.user,
          join_back f.auto_join_open_channels,
          list_back f.agent_args,
          fits,
          mode_back f.respond_to,
          list_back f.respond_to_allowlist,
          number_back u64_max f.idle_timeout_seconds t.idle,
          number_back u64_max f.max_turn_duration_seconds t.longest,
        )
        refl

  -- A file that is written as JSON, without the fields that are left out when they are empty, is read
  -- back as it was: every field that is left out has the default that is read for it, no field has a
  -- name that is refused, and names of variants, ids and runtime ids are read as they are written. It
  -- is assumed that a UUID is read back from its simple form, which is 32 lower-case hexadecimal
  -- digits, and that the file's fields are values of their Rust types.
  pub from_json-to_json : Simple uuids f.id → Typed f → from_json uuids (to_json uuids f) ≡ ok f
  unfolding from_json to_json
  from_json-to_json simple t =
      let same : (λ k. lookup k (compact (file_slots uuids f)))
          ≡ (λ k. slot k (file_slots uuids f)) =
        λ i k. lookup-compact file_fields k (file_slots uuids f) slots_declared i in
      rw (check_members-compact file_fields (file_slots uuids f) slots_declared)
        (ap (read_fields uuids) same ∙ slots_read simple t)
