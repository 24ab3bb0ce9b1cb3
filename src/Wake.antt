-- ===== src/Wake.antt =====
-- src/main.rs, `impl LifecycleEffects for LifecycleWake`: the effects of the lifecycle application, on
-- the agents' files and the outbox of relay publications.
pub mod Files
pub mod Personas
pub mod Updated
pub mod Prepared
use buzz_server.Base.{
  ℕ, Bool, true, false, not, ◌&&◌, List, [], ◌∷◌, Option, none, some, map, String, Result, ok, err,
  map_err, ◌==◌, nat_eq, is_some, any, if◌then◌else◌,
}
use Prim.Native.String.{◌++◌ as str_append}
use buzz_server.Base.Compare.{list_eq}
use buzz_server.Base.Int.{ℤ}
use buzz_server.Base.Action.{◌>>=◌, ◌>>◌, pure, fail}
use buzz_server.Text.{codes, to_ascii_lowercase}
use buzz_server.Text.Validate.{invalid}
use buzz_server.Agent.{AgentId, CommunityConfigId}
use buzz_server.Agent.Files.{PersonaDefinition}
use buzz_server.Community.{CommunityConfig, Url}
use buzz_server.Storage.Schema.{
  Detail, Query, OperationId, DurableOperation, RelayProjectionScope, database,
}
use buzz_server.Storage.Schema
use buzz_server.Api
use buzz_server.Api.{ApplicationError, not_found, conflict, forbidden, unavailable, internal}
use buzz_server.Api.Service.{Call}
use buzz_server.AgentFiles.{
  AgentFileStore, AgentFileError, io, json, validation, persona_not_found, persona_referenced,
  runtime_required, standalone_runtime_required, agent_id_mismatch, system_prompt_file, Loaded,
  remove_agent,
}
use buzz_server.AgentFiles.Resolved.{Host}
use buzz_server.Application.{World}

-- Beside the database: the agents' files and all else.
pub record Outside (Y : Type 0) : Type 0 where
  pub files : AgentFileStore
  pub rest : Y

abbrev pub Effect : Type 0 → Type 0 → Type 0
Effect Y A = Call (World (Outside Y)) A

pub data CommunityJoinError : Type 0 where
  unreachable : String → CommunityJoinError
  membership_denied invalid_response : CommunityJoinError

-- The fields of the source, by what it does with them: the senders of the three channels, the check of
-- a membership, the custody of keys, the relays and the clock. `public_key` is the hexadecimal key of
-- the secret that is read for a community's identity, `draw` the row of the outbox that SQLite
-- numbers next, and `iteration` the order in which a `HashSet` of the given ids is walked.
pub record LifecycleWake (Y : Type 0) : Type 1 where
  pub host : Host
  pub send_operation : OperationId → Y → Bool × Y
  pub wake_relay : Y → Y
  pub wake_auto_join : CommunityConfigId → Y → Y
  pub verify : CommunityConfig → Y → Result CommunityJoinError (Unit {0}) × Y
  pub agent_key : AgentId → Y → Option String
  pub read_secret : List ℕ → Y → Option String
  pub public_key : String → Option String
  pub remove_custody : List ℕ → Y → Y
  pub sync_persona : Url → String → PersonaDefinition → Y → Bool × Y
  pub persona_d_tag : String → String
  pub now_v7 : Y → String × Y
  pub unix_seconds : Y → ℤ × Y
  pub draw : Y → ℕ × Y
  pub iteration : List CommunityConfigId → List CommunityConfigId

abbrev pub put_files : {Y : Type 0} → AgentFileStore → World (Outside Y) → World (Outside Y)
put_files files w = record w { outside = record w.outside { files = files } }

abbrev pub put_rest : {Y : Type 0} → Y → World (Outside Y) → World (Outside Y)
put_rest y w = record w { outside = record w.outside { rest = y } }

-- A call of another part, with its answer.
abbrev pub ask : {Y A : Type 0} → (Y → A × Y) → Effect Y A
ask f w = let (a, y) = f w.outside.rest in (ok a, put_rest y w)

abbrev pub tell : {Y : Type 0} → (Y → Y) → Effect Y (Unit {0})
tell f w = (ok tt, put_rest (f w.outside.rest) w)

-- A method of the repository whose error is only printed: whether it has succeeded.
abbrev attempted :
    {Y : Type 0}
    → World (Outside Y)
    → Result Schema.StorageError ((Unit {0}) × Schema.Db)
    → Result ApplicationError Bool × World (Outside Y)
attempted w (ok (u, db)) = (ok true, record w { db = db })
attempted w (err e) = (ok false, w)

unfoldable pub attempt : {Y : Type 0} → Query (Unit {0}) → Effect Y Bool
attempt query w = attempted w (query w.db)

-- `agent_file_application_error`
unfoldable pub agent_file_application_error : AgentFileError → ApplicationError
unfolding invalid
agent_file_application_error (validation e) = Api.invalid e
agent_file_application_error (persona_not_found id) = not_found
agent_file_application_error (persona_referenced id agents) =
    conflict (Detail.persona_used id agents)
agent_file_application_error (runtime_required id) = Api.invalid (
    invalid "runtime_id"
      (str_append "persona " (str_append id " has no runtime; provide --runtime")))
agent_file_application_error standalone_runtime_required =
    Api.invalid (invalid "runtime_id" "is required when no persona is selected")
agent_file_application_error (system_prompt_file path message) =
    Api.invalid (invalid "system_prompt_file" (str_append path (str_append ": " message)))
agent_file_application_error io = internal
agent_file_application_error json = internal
agent_file_application_error (agent_id_mismatch expected found) = internal

abbrev pub carried : {W A : Type 0} → W → Loaded A → Result ApplicationError A × W
carried w (ok a) = (ok a, w)
carried w (err e) = (err (agent_file_application_error e), w)

-- Reading the files, and changing them.
unfoldable pub read_files : {Y A : Type 0} → (AgentFileStore → Loaded A) → Effect Y A
unfolding agent_file_application_error
read_files f w = carried w (f w.outside.files)

abbrev pub written :
    {Y : Type 0}
    → World (Outside Y)
    → Loaded AgentFileStore
    → Result ApplicationError (Unit {0}) × World (Outside Y)
written w (ok files) = (ok tt, put_files files w)
written w (err e) = (err (agent_file_application_error e), w)

unfoldable pub write_files :
    {Y : Type 0} → (AgentFileStore → Loaded AgentFileStore) → Effect Y (Unit {0})
unfolding agent_file_application_error
write_files f w = written w (f w.outside.files)

unfoldable pub join_error : CommunityJoinError → ApplicationError
join_error membership_denied =
    forbidden "this Buzz Server identity is not a member of the community"
join_error (unreachable message) = unavailable (str_append "relay unreachable: " message)
join_error invalid_response = unavailable "relay returned an invalid membership response"

abbrev joined :
    {Y : Type 0}
    → World (Outside Y)
    → Result CommunityJoinError (Unit {0}) × Y
    → Result ApplicationError (Unit {0}) × World (Outside Y)
joined w (ok u, y) = (ok u, put_rest y w)
joined w (err e, y) = (err (join_error e), put_rest y w)

-- A file that is missing is removed already.
unfoldable pub community_agents_purged : {Y : Type 0} → List AgentId → Effect Y (Unit {0})
unfolding remove_agent
community_agents_purged [] = pure tt
community_agents_purged (id ∷ ids) = do
  write_files (λ files. ok (remove_agent id files))
  community_agents_purged ids

module _ {Y : Type 0} (self : LifecycleWake Y) where
  unfoldable pub community_changed : CommunityConfigId → World (Outside Y) → World (Outside Y)
  community_changed id w = put_rest (self.wake_relay (self.wake_auto_join id w.outside.rest)) w

  unfoldable pub community_identity_unreferenced : List ℕ → World (Outside Y) → World (Outside Y)
  unfolding any
  community_identity_unreferenced pubkey w =
      if any (λ r. codes r.owner_pubkey == pubkey) w.db.outbox
      then w
      else put_rest (self.remove_custody pubkey w.outside.rest) w

  unfoldable pub verify_community_join : CommunityConfig → Effect Y (Unit {0})
  unfolding join_error
  verify_community_join community w = joined w (self.verify community w.outside.rest)

  -- `owner_keys_for_community`, as its public key: the secret is the one of the community's identity.
  unfoldable pub owner_keys_for_community : CommunityConfig → Y → Option String
  unfolding to_ascii_lowercase
  owner_keys_for_community community y = elim community.identity_pubkey [
    | none ↦ none
    | some pubkey ↦ elim (self.read_secret pubkey y) [
      | none ↦ none
      | some secret ↦ elim (self.public_key secret) [
        | none ↦ none
        | some key ↦
            if map to_ascii_lowercase (codes key) == map to_ascii_lowercase pubkey
            then some key
            else none
      ]
    ]
  ]

  unfoldable pub agent_public_key : AgentId → World (Outside Y) → Option String
  agent_public_key id w = self.agent_key id w.outside.rest

  unfoldable pub operation_ready : DurableOperation → Effect Y (Unit {0})
  operation_ready operation = do
    sent ← ask (self.send_operation operation.id)
    if sent then pure tt else fail internal
