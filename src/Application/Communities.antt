-- ===== src/Application/Communities.antt =====
-- src/application.rs: communities are joined, renamed and removed.
use buzz_server.Base.{
  ℕ, Bool, List, Option, none, some, any, ◌==◌, nat_eq, option_eq, if◌then◌else◌,
}
use buzz_server.Base.Compare.{list_eq}
use buzz_server.Base.Action.{◌>>=◌, ◌>>◌, pure, lift}
use buzz_server.Agent.{CommunityConfigId}
use buzz_server.Community
use buzz_server.Community.{CommunityConfig, new, with_identity_pubkey}
use buzz_server.Storage.Schema.{Db}
use buzz_server.Storage.Communities.{
  Draws, put_community, get_community, list_communities, delete_community_with_deleted_agents,
}
use buzz_server.Api
use buzz_server.Api.{JoinCommunityRequest, UpdateCommunityRequest, ApplicationError, not_found}
use buzz_server.Api.Service.{Call}
use buzz_server.Application.{
  World, SqliteLifecycleApplication, store, load, found, perform, clock, new_id,
}

-- `candidate.identity_pubkey.as_deref() == Some(pubkey)` of some community that is left.
unfoldable pub is_referenced : List ℕ → Db → Bool
unfolding any
is_referenced pubkey db = any (λ c. c.identity_pubkey == some pubkey) (list_communities db)

module _ {X : Type 0} (self : SqliteLifecycleApplication X) where
  unfoldable pub join_community : JoinCommunityRequest → Call (World X) CommunityConfig
  join_community request = do
    fresh ← new_id self
    bare ← lift Api.invalid (new fresh request.display_name request.relay_url)
    community ← lift Api.invalid (with_identity_pubkey bare request.identity_pubkey)
    self.effects.verify_community_join community
    now ← clock self
    store (put_community community now)
    perform (self.effects.community_changed community.id)
    pure community

  unfoldable pub read_community : CommunityConfigId → Call (World X) CommunityConfig
  read_community id = do row ← load (get_community id); found not_found row

  unfoldable pub update_community : UpdateCommunityRequest → Call (World X) CommunityConfig
  update_community request = do
    current ← read_community request.community_id
    let community = record current { display_name = request.display_name }
    lift Api.invalid (Community.validate community)
    now ← clock self
    store (put_community community now)
    pure community

  unfoldable pub read_communities : Call (World X) (List CommunityConfig)
  read_communities = load list_communities

  -- The identity of a community that is gone is given up, unless another community has it.
  unfoldable pub release_identity : Option (List ℕ) → Call (World X) (Unit {0})
  release_identity none = pure tt
  release_identity (some pubkey) = do
    still_referenced ← load (is_referenced pubkey)
    if still_referenced
        then pure tt
        else perform (self.effects.community_identity_unreferenced pubkey)

  unfoldable pub remove_community : Draws → CommunityConfigId → Call (World X) CommunityConfig
  remove_community draws id = do
    community ← read_community id
    now ← clock self
    purged_agents ← store (delete_community_with_deleted_agents draws id now)
    self.effects.community_agents_purged purged_agents
    perform (self.effects.community_changed id)
    release_identity community.identity_pubkey
    pure community
