-- ===== src/Api/Permission.antt =====
-- What the authority of an actor lets pass through the handlers (src/api.rs, src/transport.rs).
use buzz_server.Base.{Option, none, some, String, err, ◌≡◌, ◌∙◌, ◌≢◌, refl, sym, arith}
use buzz_server.Agent.{CommunityConfigId}
use buzz_server.Auth.{
  AuthenticatedPrincipal, Capability, AuthorizationError, draft_submitter, read_community,
  manage_community, read_agent, read_draft, authorize,
}
use buzz_server.Api.{LifecycleRouteRequest, api_authorization}
use buzz_server.Api.Service.{LifecycleApplication}
use buzz_server.Api.Handler
use buzz_server.Api.Router.{route, decide, handle, respond, api_status}

-- What a route asks for.
unfoldable pub required : LifecycleRouteRequest → Capability
required (LifecycleRouteRequest.join_community _) = manage_community
required (LifecycleRouteRequest.update_community _) = manage_community
required (LifecycleRouteRequest.get_community _) = read_community
required LifecycleRouteRequest.list_communities = read_community
required (LifecycleRouteRequest.remove_community _) = manage_community
required (LifecycleRouteRequest.create_persona _) = Capability.create_agent
required (LifecycleRouteRequest.update_persona _) = Capability.update_agent
required (LifecycleRouteRequest.get_persona _) = read_agent
required LifecycleRouteRequest.list_personas = read_agent
required (LifecycleRouteRequest.delete_persona _) = Capability.delete_agent
required (LifecycleRouteRequest.create_agent _) = Capability.create_agent
required (LifecycleRouteRequest.update_agent _) = Capability.update_agent
required (LifecycleRouteRequest.change_agent_state _) = Capability.change_agent_state
required (LifecycleRouteRequest.delete_agent _) = Capability.delete_agent
required (LifecycleRouteRequest.purge_agent _) = Capability.purge_agent
required (LifecycleRouteRequest.get_agent _) = read_agent
required (LifecycleRouteRequest.list_agents _) = read_agent
required (LifecycleRouteRequest.agent_logs _) = read_agent
required (LifecycleRouteRequest.get_operation _) = read_agent
required (LifecycleRouteRequest.await_operation _) = read_agent
required (LifecycleRouteRequest.submit_draft _) = Capability.submit_draft
required (LifecycleRouteRequest.get_draft _) = read_draft
required (LifecycleRouteRequest.promote_draft _) = Capability.promote_draft

-- Reading a draft is decided by its owner, after the draft is read.
abbrev pub ReadsDraft : LifecycleRouteRequest → Type 0
ReadsDraft request = (id : String) × (request ≡ LifecycleRouteRequest.get_draft id)

module _ {W : Type 0} (application : LifecycleApplication W) (actor : AuthenticatedPrincipal)
    (fresh : CommunityConfigId) (e : AuthorizationError) where
  route-denied :
      (request : LifecycleRouteRequest) (w : W)
      → ¬ ReadsDraft request
      → authorize actor (required request) none ≡ err e
      → route application actor fresh request w ≡ (err (api_authorization e), w)
  unfolding route required
  route-denied (LifecycleRouteRequest.join_community x) w other h =
      unfold Handler.join_community in ground arith
  route-denied (LifecycleRouteRequest.update_community x) w other h =
      unfold Handler.update_community in ground arith
  route-denied (LifecycleRouteRequest.get_community x) w other h =
      unfold Handler.get_community in ground arith
  route-denied LifecycleRouteRequest.list_communities w other h =
      unfold Handler.list_communities in ground arith
  route-denied (LifecycleRouteRequest.remove_community x) w other h =
      unfold Handler.remove_community in ground arith
  route-denied (LifecycleRouteRequest.create_persona x) w other h =
      unfold Handler.create_persona in ground arith
  route-denied (LifecycleRouteRequest.update_persona x) w other h =
      unfold Handler.update_persona in ground arith
  route-denied (LifecycleRouteRequest.get_persona x) w other h =
      unfold Handler.get_persona in ground arith
  route-denied LifecycleRouteRequest.list_personas w other h =
      unfold Handler.list_personas in ground arith
  route-denied (LifecycleRouteRequest.delete_persona x) w other h =
      unfold Handler.delete_persona in ground arith
  route-denied (LifecycleRouteRequest.create_agent x) w other h =
      unfold Handler.create_agent in ground arith
  route-denied (LifecycleRouteRequest.update_agent x) w other h =
      unfold Handler.update_agent in ground arith
  route-denied (LifecycleRouteRequest.change_agent_state x) w other h =
      unfold Handler.change_agent_state in ground arith
  route-denied (LifecycleRouteRequest.delete_agent x) w other h =
      unfold Handler.delete_agent Handler.agent_command in ground arith
  route-denied (LifecycleRouteRequest.purge_agent x) w other h =
      unfold Handler.purge_agent Handler.agent_command in ground arith
  route-denied (LifecycleRouteRequest.get_agent x) w other h =
      unfold Handler.get_agent in ground arith
  route-denied (LifecycleRouteRequest.list_agents x) w other h =
      unfold Handler.list_agents in ground arith
  route-denied (LifecycleRouteRequest.agent_logs x) w other h =
      unfold Handler.agent_logs in ground arith
  route-denied (LifecycleRouteRequest.get_operation x) w other h =
      unfold Handler.get_operation in ground arith
  route-denied (LifecycleRouteRequest.await_operation x) w other h =
      unfold Handler.await_operation in ground arith
  route-denied (LifecycleRouteRequest.submit_draft x) w other h =
      unfold Handler.submit_draft in ground arith
  route-denied (LifecycleRouteRequest.get_draft x) w other h = absurd (other (x, refl))
  route-denied (LifecycleRouteRequest.promote_draft x) w other h =
      unfold Handler.promote_draft in ground arith

  -- A request that its actor may not make, and that is not for a draft to be read, is answered with
  -- status 403 and changes nothing: the application is not called, whatever it would do.
  pub handle-denied :
      (request : LifecycleRouteRequest) (w : W)
      → ¬ ReadsDraft request
      → authorize actor (required request) none ≡ err e
      → handle application actor fresh (some request) w ≡ ((403, err (api_authorization e)), w)
  unfolding handle decide respond api_authorization api_status
  handle-denied request w other h = ground (arith, route-denied request w other h)

refused :
    (actor : AuthenticatedPrincipal) (capability : Capability)
    → actor.authority ≡ draft_submitter
    → capability ≢ Capability.submit_draft
    → capability ≢ read_draft
    → authorize actor capability none ≡ err AuthorizationError.forbidden
unfolding authorize
refused actor capability h s r = ground arith

-- What a draft submitter gets and does depends on nothing of the application but its submitting and
-- reading of drafts.
pub handle_draft_submitter :
    {W : Type 0} (a b : LifecycleApplication W) (actor : AuthenticatedPrincipal)
    (fresh : CommunityConfigId) (decoded : Option LifecycleRouteRequest) (w : W)
    → actor.authority ≡ draft_submitter
    → a.submit_draft ≡ b.submit_draft
    → a.get_draft ≡ b.get_draft
    → handle a actor fresh decoded w ≡ handle b actor fresh decoded w
handle_draft_submitter a b actor fresh none w h s g = unfold handle decide in refl
handle_draft_submitter a b actor fresh (some (LifecycleRouteRequest.submit_draft x)) w h s g =
    unfold handle decide route Handler.submit_draft in rw s refl
handle_draft_submitter a b actor fresh (some (LifecycleRouteRequest.get_draft x)) w h s g =
    unfold handle decide route Handler.get_draft in rw g refl
handle_draft_submitter a b actor fresh (some request) w h s g =
    let e = AuthorizationError.forbidden in
    let no : authorize actor (required request) none ≡ err e =
      refused actor (required request) h (unfold required in ground arith)
        (unfold required in ground arith) in
    let other : ¬ ReadsDraft request = λ r. ground arith in
    handle-denied a actor fresh e request w other no
    ∙ sym (handle-denied b actor fresh e request w other no)
