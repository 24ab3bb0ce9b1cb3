-- ===== src/Api/Router.antt =====
-- src/transport.rs, `LifecycleJsonRouter`: a decoded route is handed to its handler. The JSON of
-- requests and of responses is serde_json's.
use buzz_server.Base.{ℕ, Option, none, some, Result, ok, err}
use buzz_server.Base.Action.{◌>>=◌, pure, fail}
use buzz_server.Agent.{CommunityConfigId}
use buzz_server.Auth.{AuthenticatedPrincipal}
use buzz_server.Storage.Schema.{ErrorCode, invalid_request}
use buzz_server.Api.{LifecycleRouteRequest, LifecycleRouteResource, ApiError, ApiMessage, plain}
use buzz_server.Api.Service.{LifecycleApplication}
use buzz_server.Api.Handler
use buzz_server.Api.Handler.{Handled}

unfoldable pub api_status : ErrorCode → ℕ
api_status ErrorCode.invalid_request = 400
api_status ErrorCode.unauthorized = 401
api_status ErrorCode.forbidden = 403
api_status ErrorCode.not_found = 404
api_status ErrorCode.conflict = 409
api_status ErrorCode.unsupported = 501
api_status ErrorCode.unavailable = 503
api_status ErrorCode.internal = 500

-- The status and the body of the response.
unfoldable pub respond :
    {W : Type 0}
    → Result ApiError LifecycleRouteResource × W
    → (ℕ × Result ApiError LifecycleRouteResource) × W
unfolding api_status
respond (ok resource, w) = ((200, ok resource), w)
respond (err error, w) = ((api_status error.code, err error), w)

-- `.map(LifecycleRouteResource::…)`
abbrev pub answer :
    {W A : Type 0} → (A → LifecycleRouteResource) → Handled W A → Handled W LifecycleRouteResource
answer f m = do value ← m; pure (f value)

module _ {W : Type 0} (application : LifecycleApplication W) (actor : AuthenticatedPrincipal)
    (fresh : CommunityConfigId) where
  -- The match on a decoded request.
  unfoldable pub route : LifecycleRouteRequest → Handled W LifecycleRouteResource
  route (LifecycleRouteRequest.join_community x) =
      answer LifecycleRouteResource.community (Handler.join_community application actor fresh x)
  route (LifecycleRouteRequest.update_community x) =
      answer LifecycleRouteResource.community (Handler.update_community application actor x)
  route (LifecycleRouteRequest.get_community x) =
      answer LifecycleRouteResource.community (Handler.get_community application actor x)
  route LifecycleRouteRequest.list_communities =
      answer LifecycleRouteResource.communities (Handler.list_communities application actor)
  route (LifecycleRouteRequest.remove_community x) =
      answer LifecycleRouteResource.community (Handler.remove_community application actor x)
  route (LifecycleRouteRequest.create_persona x) =
      answer LifecycleRouteResource.persona (Handler.create_persona application actor x)
  route (LifecycleRouteRequest.update_persona x) =
      answer LifecycleRouteResource.persona (Handler.update_persona application actor x)
  route (LifecycleRouteRequest.get_persona x) =
      answer LifecycleRouteResource.persona (Handler.get_persona application actor x)
  route LifecycleRouteRequest.list_personas =
      answer LifecycleRouteResource.personas (Handler.list_personas application actor)
  route (LifecycleRouteRequest.delete_persona x) =
      answer LifecycleRouteResource.persona (Handler.delete_persona application actor x)
  route (LifecycleRouteRequest.create_agent x) =
      answer LifecycleRouteResource.operation (Handler.create_agent application actor x)
  route (LifecycleRouteRequest.update_agent x) =
      answer LifecycleRouteResource.operation (Handler.update_agent application actor x)
  route (LifecycleRouteRequest.change_agent_state x) =
      answer LifecycleRouteResource.operation (Handler.change_agent_state application actor x)
  route (LifecycleRouteRequest.delete_agent x) =
      answer LifecycleRouteResource.operation (Handler.delete_agent application actor x)
  route (LifecycleRouteRequest.purge_agent x) =
      answer LifecycleRouteResource.operation (Handler.purge_agent application actor x)
  route (LifecycleRouteRequest.get_agent x) =
      answer LifecycleRouteResource.agent (Handler.get_agent application actor x)
  route (LifecycleRouteRequest.list_agents x) =
      answer LifecycleRouteResource.agents (Handler.list_agents application actor x)
  route (LifecycleRouteRequest.agent_logs x) =
      answer LifecycleRouteResource.logs (Handler.agent_logs application actor x)
  route (LifecycleRouteRequest.get_operation x) =
      answer LifecycleRouteResource.operation (Handler.get_operation application actor x)
  route (LifecycleRouteRequest.await_operation x) =
      answer LifecycleRouteResource.operation (Handler.await_operation application actor x)
  route (LifecycleRouteRequest.submit_draft x) =
      answer LifecycleRouteResource.draft (Handler.submit_draft application actor x)
  route (LifecycleRouteRequest.get_draft x) =
      answer LifecycleRouteResource.draft (Handler.get_draft application actor x)
  route (LifecycleRouteRequest.promote_draft x) =
      answer LifecycleRouteResource.operation (Handler.promote_draft application actor x)

  unfoldable pub decide : Option LifecycleRouteRequest → Handled W LifecycleRouteResource
  decide none =
      fail (plain invalid_request (ApiMessage.text "request body is not a valid lifecycle route"))
  decide (some request) = route request

  -- `LifecycleJsonRouter::handle`, from what serde_json decodes to the status and the result.
  unfoldable pub handle :
      Option LifecycleRouteRequest → W → (ℕ × Result ApiError LifecycleRouteResource) × W
  unfolding respond
  handle decoded w = respond (decide decoded w)
