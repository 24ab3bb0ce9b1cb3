-- ===== src/Application/Drafts.antt =====
-- src/application.rs: drafts are submitted, read and promoted.
use buzz_server.Base.{none, some, String}
use Prim.Native.String.{◌++◌ as str_append}
use buzz_server.Base.Int.{ℤ}
use buzz_server.Base.Action.{◌>>=◌, ◌>>◌, pure, lift}
use buzz_server.Auth.{AuthenticatedPrincipal, ownership_key}
use buzz_server.Storage.Schema.{DraftResource, NewAuditRecord}
use buzz_server.Storage.Drafts.{apply_draft_command, get_draft}
use buzz_server.Api
use buzz_server.Api.{
  SubmitDraftRequest, PromoteDraftRequest, OperationResource, ApplicationError, not_found,
}
use buzz_server.Api.Requests.{validate_create}
use buzz_server.Api.Service.{Call}
use buzz_server.Application.{
  World, SqliteLifecycleApplication, Payload, principal_scope, authentication_method, store, load,
  found, clock, new_id, request_hash, audit_actor,
}
use buzz_server.Application.Agents.{create_from}

module _ {X : Type 0} (self : SqliteLifecycleApplication X) where
  unfoldable pub draft_audit :
      AuthenticatedPrincipal → SubmitDraftRequest → String → ℤ → NewAuditRecord
  draft_audit actor request draft_id now = record {
    occurred_at = now;
    actor_principal = audit_actor self actor.principal;
    authentication_method = authentication_method actor.principal;
    community_config_id = some request.agent.community_config_id;
    operation_id = none;
    correlation_id = request.metadata.correlation_id;
    idempotency_key = some request.metadata.idempotency_key;
    action = "draft.submit";
    subject_type = "draft";
    subject_id = some draft_id;
    outcome = "accepted";
    redacted_detail = none;
  }

  unfoldable pub submit_draft :
      AuthenticatedPrincipal → SubmitDraftRequest → Call (World X) DraftResource
  submit_draft actor request = do
    lift Api.invalid (validate_create request.agent)
    fresh ← new_id self
    let draft : DraftResource = record {
      id = str_append "draft_" (self.simple fresh);
      owner = ownership_key actor.principal;
      agent = request.agent;
    }
    hash ← request_hash self (Payload.submit_request request)
    now ← clock self
    audited ← clock self
    committed ← store (
        apply_draft_command draft (principal_scope actor.principal) request.metadata.idempotency_key
          hash now (draft_audit actor request draft.id audited))
    pure committed.0

  unfoldable pub read_draft : String → Call (World X) DraftResource
  read_draft id = do row ← load (get_draft id); found not_found row

  unfoldable pub promote_draft :
      AuthenticatedPrincipal → PromoteDraftRequest → Call (World X) OperationResource
  promote_draft actor request = do
    draft ← read_draft request.draft_id
    lift Api.invalid (validate_create draft.agent)
    fresh ← new_id self
    agent ← self.effects.prepare_agent_create fresh draft.agent
    create_from self actor request.metadata (Payload.promote_request request)
        (some request.draft_id) draft.agent agent
