-- ===== src/Storage/History/Methods.antt =====
-- Every method of src/storage.rs that writes keeps the history of an operation, unless it deletes
-- that very operation.
use buzz_server.Base.{
  Bool, true, not, Result, ok, err, ◌≡◌, arith, ap, ◌==◌, nat_eq, inl, inr, ok_or-eq-ok,
  fail_if-eq-ok, subst,
}
use buzz_server.Operation.{can_transition_to}
use buzz_server.Storage.Schema.{
  OperationId, StorageError, not_found, DurableOperation, IdempotencyRecord, Db,
}
use buzz_server.Storage.Statements.{
  operation_row, insert_idempotency, delete_agent_row, delete_operation_row, insert_agent,
  update_agent_transaction, insert_audit,
}
use buzz_server.Storage.Audits
use buzz_server.Storage.Operations
use buzz_server.Storage.Command
use buzz_server.Storage.Command.Commit.{Committed}
use buzz_server.Storage.Command.Replay.{apply_agent_command-cases}
use buzz_server.Storage.Retention
use buzz_server.Storage.Relay
use buzz_server.Storage.Communities
use buzz_server.Storage.Drafts
use buzz_server.Storage.Boundary
use buzz_server.Storage.Calls.{Call, db_of, perform}
use buzz_server.Storage.History.Steps.{
  Keeps, Keeps-same, Keeps-insert, Keeps-set_status, Keeps-delete_agent_row,
  Keeps-delete_operation_row,
}
use buzz_server.Storage.History.Purges.{
  complete_purge-Purged, Keeps-complete_purge, delete_community-CommunityRemoved,
  Keeps-delete_community, operations-insert_operation,
}

-- The call does not delete the operation.
abbrev pub spares : Call → OperationId → Bool
spares (Call.delete_operation target) id = not (id == target)
spares _ id = true

pub db_of-eq-ok {ℓ} :
    {A : Type ℓ} (r : Result StorageError (A × Db)) {b : Db}
    → db_of r ≡ ok b
    → (x : A) × (r ≡ ok (x, b))
db_of-eq-ok (ok (x, d)) h = (x, ground arith)
db_of-eq-ok (err e) h = cc

module _ (id : OperationId) where
  transition_operation-Keeps :
      (target : OperationId) (next : _) (code : _) (now : _) (a b : Db) (u : Unit {0})
      → Operations.transition_operation target next code now a ≡ ok (u, b)
      → Keeps id a b
  unfolding Operations.transition_operation
  transition_operation-Keeps target next code now a b u h =
      let (current, e1, h1) = ok_or-eq-ok (operation_row target a) not_found _ h in
      let (e2, h2) = fail_if-eq-ok (not (can_transition_to current.status next)) _ _ h1 in
      let result : Operations.set_status target next code now a ≡ b = ground arith in
      subst (Keeps id a) result
        (Keeps-set_status id target next code now a current e1 (ground arith))

  Committed-Keeps :
      {operation : DurableOperation} {entry : IdempotencyRecord} {mutation : _} {audit : _}
      (a b : Db)
      → Committed operation entry mutation audit a b
      → Keeps id a b
  Committed-Keeps {operation} a b c = Keeps-insert id operation a b c.operations

  pub perform-Keeps : (c : Call) (a b : Db) → spares c id ≡ true → perform c a ≡ ok b → Keeps id a b
  unfolding perform
  perform-Keeps (Call.put_community c now) a b s h =
      Keeps-same id a b (unfold Communities.put_community in ground arith)
  perform-Keeps (Call.delete_community c) a b s h =
      Keeps-same id a b (unfold Communities.delete_community in ground arith)
  perform-Keeps (Call.delete_community_with_deleted_agents draws c now) a b s h =
      let (ids, e) =
        db_of-eq-ok (Communities.delete_community_with_deleted_agents draws c now a) h in
      Keeps-delete_community id draws c now a b ids
        (delete_community-CommunityRemoved draws c now a b ids e)
  perform-Keeps (Call.put_agent spec now) a b s h =
      Keeps-same id a b
        (unfold Retention.put_agent insert_agent update_agent_transaction in ground arith)
  perform-Keeps (Call.remove_agent agent) a b s h =
      let result : delete_agent_row agent a ≡ b = unfold Retention.remove_agent in ground arith in
      subst (Keeps id a) result (Keeps-delete_agent_row id agent a)
  perform-Keeps (Call.complete_purge agent target now audit) a b s h =
      let (u, e) = db_of-eq-ok (Retention.complete_purge agent target now audit a) h in
      Keeps-complete_purge id agent target now audit a b
        (complete_purge-Purged agent target now audit a b u e)
  perform-Keeps (Call.create_operation operation) a b s h = Keeps-insert id operation a b (
      operations-insert_operation operation a b
        (unfold Operations.create_operation in ground arith))
  perform-Keeps (Call.delete_operation target) a b s h =
      let result : delete_operation_row target a ≡ b =
        unfold Operations.delete_operation in ground arith in
      subst (Keeps id a) result (Keeps-delete_operation_row id target a (ground arith))
  perform-Keeps (Call.transition_operation target next code now) a b s h =
      let (u, e) = db_of-eq-ok (Operations.transition_operation target next code now a) h in
      transition_operation-Keeps target next code now a b u e
  perform-Keeps (Call.claim_idempotency entry) a b s h =
      Keeps-same id a b (unfold Operations.claim_idempotency insert_idempotency in ground arith)
  perform-Keeps (Call.apply_agent_command operation entry mutation draft audit) a b s h =
      let (r, e) =
        db_of-eq-ok (Command.apply_agent_command operation entry mutation draft audit a) h in
      elim (apply_agent_command-cases operation entry mutation draft audit a b r e) [
        | inl same ↦ Keeps-same id a b (ap (λ d. d.operations) same)
        | inr c ↦ Committed-Keeps a b c
      ]
  perform-Keeps (Call.append_audit entry) a b s h =
      Keeps-same id a b (unfold Audits.append_audit insert_audit in ground arith)
  perform-Keeps (Call.put_draft draft now) a b s h =
      Keeps-same id a b (unfold Drafts.put_draft in ground arith)
  perform-Keeps (Call.delete_draft draft) a b s h =
      Keeps-same id a b (unfold Drafts.delete_draft in ground arith)
  perform-Keeps (Call.apply_draft_command draft scope key hash now audit) a b s h =
      Keeps-same id a b (unfold Drafts.apply_draft_command in ground arith)
  perform-Keeps (Call.append_redacted_log agent entry) a b s h =
      Keeps-same id a b (unfold Drafts.append_redacted_log in ground arith)
  perform-Keeps (Call.claim_nip98_replay event expires now) a b s h =
      Keeps-same id a b (unfold Boundary.claim_nip98_replay in ground arith)
  perform-Keeps (Call.ensure_auto_join_enabled_at agent now) a b s h =
      Keeps-same id a b (unfold Boundary.ensure_auto_join_enabled_at in ground arith)
  perform-Keeps (Call.clear_auto_join_enabled_at agent) a b s h =
      Keeps-same id a b (unfold Boundary.clear_auto_join_enabled_at in ground arith)
  perform-Keeps (Call.record_relay_projection kind subject scope now) a b s h =
      Keeps-same id a b (unfold Relay.record_relay_projection in ground arith)
  perform-Keeps (Call.enqueue_relay_publication n action scope subject now) a b s h =
      Keeps-same id a b (unfold Relay.enqueue_relay_publication in ground arith)
  perform-Keeps (Call.complete_relay_publication n) a b s h =
      Keeps-same id a b (unfold Relay.complete_relay_publication in ground arith)
  perform-Keeps (Call.fail_relay_publication n error now) a b s h =
      Keeps-same id a b (unfold Relay.fail_relay_publication in ground arith)
  perform-Keeps (Call.remove_relay_projection community kind subject) a b s h =
      Keeps-same id a b (unfold Relay.remove_relay_projection in ground arith)
