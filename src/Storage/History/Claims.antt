-- ===== src/Storage/History/Claims.antt =====
-- An idempotent command is executed once, whatever calls come between its repetitions
-- (src/storage.rs).
use buzz_server.Base.{
  true, false, String, Option, some, List, [], ◌∷◌, Result, ok, err, ◌≡◌, refl, arith, ap,
  string_eq, inl, inr, Option-cases, All, ==_refl,
}
use buzz_server.Storage.Schema.{
  OperationId, StorageError, DurableOperation, NewAuditRecord, IdempotencyRecord, Db,
}
use buzz_server.Storage.Statements.{
  idempotency_row, insert_operation, insert_agent, update_agent_transaction, insert_audit,
  delete_agent_row,
}
use buzz_server.Storage.Audits
use buzz_server.Storage.Operations
use buzz_server.Storage.Command
use buzz_server.Storage.Command.{AgentCommandMutation, apply_agent_command, replay_command}
use buzz_server.Storage.Command.Commit.{insert_idempotency-ok}
use buzz_server.Storage.Command.Replay.{
  apply_agent_command-cases, apply_agent_command-Committed, operation_row-commit,
  idempotency_row-commit,
}
use buzz_server.Storage.Retention
use buzz_server.Storage.Relay
use buzz_server.Storage.Communities
use buzz_server.Storage.Drafts
use buzz_server.Storage.Boundary
use buzz_server.Storage.Calls.{Call, settle, perform, run_calls}
use buzz_server.Storage.History.Steps.{Later}
use buzz_server.Storage.History.Purges.{complete_purge-Purged, delete_community-CommunityRemoved}
use buzz_server.Storage.History.Methods.{spares, db_of-eq-ok}
use buzz_server.Storage.History.Keys.{
  idempotency_row-same, idempotency_row-insert, idempotency_row-delete,
  idempotency-CommunityRemoved, idempotency-Purged,
}
use buzz_server.Storage.History.Lives.{run_calls-Later}

module _ (scope key : String) where
  idempotency_row-claim :
      (entry : IdempotencyRecord) (a b : Db) (u : OperationId)
      → Operations.claim_idempotency entry a ≡ ok (u, b)
      → (row : IdempotencyRecord) → idempotency_row scope key a ≡ some row
      → idempotency_row scope key b ≡ some row
  unfolding Operations.claim_idempotency
  idempotency_row-claim entry a b u h row k =
      elim (Option-cases (idempotency_row entry.scope entry.key a)) [
        | inl e ↦
            idempotency_row-insert scope key entry a b row
              (ap (λ d. d.idempotency) (insert_idempotency-ok entry a b (ground arith)).0) k
        | inr (claimed, e) ↦ idempotency_row-same scope key a b row (ground arith) k
      ]

  idempotency_row-perform :
      (c : Call) (a b : Db) (row : IdempotencyRecord)
      → perform c a ≡ ok b
      → spares c row.operation_id ≡ true
      → idempotency_row scope key a ≡ some row
      → idempotency_row scope key b ≡ some row
  unfolding perform
  idempotency_row-perform (Call.put_community c now) a b row h s k =
      idempotency_row-same scope key a b row (unfold Communities.put_community in ground arith) k
  idempotency_row-perform (Call.delete_community c) a b row h s k =
      idempotency_row-same scope key a b row (unfold Communities.delete_community in ground arith) k
  idempotency_row-perform (Call.delete_community_with_deleted_agents draws c now) a b row h s k =
      let (ids, e) =
        db_of-eq-ok (Communities.delete_community_with_deleted_agents draws c now a) h in
      idempotency_row-same scope key a b row
        (idempotency-CommunityRemoved (delete_community-CommunityRemoved draws c now a b ids e)) k
  idempotency_row-perform (Call.put_agent spec now) a b row h s k =
      idempotency_row-same scope key a b row
        (unfold Retention.put_agent insert_agent update_agent_transaction in ground arith) k
  idempotency_row-perform (Call.remove_agent agent) a b row h s k =
      idempotency_row-same scope key a b row
        (unfold Retention.remove_agent delete_agent_row in ground arith) k
  idempotency_row-perform (Call.complete_purge agent target now audit) a b row h s k =
      let (u, e) = db_of-eq-ok (Retention.complete_purge agent target now audit a) h in
      idempotency_row-same scope key a b row
        (idempotency-Purged (complete_purge-Purged agent target now audit a b u e)) k
  idempotency_row-perform (Call.create_operation operation) a b row h s k =
      idempotency_row-same scope key a b row
        (unfold Operations.create_operation insert_operation in ground arith) k
  idempotency_row-perform (Call.delete_operation target) a b row h s k =
      idempotency_row-delete scope key target a b row
        (unfold Operations.delete_operation in ground arith) (ground arith) k
  idempotency_row-perform (Call.transition_operation target next code now) a b row h s k =
      idempotency_row-same scope key a b row
        (unfold Operations.transition_operation Operations.set_status in ground arith) k
  idempotency_row-perform (Call.claim_idempotency entry) a b row h s k =
      let (u, e) = db_of-eq-ok (Operations.claim_idempotency entry a) h in
      idempotency_row-claim entry a b u e row k
  idempotency_row-perform (Call.apply_agent_command operation entry mutation draft audit) a b row h
        s k =
      let (r, e) =
        db_of-eq-ok (Command.apply_agent_command operation entry mutation draft audit a) h in
      elim (apply_agent_command-cases operation entry mutation draft audit a b r e) [
        | inl same ↦ idempotency_row-same scope key a b row (ap (λ d. d.idempotency) same) k
        | inr c ↦
            idempotency_row-insert scope key (record entry { operation_id = operation.id }) a b row
              c.idempotency k
      ]
  idempotency_row-perform (Call.append_audit entry) a b row h s k =
      idempotency_row-same scope key a b row
        (unfold Audits.append_audit insert_audit in ground arith) k
  idempotency_row-perform (Call.put_draft draft now) a b row h s k =
      idempotency_row-same scope key a b row (unfold Drafts.put_draft in ground arith) k
  idempotency_row-perform (Call.delete_draft draft) a b row h s k =
      idempotency_row-same scope key a b row (unfold Drafts.delete_draft in ground arith) k
  idempotency_row-perform (Call.apply_draft_command draft s1 k1 hash now audit) a b row h s k =
      idempotency_row-same scope key a b row (unfold Drafts.apply_draft_command in ground arith) k
  idempotency_row-perform (Call.append_redacted_log agent entry) a b row h s k =
      idempotency_row-same scope key a b row (unfold Drafts.append_redacted_log in ground arith) k
  idempotency_row-perform (Call.claim_nip98_replay event expires now) a b row h s k =
      idempotency_row-same scope key a b row (unfold Boundary.claim_nip98_replay in ground arith) k
  idempotency_row-perform (Call.ensure_auto_join_enabled_at agent now) a b row h s k =
      idempotency_row-same scope key a b row
        (unfold Boundary.ensure_auto_join_enabled_at in ground arith) k
  idempotency_row-perform (Call.clear_auto_join_enabled_at agent) a b row h s k =
      idempotency_row-same scope key a b row
        (unfold Boundary.clear_auto_join_enabled_at in ground arith) k
  idempotency_row-perform (Call.record_relay_projection kind subject target now) a b row h s k =
      idempotency_row-same scope key a b row (unfold Relay.record_relay_projection in ground arith)
        k
  idempotency_row-perform (Call.enqueue_relay_publication n action target subject now) a b row h s
        k =
      idempotency_row-same scope key a b row
        (unfold Relay.enqueue_relay_publication in ground arith) k
  idempotency_row-perform (Call.complete_relay_publication n) a b row h s k =
      idempotency_row-same scope key a b row
        (unfold Relay.complete_relay_publication in ground arith) k
  idempotency_row-perform (Call.fail_relay_publication n error now) a b row h s k =
      idempotency_row-same scope key a b row (unfold Relay.fail_relay_publication in ground arith) k
  idempotency_row-perform (Call.remove_relay_projection community kind subject) a b row h s k =
      idempotency_row-same scope key a b row (unfold Relay.remove_relay_projection in ground arith)
        k

  pub idempotency_row-run_calls :
      (a : Db) (cs : List Call) (row : IdempotencyRecord)
      → All (λ c. spares c row.operation_id ≡ true) cs
      → idempotency_row scope key a ≡ some row
      → idempotency_row scope key (run_calls a cs) ≡ some row
  unfolding run_calls
  idempotency_row-run_calls a [] row s h = h
  idempotency_row-run_calls a (c ∷ cs) row s h =
      idempotency_row-run_calls (settle a (perform c a)) cs row s.1 (go (perform c a) refl)
    where
      go :
          (r : Result StorageError Db)
          → perform c a ≡ r
          → idempotency_row scope key (settle a r) ≡ some row
      go (ok b) e = idempotency_row-perform c a b row e s.0 h
      go (err x) e = h

module _ (operation : DurableOperation) (entry : IdempotencyRecord)
    (mutation : AgentCommandMutation) (draft : Option String) (audit : NewAuditRecord)
    (a b : Db) where
  -- A command commits, and then any calls run that do not delete its operation. The command
  -- repeated under the same scope, key and request hash, whatever else it asks for, changes nothing
  -- and answers with that operation in its later state, marked as a replay.
  pub apply_agent_command-once :
      (r o : DurableOperation) (other : IdempotencyRecord) (m : AgentCommandMutation)
      (d : Option String) (n : NewAuditRecord) (cs : List Call)
      → apply_agent_command operation entry mutation draft audit a ≡ ok ((r, false), b)
      → All (λ c. spares c operation.id ≡ true) cs
      → other.scope ≡ entry.scope
      → other.key ≡ entry.key
      → other.request_hash ≡ entry.request_hash
      → (o' : DurableOperation) × Later operation o'
        × (apply_agent_command o other m d n (run_calls b cs) ≡ ok ((o', true), run_calls b cs))
  unfolding apply_agent_command replay_command
  apply_agent_command-once r o other m d n cs h spared s k q =
      let c = (apply_agent_command-Committed operation entry mutation draft audit a b r h).1 in
      let (o', stored, later) =
        run_calls-Later operation.id b cs spared operation
          (operation_row-commit operation entry mutation draft audit a b c) in
      let row : IdempotencyRecord = record entry { operation_id = operation.id } in
      let kept : idempotency_row other.scope other.key (run_calls b cs) ≡ some row =
        rw (s, k)
          (idempotency_row-run_calls entry.scope entry.key b cs row spared
            (idempotency_row-commit operation entry mutation draft audit a b c)) in
      let same = ==_refl entry.request_hash in (o', later, ground arith)
