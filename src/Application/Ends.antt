-- ===== src/Application/Ends.antt =====
-- What `complete_operation` of src/application.rs has done when it answers.
use buzz_server.Base.{
  ◌+◌, ◌%◌, ◌^◌, true, false, ◌&&◌, Option, none, some, String, ok, ◌≡◌, ◌∙◌, sym, ap, subst, refl,
  arith, Bool-cases, inl, inr, some-injective, ◌==◌, nat_eq, if◌then◌else◌,
}
use buzz_server.Base.Action.{continue-eq-ok}
use buzz_server.Operation.{
  OperationStatus, is_terminal, succeeded, status_eq, purge_agent, kind_eq, can_transition_to,
}
use buzz_server.Storage.Schema.{Detail, OperationId, ErrorCode, DurableOperation, NewAuditRecord}
use buzz_server.Storage.Statements.{operation_row}
use buzz_server.Storage.Operations.{get_operation, set_status, transition_operation}
use buzz_server.Storage.Retention.{get_agent, complete_purge}
use buzz_server.Storage.History.Ends.{complete_purge_gone}
use buzz_server.Application.{World, SqliteLifecycleApplication, clock, store, found}
use buzz_server.Api
use buzz_server.Api.{ApplicationError, conflict}
use buzz_server.Application.Completion.{
  is_end, reconciler_audit, audit_reconciliation, finish_purge, finish, complete_operation,
}
use buzz_server.Application.Once.{operation_row-id, db-clock, store-ok}
use buzz_server.Application.Written.{
  transition_operation-ok, Audited, Audited-along, set_status-after, audits-set_status,
  generation-clock, generation-store, notify-ok, audit_reconciliation-ok, purge_step,
}

-- The outcome that the audit gives.
abbrev pub outcome_of : OperationStatus → String
outcome_of status = if status == succeeded then "succeeded" else "failed"

module _ {X : Type 0} where
  -- The end of an operation: it was stored and could end so, it is stored as ended, one audit record
  -- of the end is written for it, and the waiting threads are notified.
  pub record Ended (id : OperationId) (status : OperationStatus) (w w' : World X) : Type 0 where
    pub before : DurableOperation
    pub stored : operation_row id w.db ≡ some before
    pub allowed : can_transition_to before.status status ≡ true
    pub after : DurableOperation
    pub ended : operation_row id w'.db ≡ some after
    pub status_ended : after.status ≡ status
    pub entry : NewAuditRecord
    pub audited : Audited entry w.db w'.db
    pub action : entry.action ≡ "operation.complete"
    pub outcome : entry.outcome ≡ outcome_of status
    pub subject : entry.operation_id ≡ some before.id
    pub notified : w'.generation ≡ (w.generation + 1) % 2 ^ 64

  pub found-ok :
      {A : Type 0} (x : ApplicationError) (o : Option A) (w w' : World X) (a : A)
      → found x o w ≡ (ok a, w')
      → (o ≡ some a) × (w' ≡ w)
  found-ok x none w w' a h = absurd (ground arith)
  found-ok x (some b) w w' a h = ground arith

module _ {X : Type 0} (self : SqliteLifecycleApplication X) where
  finish-Ended :
      (id : OperationId) (operation : DurableOperation) (status : OperationStatus)
      (code : Option ErrorCode) (w w' : World X)
      → operation_row id w.db ≡ some operation
      → finish self id operation status code w ≡ (ok tt, w')
      → Ended id status w w'
  unfolding finish
  finish-Ended id operation status code w w' e h =
      let (now, w1, e1, h1) = continue-eq-ok _ (clock self w) h in
      let (u, w2, e2, h2) =
        continue-eq-ok _ (store (transition_operation id status code now) w1) h1 in
      let (v, w3, e3, h3) =
        continue-eq-ok _
          (audit_reconciliation self operation "operation.complete" (outcome_of status) w2) h2 in
      let same = db-clock self w w1 now e1 in
      let (o, found, allowed, result) =
        transition_operation-ok id status code now w1.db w2.db (store-ok _ w1 w2 u e2) in
      let (gen, rows, (entry, audited, action, outcome, subject)) =
        audit_reconciliation-ok self operation "operation.complete" (outcome_of status) w2 w3 e3 in
      let (db, notified) = notify-ok w3 w' h3 in
      let found' : operation_row id w.db ≡ some o = ap (operation_row id) (sym same) ∙ found in
      record {
        before = o;
        stored = found';
        allowed = allowed;
        after = record o { status = status; error_code = code; updated_at = now };
        ended =
            set_status-after id status code now o w1.db w2.db w'.db found result
              (ap (λ d. d.operations) db ∙ rows);
        status_ended = refl;
        entry = entry;
        audited =
            audits-set_status id status code now entry w.db w2.db w'.db
              (result ∙ ap (set_status id status code now) same)
              (Audited-along entry w2.db w3.db w2.db w'.db refl (sym db) audited);
        action = action;
        outcome = outcome;
        subject =
            subject
            ∙ ap (λ (x : DurableOperation). some x.id)
                (some-injective operation o (sym e ∙ found'));
        notified =
            notified
            ∙ ap (λ n. (n + 1) % 2 ^ 64)
                (gen
                  ∙ generation-store (transition_operation id status code now) w1 w2 u e2
                  ∙ generation-clock self w w1 now e1);
      }

  finish_purge-Ended :
      (id : OperationId) (operation : DurableOperation) (w w' : World X)
      → operation_row id w.db ≡ some operation
      → finish_purge self id operation w ≡ (ok tt, w')
      → Ended id succeeded w w'
  unfolding finish_purge
  finish_purge-Ended id operation w w' e h =
      let none_left = conflict (Detail.text "purge operation has no agent") in
      let (agent_id, w1, e1, h1) = continue-eq-ok _ (found none_left operation.agent_id w) h in
      let (agent, w2, e2, h2) =
        continue-eq-ok _ (found Api.not_found (get_agent agent_id w1.db) w1) h1 in
      let (now, w3, e3, h3) = continue-eq-ok _ (clock self w2) h2 in
      let (audited, w4, e4, h4) = continue-eq-ok _ (clock self w3) h3 in
      let entry =
        reconciler_audit self (record operation { id = id; agent_id = some agent_id })
          (some agent.community_config_id) "operation.complete" "succeeded" audited in
      let (u, w5, e5, h5) = continue-eq-ok _ (store (complete_purge agent_id id now entry) w4) h4 in
      let start : w2 ≡ w =
        (found-ok Api.not_found (get_agent agent_id w1.db) w1 w2 agent e2).1
        ∙ (found-ok none_left operation.agent_id w w1 agent_id e1).1 in
      let same : w4.db ≡ w.db =
        db-clock self w3 w4 audited e4 ∙ db-clock self w2 w3 now e3 ∙ ap (λ x. x.db) start in
      let gen : w5.generation ≡ w.generation =
        generation-store (complete_purge agent_id id now entry) w4 w5 u e5
        ∙ generation-clock self w3 w4 audited e4
        ∙ generation-clock self w2 w3 now e3
        ∙ ap (λ x. x.generation) start in
      let ran = store-ok (complete_purge agent_id id now entry) w4 w5 u e5 in
      let (o, stored, allowed, written) = purge_step id agent_id entry now w4.db w5.db ran in
      let (db, notified) = notify-ok w5 w' h5 in
      let (_, _, _, after, ended, status, _, _) =
        complete_purge_gone agent_id id now entry w4.db w5.db ran in
      let stored' : operation_row id w.db ≡ some o = ap (operation_row id) (sym same) ∙ stored in
      record {
        before = o;
        stored = stored';
        allowed = allowed;
        after = after;
        ended = ap (operation_row id) db ∙ ended;
        status_ended = status;
        entry = entry;
        audited = Audited-along entry w4.db w5.db w.db w'.db same (sym db) written;
        action = unfold reconciler_audit in refl;
        outcome = unfold reconciler_audit in refl;
        subject =
            (unfold reconciler_audit in ap (λ n. some n) (sym (operation_row-id id w.db stored')));
        notified = notified ∙ ap (λ n. (n + 1) % 2 ^ 64) gen;
      }

  -- An operation that is completed was stored and could take the status, which is terminal: it is now
  -- stored with that status, one audit record tells of the end and its outcome, and the threads that
  -- wait are notified.
  pub complete_operation-Ended :
      (id : OperationId) (status : OperationStatus) (code : Option ErrorCode) (w w' : World X)
      → complete_operation self id status code w ≡ (ok tt, w')
      → (is_terminal status ≡ true) × Ended id status w w'
  complete_operation-Ended id status code w w' h = elim (Bool-cases (is_end status)) [
    | inr e ↦ absurd (unfold complete_operation in ground arith)
    | inl e ↦ (unfold is_terminal in ground arith, ends (get_operation id w.db) refl e)
  ]
    where
      as_purge :
          (operation : DurableOperation)
          → get_operation id w.db ≡ some operation
          → is_end status ≡ true
          → (status == succeeded && operation.kind == purge_agent) ≡ true
          → complete_operation self id status code w ≡ finish_purge self id operation w
      as_purge operation r e t = unfold complete_operation in rw (e, r, t) refl

      as_end :
          (operation : DurableOperation)
          → get_operation id w.db ≡ some operation
          → is_end status ≡ true
          → (status == succeeded && operation.kind == purge_agent) ≡ false
          → complete_operation self id status code w ≡ finish self id operation status code w
      as_end operation r e t = unfold complete_operation in rw (e, r, t) refl

      ends :
          (row : Option DurableOperation)
          → get_operation id w.db ≡ row
          → is_end status ≡ true
          → Ended id status w w'
      ends none r e = absurd (unfold complete_operation in ground arith)
      ends (some operation) r e =
          let stored : operation_row id w.db ≡ some operation = unfold get_operation in r in
          elim (Bool-cases (status == succeeded && operation.kind == purge_agent)) [
            | inl t ↦
                let same : succeeded ≡ status = ground arith in
                subst (λ s. Ended id s w w') same
                  (finish_purge-Ended id operation w w' stored (sym (as_purge operation r e t) ∙ h))
            | inr t ↦
                finish-Ended id operation status code w w' stored (sym (as_end operation r e t) ∙ h)
          ]
