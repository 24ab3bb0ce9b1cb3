-- ===== src/Application/Once.antt =====
-- What `execute` of src/application.rs has done when it answers, and that a repeated command answers
-- with the operation of the first.
use buzz_server.Base.{
  Bool, true, Option, some, String, Result, ok, ◌≡◌, ◌∙◌, sym, ap, subst, refl, arith, ◌==◌, nat_eq,
  string_eq, find_sound, inl, inr, Option-cases, List, All,
}
use buzz_server.Base.Int.{ℤ}
use buzz_server.Base.Action.{continue-eq-ok}
use buzz_server.Auth.{AuthenticatedPrincipal}
use buzz_server.Storage.Schema.{
  OperationId, DurableOperation, IdempotencyRecord, NewAuditRecord, StorageError, Db,
}
use buzz_server.Storage.Statements.{operation_row, idempotency_row}
use buzz_server.Storage.Command.{
  AgentCommandMutation, apply_agent_command, replay_command, fresh_command,
}
use buzz_server.Storage.Command.Commit.{fresh_command-Statements, fresh_command-Committed}
use buzz_server.Storage.Command.Replay.{idempotency_row-commit}
use buzz_server.Storage.Calls.{Call, run_calls}
use buzz_server.Storage.History.Methods.{spares}
use buzz_server.Storage.History.Claims.{idempotency_row-run_calls}
use buzz_server.Api.{CommandMetadata, OperationResource}
use buzz_server.Application.{
  World, SqliteLifecycleApplication, ExecutionPlan, Payload, operation_resource, store, clock,
  new_id, request_hash,
}
use buzz_server.Application.Execute.{
  new_operation, command_scope, command_entry, command_audit, wake, commit, execute,
}

-- A stored operation has the id under which it is found.
pub operation_row-id :
    (id : OperationId) (db : Db) {o : DurableOperation} → operation_row id db ≡ some o → o.id ≡ id
unfolding operation_row
operation_row-id id db {o} h =
    (nat_eq.eqb_iff o.id id).0 (find_sound (λ r. r.id == id) db.operations h)

module _ (operation : DurableOperation) (entry : IdempotencyRecord)
    (mutation : AgentCommandMutation) (draft : Option String) (audit : NewAuditRecord) (a b : Db)
    (o : DurableOperation) (replayed : Bool) where
  -- A command that finds its key claimed changes nothing and answers with the claimed operation.
  apply_agent_command-claimed :
      (row : IdempotencyRecord)
      → idempotency_row entry.scope entry.key a ≡ some row
      → apply_agent_command operation entry mutation draft audit a ≡ ok ((o, replayed), b)
      → (b ≡ a) × (o.id ≡ row.operation_id)
  unfolding apply_agent_command replay_command
  apply_agent_command-claimed row e h =
      let stored : operation_row row.operation_id a ≡ some o = ground arith in
      (ground arith, operation_row-id row.operation_id a stored)

  -- A command that succeeds leaves its key claimed by the operation that it answers with.
  apply_agent_command-claims :
      apply_agent_command operation entry mutation draft audit a ≡ ok ((o, replayed), b)
      → (row : IdempotencyRecord) × (idempotency_row entry.scope entry.key b ≡ some row)
        × (row.operation_id ≡ o.id)
  apply_agent_command-claims h = elim (Option-cases (idempotency_row entry.scope entry.key a)) [
    | inl e ↦
        let fresh : fresh_command operation entry mutation draft audit a ≡ ok ((o, replayed), b) =
          unfold apply_agent_command in ground arith in
        let (same, s) =
          fresh_command-Statements operation entry mutation draft audit a b (o, replayed) fresh in
        let c = fresh_command-Committed operation entry mutation draft audit a b s in
        (
          record entry { operation_id = operation.id },
          idempotency_row-commit operation entry mutation draft audit a b c,
          ground arith,
        )
    | inr (row, e) ↦
        let (same, id) = apply_agent_command-claimed row e h in
        (row, subst (λ d. idempotency_row entry.scope entry.key d ≡ some row) (sym same) e, sym id)
  ]

pub store-ok :
    {X A : Type 0} (q : Db → Result StorageError (A × Db)) (w w' : World X) (x : A)
    → store q w ≡ (ok x, w')
    → q w.db ≡ ok (x, w'.db)
unfolding store
store-ok q w w' x h = ground arith

module _ {X : Type 0} (self : SqliteLifecycleApplication X) where
  -- Waking the reconciler leaves the database alone.
  abbrev pub Quiet : Type 0
  Quiet = (o : DurableOperation) (w : World X) → (self.effects.operation_ready o w).1.db ≡ w.db

  -- The transaction behind an answer of `execute`.
  pub record Executed (actor : AuthenticatedPrincipal) (metadata : CommandMetadata)
      (plan : ExecutionPlan) (a b : Db) (r : OperationResource) : Type 0 where
    pub now : ℤ
    pub id : OperationId
    pub hash : String
    pub operation : DurableOperation
    pub replayed : Bool
    pub ran :
        apply_agent_command
          (new_operation plan metadata id now)
          (command_entry actor metadata plan hash id now)
          plan.mutation
          plan.promoted_draft_id
          (command_audit self actor metadata plan id now)
          a
        ≡ ok ((operation, replayed), b)
    pub answered : r ≡ operation_resource operation

  pub db-clock : (w w' : World X) (t : ℤ) → clock self w ≡ (ok t, w') → w'.db ≡ w.db
  unfolding clock
  db-clock w w' t h = ground arith

  pub db-new_id : (w w' : World X) (n : OperationId) → new_id self w ≡ (ok n, w') → w'.db ≡ w.db
  unfolding new_id
  db-new_id w w' n h = ground arith

  pub db-request_hash :
      (p : Payload) (w w' : World X) (s : String)
      → request_hash self p w ≡ (ok s, w')
      → w'.db ≡ w.db
  unfolding request_hash
  db-request_hash p w w' s h = ground arith

  db-wake :
      Quiet
      → (now : Bool) (o : DurableOperation) (w w' : World X) → wake self now o w ≡ (ok tt, w')
      → w'.db ≡ w.db
  unfolding wake
  db-wake quiet now o w w' h = ground (arith, quiet o w)

  commit-Executed :
      (actor : AuthenticatedPrincipal) (metadata : CommandMetadata) (plan : ExecutionPlan) (now : ℤ)
      (id : OperationId) (hash : String) (committed : DurableOperation × Bool) (w w' : World X)
      (a b : Db)
      → commit self actor metadata plan now id hash w ≡ (ok committed, w')
      → w.db ≡ a
      → w'.db ≡ b
      → Executed actor metadata plan a b (operation_resource committed.0)
  unfolding commit
  commit-Executed actor metadata plan now id hash committed w w' a b h before after = record {
    now = now;
    id = id;
    hash = hash;
    operation = committed.0;
    replayed = committed.1;
    ran = rw (← before, ← after) (store-ok _ w w' committed h);
    answered = refl;
  }

  pub execute-Executed :
      Quiet
      → (actor : AuthenticatedPrincipal) (metadata : CommandMetadata) (payload : Payload)
        (plan : ExecutionPlan) (w w' : World X) (r : OperationResource)
      → execute self actor metadata payload plan w ≡ (ok r, w')
      → Executed actor metadata plan w.db w'.db r
  unfolding execute
  execute-Executed quiet actor metadata payload plan w w' r h =
      let (now, w1, e1, h1) = continue-eq-ok _ (clock self w) h in
      let (id, w2, e2, h2) = continue-eq-ok _ (new_id self w1) h1 in
      let (hash, w3, e3, h3) = continue-eq-ok _ (request_hash self payload w2) h2 in
      let (committed, w4, e4, h4) =
        continue-eq-ok _ (commit self actor metadata plan now id hash w3) h3 in
      let (u, w5, e5, h5) = continue-eq-ok _ (wake self plan.wake_immediately committed.0 w4) h4 in
      let before =
        db-request_hash payload w2 w3 hash e3 ∙ db-new_id w1 w2 id e2 ∙ db-clock w w1 now e1 in
      let woken = db-wake quiet plan.wake_immediately committed.0 w4 w5 e5 in
      let after : w'.db ≡ w4.db = ground arith in
      let answered : r ≡ operation_resource committed.0 = ground arith in
      subst (Executed actor metadata plan w.db w'.db) (sym answered) (
        commit-Executed actor metadata plan now id hash committed w3 w4 w.db w'.db e4 before
          (sym after))

  -- A command has been answered, and then any calls of the repository run that do not delete its
  -- operation. If a later command under the same scope and key is answered, its answer names the same
  -- operation and it has changed nothing. It is assumed that waking the reconciler leaves the
  -- database alone.
  pub execute_once :
      Quiet
      → (actor later : AuthenticatedPrincipal) (m n : CommandMetadata) (p q : Payload)
        (plan repeat : ExecutionPlan) (w w1 w2 w3 : World X) (r s : OperationResource)
        (cs : List Call)
      → execute self actor m p plan w ≡ (ok r, w1)
      → All (λ c. spares c r.id ≡ true) cs
      → w2.db ≡ run_calls w1.db cs
      → execute self later n q repeat w2 ≡ (ok s, w3)
      → command_scope later repeat ≡ command_scope actor plan
      → n.idempotency_key ≡ m.idempotency_key
      → (s.id ≡ r.id) × (w3.db ≡ w2.db)
  unfolding command_entry operation_resource
  execute_once quiet actor later m n p q plan repeat w w1 w2 w3 r s cs h spared between h' scope
        key =
      let a = execute-Executed quiet actor m p plan w w1 r h in
      let b = execute-Executed quiet later n q repeat w2 w3 s h' in
      let (row, claimed, named) =
        apply_agent_command-claims (new_operation plan m a.id a.now)
          (command_entry actor m plan a.hash a.id a.now) plan.mutation plan.promoted_draft_id
          (command_audit self actor m plan a.id a.now) w.db w1.db a.operation a.replayed a.ran in
      let first : r.id ≡ a.operation.id = ap (λ x. x.id) a.answered in
      let second : s.id ≡ b.operation.id = ap (λ x. x.id) b.answered in
      let owner : r.id ≡ row.operation_id = first ∙ sym named in
      let kept =
        idempotency_row-run_calls (command_scope actor plan) m.idempotency_key w1.db cs row
          (subst (λ i. All (λ c. spares c i ≡ true) cs) owner spared) claimed in
      let (same, id) =
        apply_agent_command-claimed (new_operation repeat n b.id b.now)
          (command_entry later n repeat b.hash b.id b.now) repeat.mutation repeat.promoted_draft_id
          (command_audit self later n repeat b.id b.now) w2.db w3.db b.operation b.replayed row
          (rw (scope, key, between) kept) b.ran in
      (second ∙ id ∙ sym owner, same)
