-- ===== src/Application/Retained.antt =====
-- The retention of an agent after `delete_agent` of src/application.rs.
use buzz_server.Base.{
  true, Option, none, some, String, ok, ◌≡◌, ◌∙◌, sym, ap, subst, refl, arith, Bool-cases, inl, inr,
  ◌⊎◌,
}
use buzz_server.Base.Int.{ℤ}
use buzz_server.Operation.{delete_agent}
use buzz_server.Agent.{AgentId, AgentSpec, deleted, desired_eq}
use buzz_server.Auth.{AuthenticatedPrincipal}
use buzz_server.Storage.Schema.{DurableOperation, IdempotencyRecord, NewAuditRecord, Db}
use buzz_server.Storage.Statements.{retention_row}
use buzz_server.Storage.Command.{AgentCommandMutation, apply_agent_command, replay_command}
use buzz_server.Storage.Command.Commit.{fresh_command-Statements}
use buzz_server.Storage.Command.Deadlines.{retention_after, retention_row-apply_agent_command}
use buzz_server.Storage.Retention.{get_agent, agent_retention}
use buzz_server.Api.{CommandMetadata, AgentCommandRequest, OperationResource}
use buzz_server.Application.{World, SqliteLifecycleApplication, Payload}
use buzz_server.Application.Execute.{new_operation, command_entry, command_audit, execute}
use buzz_server.Application.Agents.{
  purge_after_of, retention_deadline, deleted_plan, deleted_command, delete,
}
use buzz_server.Application.Once.{Quiet, Executed, execute-Executed}

-- A replay changes nothing.
apply_agent_command-replayed :
    (operation r : DurableOperation) (entry : IdempotencyRecord) (mutation : AgentCommandMutation)
    (draft : Option String) (audit : NewAuditRecord) (a b : Db)
    → apply_agent_command operation entry mutation draft audit a ≡ ok ((r, true), b)
    → b ≡ a
unfolding apply_agent_command replay_command
apply_agent_command-replayed operation r entry mutation draft audit a b h =
    let fresh = fresh_command-Statements operation entry mutation draft audit a b (r, true) in
    ground (arith, fresh)

purge_after-retention_row :
    (id : AgentId) (db : Db)
    → purge_after_of id db
      ≡ elim (retention_row id db) [ none ↦ none | some r ↦ some r.purge_after ]
unfolding purge_after_of agent_retention
purge_after-retention_row id db = ground arith

module _ {X : Type 0} (self : SqliteLifecycleApplication X) where
  retention_row-Executed :
      (actor : AuthenticatedPrincipal) (m : CommandMetadata) (agent : AgentSpec) (id : AgentId)
      (deadline : Option ℤ) (a b : Db) (r : OperationResource)
      → Executed self actor m (deleted_plan self delete_agent agent id deadline) a b r
      → (b ≡ a)
        ⊎ ((now : ℤ) × (retention_row id b
              ≡ retention_after delete_agent now deadline (retention_row id a) id))
  retention_row-Executed actor m agent id deadline a b r x =
      let plan = deleted_plan self delete_agent agent id deadline in
      let operation = new_operation plan m x.id x.now in
      let entry = command_entry actor m plan x.hash x.id x.now in
      let audit = command_audit self actor m plan x.id x.now in
      elim (Bool-cases x.replayed) [
        | inl e ↦ inl (
            apply_agent_command-replayed operation x.operation entry plan.mutation
              plan.promoted_draft_id audit a b
              (subst
                (λ t.
                  apply_agent_command operation entry plan.mutation plan.promoted_draft_id audit a
                  ≡ ok ((x.operation, t), b))
                e x.ran))
        | inr e ↦ inr (
          x.now,
          unfold deleted_plan new_operation in
              retention_row-apply_agent_command operation entry id deleted deadline none audit a b
                x.operation
                (subst
                  (λ t.
                    apply_agent_command operation entry plan.mutation plan.promoted_draft_id audit a
                    ≡ ok ((x.operation, t), b))
                  e x.ran),
        )
      ]

  deadline_kept :
      (w : World X) (agent : AgentSpec) (id : AgentId) (deadline : ℤ)
      → agent.desired_state ≡ deleted
      → purge_after_of id w.db ≡ some deadline
      → retention_deadline self delete_agent agent id w ≡ (ok (some deadline), w)
  unfolding retention_deadline
  deadline_kept w agent id deadline s p = rw (s, p) refl

  delete_runs :
      (actor : AuthenticatedPrincipal) (request : AgentCommandRequest) (w : World X)
      (agent : AgentSpec) (deadline : Option ℤ)
      → get_agent request.agent_id w.db ≡ some agent
      → retention_deadline self delete_agent agent request.agent_id w ≡ (ok deadline, w)
      → delete self actor request w
        ≡ execute self actor request.metadata
            (Payload.command_request request)
            (deleted_plan self delete_agent agent request.agent_id deadline)
            w
  unfolding delete deleted_command
  delete_runs actor request w agent deadline g d = rw (g, d) refl

  -- A delete of an agent that is deleted already, and has a deadline for its purge, keeps that
  -- deadline, however it is answered. It is assumed that waking the reconciler leaves the database
  -- alone.
  pub delete_keeps :
      Quiet self
      → (actor : AuthenticatedPrincipal) (request : AgentCommandRequest) (w w' : World X)
        (r : OperationResource) (agent : AgentSpec) (deadline : ℤ)
      → get_agent request.agent_id w.db ≡ some agent
      → agent.desired_state ≡ deleted
      → purge_after_of request.agent_id w.db ≡ some deadline
      → delete self actor request w ≡ (ok r, w')
      → purge_after_of request.agent_id w'.db ≡ some deadline
  delete_keeps quiet actor request w w' r agent deadline g s p h =
      let id = request.agent_id in
      let ran : execute self actor request.metadata (Payload.command_request request)
            (deleted_plan self delete_agent agent id (some deadline)) w
          ≡ (ok r, w') =
        sym (
          delete_runs actor request w agent (some deadline) g
            (deadline_kept w agent id deadline s p))
        ∙ h in
      let x =
        execute-Executed self quiet actor request.metadata (Payload.command_request request)
          (deleted_plan self delete_agent agent id (some deadline)) w w' r ran in
      elim (retention_row-Executed actor request.metadata agent id (some deadline) w.db w'.db r x) [
        | inl e ↦ ap (purge_after_of id) e ∙ p
        | inr (now, e) ↦ purge_after-retention_row id w'.db ∙ rw e refl
      ]
