-- ===== src/Contained.antt =====
-- src/main.rs, `reconcile_operation_contained`: an operation whose reconciliation fails. The journal
-- that it writes is diagnostics and left out.
use buzz_server.Base.{
  true, some, Result, ok, err, ◌≡◌, ◌∙◌, ◌⊎◌, inl, inr, sym, ap, arith, Bool-cases, ◌==◌,
  if◌then◌else◌,
}
use buzz_server.Base.Action.{Action, ◌>>=◌, ◌>>◌, pure, continue-eq-ok}
use buzz_server.Operation.{is_terminal, pending, failed, status_eq}
use buzz_server.Storage.Schema.{OperationId, DurableOperation}
use buzz_server.Storage.Schema
use buzz_server.Storage.Statements.{operation_row}
use buzz_server.Storage.Operations.{get_operation}
use buzz_server.Api.{OperationResource, not_found}
use buzz_server.Api.Service.{Call}
use buzz_server.Application.{World, SqliteLifecycleApplication, operation_resource, found}
use buzz_server.Application.Completion.{get_operation_resource, start_operation, complete_operation}
use buzz_server.Application.Ends.{complete_operation-Ended, found-ok}

module _ {X : Type 0} (self : SqliteLifecycleApplication X) where
  unfoldable pub start_pending : OperationId → OperationResource → Call (World X) (Unit {0})
  start_pending id operation =
      if operation.status == pending then start_operation self id else pure tt

  -- The terminal status is stored, of an operation that has none.
  unfoldable pub terminal_result : OperationId → Call (World X) (Unit {0})
  unfolding start_pending
  terminal_result id = do
    operation ← get_operation_resource id
    if is_terminal operation.status then pure tt else (do
      start_pending id operation
      complete_operation self id failed (some Schema.internal))

  abbrev contain : {E : Type 0} → OperationId → Result E (Unit {0}) × World X → World X
  contain id (ok u, w) = w
  contain id (err e, w) = (terminal_result id w).1

  unfoldable pub reconcile_operation_contained :
      {E : Type 0} → (OperationId → Action (World X) E (Unit {0})) → OperationId → World X → World X
  unfolding terminal_result
  reconcile_operation_contained reconcile id w = contain id (reconcile id w)

  -- The operation is terminal, since it was so already or has failed now.
  abbrev pub Settled : OperationId → World X → World X → Type 0
  Settled id w w' =
      (o : DurableOperation) × (operation_row id w'.db ≡ some o)
      × (((w' ≡ w) × (is_terminal o.status ≡ true)) ⊎ (o.status ≡ failed))

  get_operation_resource-ok :
      (id : OperationId) (r : OperationResource) (w w' : World X)
      → get_operation_resource id w ≡ (ok r, w')
      → (o : DurableOperation) × (operation_row id w.db ≡ some o)
        × (r ≡ operation_resource o)
        × (w' ≡ w)
  unfolding get_operation_resource get_operation
  get_operation_resource-ok id r w w' h =
      let (o, w1, there, h1) = continue-eq-ok _ (found not_found (get_operation id w.db) w) h in
      let (row, same) = found-ok not_found (get_operation id w.db) w w1 o there in
      (o, row, ground arith, ground arith)

  failed_now :
      (id : OperationId) (r : OperationResource) (w w1 w' : World X)
      → complete_operation self id failed (some Schema.internal) w1 ≡ (ok tt, w')
      → Settled id w w'
  failed_now id r w w1 w' h =
      let (end, ended) = complete_operation-Ended self id failed (some Schema.internal) w1 w' h in
      (ended.after, ended.ended, inr ended.status_ended)

  settled :
      (id : OperationId) (r : OperationResource) (w w1 w' : World X)
      → get_operation_resource id w ≡ (ok r, w1)
      → (if is_terminal r.status
            then pure tt
            else (start_pending id r >> complete_operation self id failed (some Schema.internal)))
          w1
        ≡ (ok tt, w')
      → Settled id w w'
  unfolding operation_resource
  settled id r w w1 w' got h = elim (Bool-cases (is_terminal r.status)) [
    | inl e ↦
        let (o, row, same, world) = get_operation_resource-ok id r w w1 got in
        let still : w1 ≡ w' = ground arith in
        let back : w' ≡ w = sym still ∙ world in
        (
          o,
          ap (λ (x : World X). operation_row id x.db) back ∙ row,
          inl (back, ap (λ (x : OperationResource). is_terminal x.status) (sym same) ∙ e),
        )
    | inr e ↦
        let going : (start_pending id r >> complete_operation self id failed (some Schema.internal))
              w1
            ≡ (ok tt, w') =
          ground arith in
        let (u, w2, begun, ends) = continue-eq-ok _ (start_pending id r w1) going in
        failed_now id r w w2 w' ends
  ]

  -- The end of an operation whose reconciliation has failed is stored: then the operation is terminal.
  -- It was terminal already and nothing has changed, or it has failed now.
  pub terminal_result-Settled :
      (id : OperationId) (w w' : World X) → terminal_result id w ≡ (ok tt, w') → Settled id w w'
  unfolding terminal_result
  terminal_result-Settled id w w' h =
      let (r, w1, got, h1) = continue-eq-ok _ (get_operation_resource id w) h in
      settled id r w w1 w' got h1
