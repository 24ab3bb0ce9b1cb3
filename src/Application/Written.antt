-- ===== src/Application/Written.antt =====
-- The steps of `complete_operation` of src/application.rs: what each has written.
use buzz_server.Base.{
  ℕ, suc, ◌+◌, ◌%◌, ◌^◌, true, Option, none, some, String, ok, ◌≡◌, ◌∙◌, sym, ap, subst, refl,
  arith, insert_row, find, ◌==◌, nat_eq, ok_or-eq-ok, fail_if-eq-ok, not,
}
use buzz_server.Base.Int.{ℤ}
use buzz_server.Base.Action.{continue-eq-ok}
use buzz_server.Operation.{OperationStatus, succeeded, status_eq, kind_eq, can_transition_to}
use buzz_server.Agent.{AgentId}
use buzz_server.Storage.Schema.{
  Query, OperationId, ErrorCode, DurableOperation, NewAuditRecord, Db, not_found,
}
use buzz_server.Storage.Statements.{operation_row, insert_audit, delete_agent_row}
use buzz_server.Storage.Operations.{set_status, transition_operation}
use buzz_server.Storage.Audits.{append_audit}
use buzz_server.Storage.Retention.{complete_purge, insert_tombstone}
use buzz_server.Storage.History.Ends.{operation_row-set_status}
use buzz_server.Storage.History.Purges.{complete_purge-Purged, purge_row-found}
use buzz_server.Application.{World, SqliteLifecycleApplication, clock, notify, store, found}
use buzz_server.Application.Completion.{community_of, reconciler_audit, audit_reconciliation}
use buzz_server.Application.Once.{db-clock, store-ok}

pub transition_operation-ok :
    (id : OperationId) (next : OperationStatus) (code : Option ErrorCode) (now : ℤ) (a b : Db)
    → transition_operation id next code now a ≡ ok (tt, b)
    → (o : DurableOperation) × (operation_row id a ≡ some o)
      × (can_transition_to o.status next ≡ true)
      × (b ≡ set_status id next code now a)
unfolding transition_operation
transition_operation-ok id next code now a b h =
    let (o, e, h1) = ok_or-eq-ok (operation_row id a) not_found _ h in
    let (t, h2) = fail_if-eq-ok (not (can_transition_to o.status next)) _ _ h1 in
    (o, e, ground arith, ground arith)

-- One audit record has been added.
abbrev pub Audited : NewAuditRecord → Db → Db → Type 0
Audited entry a b =
    b.audits ≡ insert_row (record { sequence = suc a.audit_sequence; entry = entry }) a.audits

pub operation_row-same :
    (id : OperationId) (a b : Db)
    → b.operations ≡ a.operations
    → operation_row id b ≡ operation_row id a
unfolding operation_row
operation_row-same id a b e = ap (find (λ r. r.id == id)) e

-- A status that has been set shows in the row, and nowhere in the audits.
pub set_status-after :
    (id : OperationId) (next : OperationStatus) (code : Option ErrorCode) (now : ℤ)
    (o : DurableOperation) (a b c : Db)
    → operation_row id a ≡ some o
    → b ≡ set_status id next code now a
    → c.operations ≡ b.operations
    → operation_row id c ≡ some (record o { status = next; error_code = code; updated_at = now })
set_status-after id next code now o a b c found e rows =
    operation_row-same id b c rows
    ∙ ap (operation_row id) e
    ∙ operation_row-set_status id next code now o a found

pub audits-set_status :
    (id : OperationId) (next : OperationStatus) (code : Option ErrorCode) (now : ℤ)
    (entry : NewAuditRecord) (a b c : Db)
    → b ≡ set_status id next code now a
    → Audited entry b c
    → Audited entry a c
audits-set_status id next code now entry a b c e h =
    let g : Audited entry (set_status id next code now a) c = subst (λ x. Audited entry x c) e h in
    unfold set_status in g

pub Audited-along :
    (entry : NewAuditRecord) (a b c d : Db) → a ≡ c → b ≡ d → Audited entry a b → Audited entry c d
Audited-along entry a b c d p q h = rw (← p, ← q) h

pub append_audit-ok :
    (entry : NewAuditRecord) (n : ℕ) (a b : Db)
    → append_audit entry a ≡ ok (n, b)
    → (b.operations ≡ a.operations) × Audited entry a b
unfolding append_audit insert_audit
append_audit-ok entry n a b h = ground arith

pub purge_step :
    (id : OperationId) (agent_id : AgentId) (entry : NewAuditRecord) (now : ℤ) (a b : Db)
    → complete_purge agent_id id now entry a ≡ ok (tt, b)
    → (o : DurableOperation) × (operation_row id a ≡ some o)
      × (can_transition_to o.status succeeded ≡ true)
      × Audited entry a b
purge_step id agent_id entry now a b h =
    let p = complete_purge-Purged agent_id id now entry a b tt h in
    let (found, named, kind) = purge_row-found agent_id id a p.current p.selected in
    let written : Audited entry (set_status id succeeded none now a) p.audited =
      unfold insert_audit in ground (arith, p.audit_ok) in
    let kept : b.audits ≡ p.audited.audits =
      ap (λ d. d.audits) p.result ∙ unfold delete_agent_row insert_tombstone in ground arith in
    let first = audits-set_status id succeeded none now entry a _ p.audited refl written in
    (p.current, found, p.allowed, kept ∙ first)

-- What the record of `audit_reconciliation` says.
abbrev pub Recorded : DurableOperation → String → String → Db → Db → Type 0
Recorded operation action outcome a b =
    (entry : NewAuditRecord) × Audited entry a b
    × (entry.action ≡ action)
    × (entry.outcome ≡ outcome)
    × (entry.operation_id ≡ some operation.id)

module _ {X : Type 0} where
  pub generation-store :
      {A : Type 0} (q : Query A) (w w' : World X) (x : A)
      → store q w ≡ (ok x, w')
      → w'.generation ≡ w.generation
  unfolding store
  generation-store q w w' x h = ground arith

  pub notify-ok :
      (w w' : World X)
      → notify w ≡ (ok tt, w')
      → (w'.db ≡ w.db) × (w'.generation ≡ (w.generation + 1) % 2 ^ 64)
  unfolding notify
  notify-ok w w' h = ground arith

module _ {X : Type 0} (self : SqliteLifecycleApplication X) where
  pub generation-clock :
      (w w' : World X) (t : ℤ) → clock self w ≡ (ok t, w') → w'.generation ≡ w.generation
  unfolding clock
  generation-clock w w' t h = ground arith

  pub audit_reconciliation-ok :
      (operation : DurableOperation) (action outcome : String) (w w' : World X)
      → audit_reconciliation self operation action outcome w ≡ (ok tt, w')
      → (w'.generation ≡ w.generation)
        × (w'.db.operations ≡ w.db.operations)
        × Recorded operation action outcome w.db w'.db
  unfolding audit_reconciliation
  audit_reconciliation-ok operation action outcome w w' h =
      let (now, w1, e1, h1) = continue-eq-ok _ (clock self w) h in
      let entry =
        reconciler_audit self operation (community_of operation.agent_id w.db) action outcome now in
      let (n, w2, e2, h2) = continue-eq-ok _ (store (append_audit entry) w1) h1 in
      let (rows, audited) = append_audit-ok entry n w1.db w2.db (store-ok _ w1 w2 n e2) in
      let same = db-clock self w w1 now e1 in
      let last : w' ≡ w2 = ground arith in
      let kept = generation-store (append_audit entry) w1 w2 n e2 ∙ generation-clock w w1 now e1 in
      let rows' : w2.db.operations ≡ w.db.operations = rows ∙ ap (λ d. d.operations) same in
      (
        ap (λ x. x.generation) last ∙ kept,
        ap (λ x. x.db.operations) last ∙ rows',
        (
          entry,
          Audited-along entry w1.db w2.db w.db w'.db same (ap (λ x. x.db) (sym last)) audited,
          unfold reconciler_audit in refl,
          unfold reconciler_audit in refl,
          unfold reconciler_audit in refl,
        ),
      )
