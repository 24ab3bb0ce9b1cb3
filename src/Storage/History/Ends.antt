-- ===== src/Storage/History/Ends.antt =====
-- What is left of an agent once its purge is complete (`complete_purge` of src/storage.rs).
use buzz_server.Base.{
  true, Option, none, some, ok, ◌≡◌, refl, arith, ap, ◌∙◌, ◌==◌, nat_eq, option_eq, find, ==_refl,
  find_sound, find-update_where, find-insert_row_fresh, find-delete_where-none, subst, sym,
  Option-cases, inl, inr,
}
use buzz_server.Base.Int.{ℤ}
use buzz_server.Operation.{OperationStatus, succeeded}
use buzz_server.Agent.{AgentId}
use buzz_server.Storage.Schema.{
  OperationId, ErrorCode, DurableOperation, NewAuditRecord, TombstoneRow, Db,
}
use buzz_server.Storage.Statements.{operation_row, agent_row, retention_row, delete_agent_row}
use buzz_server.Storage.Operations.{set_status}
use buzz_server.Storage.Retention.{
  get_agent, agent_retention, is_agent_purged, insert_tombstone, complete_purge,
}
use buzz_server.Storage.History.Purges.{
  complete_purge-Purged, purge_row-found, operations-insert_audit,
}

pub operation_row-set_status :
    (target : OperationId) (next : OperationStatus) (code : Option ErrorCode) (now : ℤ)
    (o : DurableOperation) (a : Db)
    → operation_row target a ≡ some o
    → operation_row target (set_status target next code now a)
      ≡ some (record o { status = next; error_code = code; updated_at = now })
unfolding operation_row set_status
operation_row-set_status target next code now o a h =
    let updated =
      find-update_where (λ r. r.id == target) (λ r. r.id == target)
        (λ r. record r { status = next; error_code = code; updated_at = now }) a.operations
        (λ r. refl) in
    ground (arith, updated, find_sound (λ r. r.id == target) a.operations h)

operation_row-delete_agent_row :
    (target : OperationId) (agent : AgentId) (o : DurableOperation) (a : Db)
    → operation_row target a ≡ some o
    → o.agent_id ≡ some agent
    → operation_row target (delete_agent_row agent a) ≡ some (record o { agent_id = none })
unfolding operation_row delete_agent_row
operation_row-delete_agent_row target agent o a h e =
    let updated =
      find-update_where (λ r. r.id == target) (λ r. r.agent_id == some agent)
        (λ r. record r { agent_id = none }) a.operations (λ r. refl) in
    let mine : (o.agent_id == some agent) ≡ true = rw (e, ==_refl agent) in ground (arith, updated)

pub is_agent_purged-insert_tombstone :
    (agent : AgentId) (now : ℤ) (target : OperationId) (a : Db)
    → is_agent_purged agent (insert_tombstone agent now target a) ≡ true
unfolding is_agent_purged insert_tombstone
is_agent_purged-insert_tombstone agent now target a =
    let row : TombstoneRow = record {
      agent_id = agent;
      purged_at = now;
      purge_operation_id = target;
    } in
    let inserted = find-insert_row_fresh (λ r. r.agent_id == agent) row a.tombstones in
    elim (Option-cases (find (λ r. r.agent_id == agent) a.tombstones)) [
      | inl e ↦ ground (arith, inserted)
      | inr (r, e) ↦ ground arith
    ]

get_agent-delete_agent_row :
    (agent : AgentId) (a : Db) → get_agent agent (delete_agent_row agent a) ≡ none
unfolding get_agent agent_row delete_agent_row
get_agent-delete_agent_row agent a =
    ground
      (arith, find-delete_where-none (λ r. r.id == agent) (λ r. r.id == agent) a.agents (λ r t. t))

agent_retention-delete_agent_row :
    (agent : AgentId) (a : Db) → agent_retention agent (delete_agent_row agent a) ≡ none
unfolding agent_retention retention_row delete_agent_row
agent_retention-delete_agent_row agent a = ground (
  arith,
  find-delete_where-none (λ r. r.agent_id == agent) (λ r. r.agent_id == agent) a.retention
      (λ r t. t),
)

-- The end of a purge, from the database in which its operation has succeeded.
record Gone (agent : AgentId) (target : OperationId) (b : Db) : Type 0 where
  no_agent : get_agent agent b ≡ none
  no_retention : agent_retention agent b ≡ none
  remembered : is_agent_purged agent b ≡ true
  operation : DurableOperation
  stored : operation_row target b ≡ some operation
  done : operation.status ≡ succeeded
  clean : operation.error_code ≡ none
  released : operation.agent_id ≡ none

Gone-delete_agent_row :
    (agent : AgentId) (target : OperationId) (now : ℤ) (o : DurableOperation) (a : Db)
    → operation_row target a ≡ some o
    → o.agent_id ≡ some agent
    → o.status ≡ succeeded
    → o.error_code ≡ none
    → Gone agent target (delete_agent_row agent (insert_tombstone agent now target a))
Gone-delete_agent_row agent target now o a h e d c =
    let t = insert_tombstone agent now target a in
    let same : operation_row target t ≡ operation_row target a =
      unfold operation_row insert_tombstone in ground arith in
    record {
      no_agent = get_agent-delete_agent_row agent t;
      no_retention = agent_retention-delete_agent_row agent t;
      remembered =
          unfold delete_agent_row is_agent_purged in
          is_agent_purged-insert_tombstone agent now target a;
      operation = record o { agent_id = none };
      stored = operation_row-delete_agent_row target agent o t (same ∙ h) e;
      done = d;
      clean = c;
      released = refl;
    }

-- A purge that completes leaves the agent's row and its retention gone, its tombstone in place, and
-- its operation succeeded, without an error and without the reference to the agent.
pub complete_purge_gone :
    (agent : AgentId) (target : OperationId) (now : ℤ) (audit : NewAuditRecord) (a b : Db)
    → complete_purge agent target now audit a ≡ ok (tt, b)
    → (get_agent agent b ≡ none)
      × (agent_retention agent b ≡ none)
      × (is_agent_purged agent b ≡ true)
      × (o : DurableOperation) × (operation_row target b ≡ some o)
      × (o.status ≡ succeeded)
      × (o.error_code ≡ none)
      × (o.agent_id ≡ none)
complete_purge_gone agent target now audit a b h =
    let p = complete_purge-Purged agent target now audit a b tt h in
    let (found, named, kind) = purge_row-found agent target a p.current p.selected in
    let marked = operation_row-set_status target succeeded none now p.current a found in
    let audited : operation_row target p.audited
        ≡ operation_row target (set_status target succeeded none now a) =
      unfold operation_row in
      ap (find (λ r. r.id == target)) (
        operations-insert_audit audit (set_status target succeeded none now a) p.audited
          p.audit_ok) in
    let g = subst (Gone agent target) (sym p.result) (
      Gone-delete_agent_row agent target now
        (record (p.current) { status = succeeded; error_code = none; updated_at = now }) p.audited
        (audited ∙ marked) named refl refl) in
    (g.no_agent, g.no_retention, g.remembered, g.operation, g.stored, g.done, g.clean, g.released)
