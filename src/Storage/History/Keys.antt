-- ===== src/Storage/History/Keys.antt =====
-- An idempotency key stays claimed by its operation through every call that does not delete the
-- operation (src/storage.rs).
use buzz_server.Base.{
  true, not, String, some, ok, ◌≡◌, ◌∙◌, ap, arith, ◌==◌, nat_eq, string_eq, ◌&&◌, find,
  find-insert_row_old, find-delete_where_kept, insert_row, >>=-eq-ok, List, [], ◌∷◌,
}
use buzz_server.Base.Int.{ℤ}
use buzz_server.Agent.{AgentId, CommunityConfigId}
use buzz_server.Storage.Schema.{OperationId, IdempotencyRecord, NewAuditRecord, ProjectionRow, Db}
use buzz_server.Storage.Statements.{
  idempotency_row, insert_operation, insert_audit, delete_agent_row, delete_operation_row,
}
use buzz_server.Storage.Operations
use buzz_server.Storage.Retention.{insert_tombstone}
use buzz_server.Storage.Relay.{insert_publication}
use buzz_server.Storage.Communities
use buzz_server.Storage.Communities.{Draws, purge_all, purge_deleted, tombstone_personas}
use buzz_server.Storage.History.Purges.{Purged, CommunityRemoved}

idempotency-purge_deleted :
    (draws : Draws) (community : CommunityConfigId) (now : ℤ) (agent : AgentId) (a b : Db)
    → purge_deleted draws community now agent a ≡ ok b
    → b.idempotency ≡ a.idempotency
unfolding purge_deleted Communities.tombstone_projection insert_publication insert_operation
    insert_tombstone delete_agent_row
idempotency-purge_deleted draws community now agent a b h = ground arith

idempotency-purge_all :
    (draws : Draws) (community : CommunityConfigId) (now : ℤ) (agents : List AgentId) (a b : Db)
    → purge_all draws community now agents a ≡ ok b
    → b.idempotency ≡ a.idempotency
unfolding purge_all
idempotency-purge_all draws community now [] a b h = ground arith
idempotency-purge_all draws community now (agent ∷ rest) a b h =
    let (c, e, h') = >>=-eq-ok (purge_deleted draws community now agent a) _ h in
    idempotency-purge_all draws community now rest c b h'
    ∙ idempotency-purge_deleted draws community now agent a c e

idempotency-tombstone_personas :
    (draws : Draws) (now : ℤ) (rows : List ProjectionRow) (a b : Db)
    → tombstone_personas draws now rows a ≡ ok b
    → b.idempotency ≡ a.idempotency
unfolding tombstone_personas
idempotency-tombstone_personas draws now [] a b h = ground arith
idempotency-tombstone_personas draws now (r ∷ rs) a b h =
    let (c, e, h') = >>=-eq-ok (insert_publication _ _ r.scope r.subject_id now a) _ h in
    let one : c.idempotency ≡ a.idempotency = unfold insert_publication in ground arith in
    idempotency-tombstone_personas draws now rs c b h' ∙ one

pub idempotency-CommunityRemoved :
    {draws : Draws} {community : CommunityConfigId} {now : ℤ} {a b : Db} {ids : List AgentId}
    → CommunityRemoved draws community now a b ids
    → b.idempotency ≡ a.idempotency
unfolding Communities.delete_community_row
idempotency-CommunityRemoved {draws} {community} {now} {a} {b} {ids} r =
    let last : b.idempotency ≡ r.announced.idempotency = ground (arith, r.remove_ok) in
    last
    ∙ idempotency-tombstone_personas draws now _ r.purged r.announced r.announce_ok
    ∙ idempotency-purge_all draws community now ids a r.purged r.purge_ok

pub idempotency-Purged :
    {agent : AgentId} {target : OperationId} {now : ℤ} {audit : NewAuditRecord} {a b : Db}
    → Purged agent target now audit a b
    → b.idempotency ≡ a.idempotency
unfolding insert_audit insert_tombstone delete_agent_row Operations.set_status
idempotency-Purged p = ground (arith, p.audit_ok, p.result)

module _ (scope key : String) where
  pub idempotency_row-same :
      (a b : Db) (row : IdempotencyRecord)
      → b.idempotency ≡ a.idempotency
      → idempotency_row scope key a ≡ some row
      → idempotency_row scope key b ≡ some row
  unfolding idempotency_row
  idempotency_row-same a b row e h =
      ap (λ rows. find (λ r. r.scope == scope && r.key == key) rows) e ∙ h

  pub idempotency_row-insert :
      (entry : IdempotencyRecord) (a b : Db) (row : IdempotencyRecord)
      → b.idempotency ≡ insert_row entry a.idempotency
      → idempotency_row scope key a ≡ some row
      → idempotency_row scope key b ≡ some row
  unfolding idempotency_row
  idempotency_row-insert entry a b row e h =
      ap (λ rows. find (λ r. r.scope == scope && r.key == key) rows) e
      ∙ find-insert_row_old (λ r. r.scope == scope && r.key == key) entry a.idempotency h

  pub idempotency_row-delete :
      (target : OperationId) (a b : Db) (row : IdempotencyRecord)
      → b ≡ delete_operation_row target a
      → not (row.operation_id == target) ≡ true
      → idempotency_row scope key a ≡ some row
      → idempotency_row scope key b ≡ some row
  unfolding idempotency_row delete_operation_row
  idempotency_row-delete target a b row e s h =
      ap (λ d. find (λ r. r.scope == scope && r.key == key) d.idempotency) e
      ∙ find-delete_where_kept (λ r. r.scope == scope && r.key == key)
          (λ r. r.operation_id == target) a.idempotency h (ground arith)
