-- ===== src/Storage/History/Purges.antt =====
-- Purges (src/storage.rs), one at a time and with a community, keep every operation's history.
use buzz_server.Base.{
  subst, ℕ, true, none, some, List, [], ◌∷◌, ok, ◌≡◌, arith, insert_row, map_err, ◌==◌, nat_eq,
  ◌&&◌, is_some, ltb, select, order_by, >>=-eq-ok, ok_or-eq-ok, fail_if-eq-ok, map_err-eq-ok, ◌∙◌,
  not,
}
use buzz_server.Base.Int.{ℤ}
use buzz_server.Operation.{purge_agent, succeeded, can_transition_to}
use buzz_server.Agent.{AgentId, CommunityConfigId, deleted, desired_eq}
use buzz_server.Storage.Schema.{
  OperationId, not_found, DurableOperation, NewAuditRecord, AgentRow, RelayPublicationAction,
  RelayProjectionScope, Subject, persona, ProjectionRow, Db,
}
use buzz_server.Storage.Statements.{
  operation_row, agent_row, community_row, insert_audit, insert_operation, delete_agent_row,
}
use buzz_server.Storage.Operations.{set_status}
use buzz_server.Storage.Retention.{purge_row, insert_tombstone, complete_purge}
use buzz_server.Storage.Relay.{projection_kind_eq, insert_publication}
use buzz_server.Storage.Communities.{
  Draws, tombstone_projection, purge_record, purge_deleted, purge_all, tombstone_personas,
  check_deleted, delete_community_row, delete_community_with_deleted_agents,
}
use buzz_server.Storage.History.Steps.{
  Keeps, Keeps-same, Keeps-trans, Keeps-insert, Keeps-set_status, Keeps-delete_agent_row,
}

-- What `complete_purge` has done when it succeeds.
pub record Purged (agent : AgentId) (target : OperationId) (now : ℤ) (audit : NewAuditRecord)
    (a b : Db) : Type 0 where
  pub current : DurableOperation
  pub selected : purge_row target agent a ≡ some current
  pub allowed : can_transition_to current.status succeeded ≡ true
  pub row : AgentRow
  pub present : agent_row agent a ≡ some row
  pub intended : (row.document.desired_state == deleted) ≡ true
  pub audited : Db
  pub audit_ok : insert_audit audit (set_status target succeeded none now a) ≡ ok audited
  pub result : b ≡ delete_agent_row agent (insert_tombstone agent now target audited)

pub complete_purge-Purged :
    (agent : AgentId) (target : OperationId) (now : ℤ) (audit : NewAuditRecord) (a b : Db)
    (u : Unit {0})
    → complete_purge agent target now audit a ≡ ok (u, b)
    → Purged agent target now audit a b
unfolding complete_purge
complete_purge-Purged agent target now audit a b u h =
    let (current, e1, h1) = ok_or-eq-ok (purge_row target agent a) not_found _ h in
    let (e2, h2) = fail_if-eq-ok (not (can_transition_to current.status succeeded)) _ _ h1 in
    let (row, e3, h3) = ok_or-eq-ok (agent_row agent a) not_found _ h2 in
    let (e4, h4) = fail_if-eq-ok (not (row.document.desired_state == deleted)) _ _ h3 in
    let (audited, e5, h5) =
      >>=-eq-ok (insert_audit audit (set_status target succeeded none now a)) _ h4 in
    record {
      current = current;
      selected = e1;
      allowed = ground arith;
      row = row;
      present = e3;
      intended = ground arith;
      audited = audited;
      audit_ok = e5;
      result = ground arith;
    }

pub purge_row-found :
    (agent : AgentId) (target : OperationId) (a : Db) (r : DurableOperation)
    → purge_row target agent a ≡ some r
    → (operation_row target a ≡ some r) × (r.agent_id ≡ some agent) × (r.kind ≡ purge_agent)
unfolding purge_row
purge_row-found agent target a r h = ground arith

pub operations-insert_audit :
    (n : NewAuditRecord) (a b : Db) → insert_audit n a ≡ ok b → b.operations ≡ a.operations
unfolding insert_audit
operations-insert_audit n a b h = ground arith

operations-insert_tombstone :
    (id : AgentId) (now : ℤ) (target : OperationId) (a : Db)
    → (insert_tombstone id now target a).operations ≡ a.operations
unfolding insert_tombstone
operations-insert_tombstone id now target a = ground arith

pub operations-insert_operation :
    (o : DurableOperation) (a b : Db)
    → insert_operation o a ≡ ok b
    → b.operations ≡ insert_row o a.operations
unfolding insert_operation
operations-insert_operation o a b h = ground arith

pub operations-insert_publication :
    (id : ℕ) (action : RelayPublicationAction) (scope : RelayProjectionScope) (subject : Subject)
    (now : ℤ) (a b : Db)
    → insert_publication id action scope subject now a ≡ ok b
    → b.operations ≡ a.operations
unfolding insert_publication
operations-insert_publication id action scope subject now a b h = ground arith

operations-delete_community_row :
    (community : CommunityConfigId) (a b : Db)
    → delete_community_row community a ≡ ok b
    → b.operations ≡ a.operations
unfolding delete_community_row
operations-delete_community_row community a b h = ground arith

-- The agents of a community, in the order in which its removal visits them.
abbrev pub members : CommunityConfigId → Db → List AgentRow
members community db =
    order_by (λ a b. ltb a.id b.id) (select (λ r. r.community_config_id == community) db.agents)

-- What `delete_community_with_deleted_agents` has done when it succeeds.
pub record CommunityRemoved (draws : Draws) (community : CommunityConfigId) (now : ℤ) (a b : Db)
    (ids : List AgentId) : Type 0 where
  pub known : is_some (community_row community a) ≡ true
  pub checked : check_deleted community a (members community a) ≡ ok ids
  pub purged : Db
  pub purge_ok : purge_all draws community now ids a ≡ ok purged
  pub announced : Db
  pub announce_ok :
      tombstone_personas draws now
        (select
          (λ r. r.community_config_id == community && r.projection_kind == persona)
          purged.projections)
        purged
      ≡ ok announced
  pub remove_ok : delete_community_row community announced ≡ ok b

pub delete_community-CommunityRemoved :
    (draws : Draws) (community : CommunityConfigId) (now : ℤ) (a b : Db) (ids : List AgentId)
    → delete_community_with_deleted_agents draws community now a ≡ ok (ids, b)
    → CommunityRemoved draws community now a b ids
unfolding delete_community_with_deleted_agents
delete_community-CommunityRemoved draws community now a b ids h =
    let (e1, h1) = fail_if-eq-ok (not (is_some (community_row community a))) _ _ h in
    let (found, e2, h2) = >>=-eq-ok (check_deleted community a (members community a)) _ h1 in
    let (c, e3, h3) = >>=-eq-ok (purge_all draws community now found a) _ h2 in
    let (d, e4, h4) = >>=-eq-ok (tombstone_personas draws now _ c) _ h3 in
    let (f, e5, h5) = >>=-eq-ok (map_err _ (delete_community_row community d)) _ h4 in
    let same : found ≡ ids = ground arith in
    let end : f ≡ b = ground arith in
    record {
      known = ground arith;
      checked = rw same at e2;
      purged = c;
      purge_ok = subst (λ l. purge_all draws community now l a ≡ ok c) same e3;
      announced = d;
      announce_ok = e4;
      remove_ok = rw end at (map_err-eq-ok _ (delete_community_row community d) e5);
    }

module _ (id : OperationId) where
  pub Keeps-complete_purge :
      (agent : AgentId) (target : OperationId) (now : ℤ) (audit : NewAuditRecord) (a b : Db)
      → Purged agent target now audit a b
      → Keeps id a b
  Keeps-complete_purge agent target now audit a b p =
      let a1 = set_status target succeeded none now a in
      let a3 = insert_tombstone agent now target p.audited in
      let k1 =
        Keeps-set_status id target succeeded none now a p.current
          (purge_row-found agent target a p.current p.selected).0 p.allowed in
      let k2 = Keeps-same id a1 p.audited (operations-insert_audit audit a1 p.audited p.audit_ok) in
      let k3 =
        Keeps-same id p.audited a3 (operations-insert_tombstone agent now target p.audited) in
      let k4 = Keeps-delete_agent_row id agent a3 in
      rw p.result (
        Keeps-trans id a a1 _ k1
          (Keeps-trans id a1 p.audited _ k2 (Keeps-trans id p.audited a3 _ k3 k4)))

  Keeps-insert_publication :
      (n : ℕ) (action : RelayPublicationAction) (scope : RelayProjectionScope) (subject : Subject)
      (now : ℤ) (a b : Db)
      → insert_publication n action scope subject now a ≡ ok b
      → Keeps id a b
  Keeps-insert_publication n action scope subject now a b h =
      Keeps-same id a b (operations-insert_publication n action scope subject now a b h)

  operations-tombstone_projection :
      (draws : Draws) (community : CommunityConfigId) (agent : AgentId) (now : ℤ) (a b : Db)
      → tombstone_projection draws community agent now a ≡ ok b
      → b.operations ≡ a.operations
  unfolding tombstone_projection insert_publication
  operations-tombstone_projection draws community agent now a b h = ground arith

  Keeps-purge_deleted :
      (draws : Draws) (community : CommunityConfigId) (now : ℤ) (agent : AgentId) (a b : Db)
      → purge_deleted draws community now agent a ≡ ok b
      → Keeps id a b
  unfolding purge_deleted
  Keeps-purge_deleted draws community now agent a b h =
      let op = purge_record draws community agent now in
      let (c, e1, h1) = >>=-eq-ok (tombstone_projection draws community agent now a) _ h in
      let (d, e2, h2) = >>=-eq-ok (map_err _ (insert_operation op c)) _ h1 in
      let t = insert_tombstone agent now (draws.operation agent) d in
      let result : b ≡ delete_agent_row agent t = ground arith in
      let k1 =
        Keeps-same id a c (operations-tombstone_projection draws community agent now a c e1) in
      let k2 =
        Keeps-insert id op c d
          (operations-insert_operation op c d (map_err-eq-ok _ (insert_operation op c) e2)) in
      let k3 =
        Keeps-same id d t (operations-insert_tombstone agent now (draws.operation agent) d) in
      rw result (
        Keeps-trans id a c _ k1
          (Keeps-trans id c d _ k2 (Keeps-trans id d t _ k3 (Keeps-delete_agent_row id agent t))))

  Keeps-purge_all :
      (draws : Draws) (community : CommunityConfigId) (now : ℤ) (agents : List AgentId) (a b : Db)
      → purge_all draws community now agents a ≡ ok b
      → Keeps id a b
  unfolding purge_all
  Keeps-purge_all draws community now [] a b h = Keeps-same id a b (ground arith)
  Keeps-purge_all draws community now (agent ∷ rest) a b h =
      let (c, e, h') = >>=-eq-ok (purge_deleted draws community now agent a) _ h in
      Keeps-trans id a c b (Keeps-purge_deleted draws community now agent a c e)
        (Keeps-purge_all draws community now rest c b h')

  operations-tombstone_personas :
      (draws : Draws) (now : ℤ) (rows : List ProjectionRow) (a b : Db)
      → tombstone_personas draws now rows a ≡ ok b
      → b.operations ≡ a.operations
  unfolding tombstone_personas
  operations-tombstone_personas draws now [] a b h = ground arith
  operations-tombstone_personas draws now (r ∷ rs) a b h =
      let (c, e, h') = >>=-eq-ok (insert_publication _ _ r.scope r.subject_id now a) _ h in
      operations-tombstone_personas draws now rs c b h'
      ∙ operations-insert_publication _ _ r.scope r.subject_id now a c e

  pub Keeps-delete_community :
      (draws : Draws) (community : CommunityConfigId) (now : ℤ) (a b : Db) (ids : List AgentId)
      → CommunityRemoved draws community now a b ids
      → Keeps id a b
  Keeps-delete_community draws community now a b ids r =
      Keeps-trans id a r.purged b (Keeps-purge_all draws community now ids a r.purged r.purge_ok) (
        Keeps-trans id r.purged r.announced b
          (Keeps-same id r.purged r.announced
            (operations-tombstone_personas draws now _ r.purged r.announced r.announce_ok))
          (Keeps-same id r.announced b
            (operations-delete_community_row community r.announced b r.remove_ok)))
