-- ===== src/Storage/History/Replays.antt =====
-- The replay table is touched by its own method alone (src/storage.rs).
use buzz_server.Base.{
  Bool, false, true, String, ok, ◌≡◌, ◌∙◌, arith, nat_eq, string_eq, >>=-eq-ok, List, [], ◌∷◌,
  Option, inl, inr, Option-cases,
}
use buzz_server.Base.Int.{ℤ}
use buzz_server.Agent.{AgentId, CommunityConfigId}
use buzz_server.Storage.Schema.{
  OperationId, IdempotencyRecord, NewAuditRecord, ProjectionRow, Db, DurableOperation,
}
use buzz_server.Storage.Statements.{
  load_agent_transaction, insert_idempotency, idempotency_row, insert_operation, insert_audit,
  delete_agent_row, delete_operation_row, insert_agent, update_agent_transaction,
}
use buzz_server.Storage.Operations
use buzz_server.Storage.Retention.{insert_tombstone}
use buzz_server.Storage.Relay.{insert_publication}
use buzz_server.Storage.Communities
use buzz_server.Storage.Communities.{Draws, purge_all, purge_deleted, tombstone_personas}
use buzz_server.Storage.History.Purges.{
  Purged, CommunityRemoved, complete_purge-Purged, delete_community-CommunityRemoved,
}
use buzz_server.Storage.Audits
use buzz_server.Storage.Command
use buzz_server.Storage.Command.{AgentCommandMutation, apply_agent_command, replay_command}
use buzz_server.Storage.Retention
use buzz_server.Storage.Relay
use buzz_server.Storage.Drafts
use buzz_server.Storage.Boundary
use buzz_server.Storage.Calls.{Call, perform}
use buzz_server.Storage.History.Methods.{db_of-eq-ok}

abbrev pub claims_replay : Call → Bool
claims_replay (Call.claim_nip98_replay event expires now) = true
claims_replay _ = false

replay-purge_deleted :
    (draws : Draws) (community : CommunityConfigId) (now : ℤ) (agent : AgentId) (a b : Db)
    → purge_deleted draws community now agent a ≡ ok b
    → b.replay ≡ a.replay
unfolding purge_deleted Communities.tombstone_projection insert_publication insert_operation
    insert_tombstone delete_agent_row
replay-purge_deleted draws community now agent a b h = ground arith

replay-purge_all :
    (draws : Draws) (community : CommunityConfigId) (now : ℤ) (agents : List AgentId) (a b : Db)
    → purge_all draws community now agents a ≡ ok b
    → b.replay ≡ a.replay
unfolding purge_all
replay-purge_all draws community now [] a b h = ground arith
replay-purge_all draws community now (agent ∷ rest) a b h =
    let (c, e, h') = >>=-eq-ok (purge_deleted draws community now agent a) _ h in
    replay-purge_all draws community now rest c b h'
    ∙ replay-purge_deleted draws community now agent a c e

replay-tombstone_personas :
    (draws : Draws) (now : ℤ) (rows : List ProjectionRow) (a b : Db)
    → tombstone_personas draws now rows a ≡ ok b
    → b.replay ≡ a.replay
unfolding tombstone_personas
replay-tombstone_personas draws now [] a b h = ground arith
replay-tombstone_personas draws now (r ∷ rs) a b h =
    let (c, e, h') = >>=-eq-ok (insert_publication _ _ r.scope r.subject_id now a) _ h in
    let one : c.replay ≡ a.replay = unfold insert_publication in ground arith in
    replay-tombstone_personas draws now rs c b h' ∙ one

replay-CommunityRemoved :
    {draws : Draws} {community : CommunityConfigId} {now : ℤ} {a b : Db} {ids : List AgentId}
    → CommunityRemoved draws community now a b ids
    → b.replay ≡ a.replay
unfolding Communities.delete_community_row
replay-CommunityRemoved {draws} {community} {now} {a} {b} {ids} r =
    let last : b.replay ≡ r.announced.replay = ground (arith, r.remove_ok) in
    last
    ∙ replay-tombstone_personas draws now _ r.purged r.announced r.announce_ok
    ∙ replay-purge_all draws community now ids a r.purged r.purge_ok

replay-Purged :
    {agent : AgentId} {target : OperationId} {now : ℤ} {audit : NewAuditRecord} {a b : Db}
    → Purged agent target now audit a b
    → b.replay ≡ a.replay
unfolding insert_audit insert_tombstone delete_agent_row Operations.set_status
replay-Purged p = ground (arith, p.audit_ok, p.result)

replay-apply_mutation :
    (operation : DurableOperation) (mutation : AgentCommandMutation) (a b : Db)
    → Command.apply_mutation operation mutation a ≡ ok b
    → b.replay ≡ a.replay
unfolding Command.apply_mutation insert_agent load_agent_transaction update_agent_transaction
    Command.update_retention Command.upsert_retention
replay-apply_mutation operation mutation a b h = ground arith

replay-fresh_command :
    (operation : DurableOperation) (entry : IdempotencyRecord) (mutation : AgentCommandMutation)
    (draft : Option String) (audit : NewAuditRecord) (a b : Db) (r : DurableOperation × Bool)
    → Command.fresh_command operation entry mutation draft audit a ≡ ok (r, b)
    → b.replay ≡ a.replay
unfolding Command.fresh_command insert_operation insert_idempotency Command.promote insert_audit
replay-fresh_command operation entry mutation draft audit a b r h =
    let (c, e, h') = >>=-eq-ok (Command.apply_mutation operation mutation a) _ h in
    let one = replay-apply_mutation operation mutation a c e in ground arith

replay-apply_agent_command :
    (operation : DurableOperation) (entry : IdempotencyRecord) (mutation : AgentCommandMutation)
    (draft : Option String) (audit : NewAuditRecord) (a b : Db) (r : DurableOperation × Bool)
    → Command.apply_agent_command operation entry mutation draft audit a ≡ ok (r, b)
    → b.replay ≡ a.replay
unfolding Command.apply_agent_command Command.replay_command
replay-apply_agent_command operation entry mutation draft audit a b r h =
    elim (Option-cases (idempotency_row entry.scope entry.key a)) [
      | inl e ↦ replay-fresh_command operation entry mutation draft audit a b r (ground arith)
      | inr (row, e) ↦ ground arith
    ]

pub replay-perform :
    (c : Call) (a b : Db) → claims_replay c ≡ false → perform c a ≡ ok b → b.replay ≡ a.replay
unfolding perform
replay-perform (Call.put_community c now) a b q h = unfold Communities.put_community in ground arith
replay-perform (Call.delete_community c) a b q h =
    unfold Communities.delete_community in ground arith
replay-perform (Call.delete_community_with_deleted_agents draws c now) a b q h =
    let (ids, e) = db_of-eq-ok (Communities.delete_community_with_deleted_agents draws c now a) h in
    (replay-CommunityRemoved (delete_community-CommunityRemoved draws c now a b ids e))
replay-perform (Call.put_agent spec now) a b q h =
    unfold Retention.put_agent insert_agent update_agent_transaction in ground arith
replay-perform (Call.remove_agent agent) a b q h =
    unfold Retention.remove_agent delete_agent_row in ground arith
replay-perform (Call.complete_purge agent target now audit) a b q h =
    let (u, e) = db_of-eq-ok (Retention.complete_purge agent target now audit a) h in
    (replay-Purged (complete_purge-Purged agent target now audit a b u e))
replay-perform (Call.create_operation operation) a b q h =
    unfold Operations.create_operation insert_operation in ground arith
replay-perform (Call.delete_operation target) a b q h =
    unfold Operations.delete_operation delete_operation_row in ground arith
replay-perform (Call.transition_operation target next code now) a b q h =
    unfold Operations.transition_operation Operations.set_status in ground arith
replay-perform (Call.claim_idempotency entry) a b q h =
    unfold Operations.claim_idempotency insert_idempotency in ground arith
replay-perform (Call.apply_agent_command operation entry mutation draft audit) a b q h =
    let (r, e) =
      db_of-eq-ok (Command.apply_agent_command operation entry mutation draft audit a) h in
    replay-apply_agent_command operation entry mutation draft audit a b r e
replay-perform (Call.append_audit entry) a b q h =
    unfold Audits.append_audit insert_audit in ground arith
replay-perform (Call.put_draft draft now) a b q h = unfold Drafts.put_draft in ground arith
replay-perform (Call.delete_draft draft) a b q h = unfold Drafts.delete_draft in ground arith
replay-perform (Call.apply_draft_command draft s1 k1 hash now audit) a b q h =
    unfold Drafts.apply_draft_command in ground arith
replay-perform (Call.append_redacted_log agent entry) a b q h =
    unfold Drafts.append_redacted_log in ground arith
replay-perform (Call.claim_nip98_replay event expires now) a b q h = ground arith
replay-perform (Call.ensure_auto_join_enabled_at agent now) a b q h =
    unfold Boundary.ensure_auto_join_enabled_at in ground arith
replay-perform (Call.clear_auto_join_enabled_at agent) a b q h =
    unfold Boundary.clear_auto_join_enabled_at in ground arith
replay-perform (Call.record_relay_projection kind subject target now) a b q h =
    unfold Relay.record_relay_projection in ground arith
replay-perform (Call.enqueue_relay_publication n action target subject now) a b q h =
    unfold Relay.enqueue_relay_publication in ground arith
replay-perform (Call.complete_relay_publication n) a b q h =
    unfold Relay.complete_relay_publication in ground arith
replay-perform (Call.fail_relay_publication n error now) a b q h =
    unfold Relay.fail_relay_publication in ground arith
replay-perform (Call.remove_relay_projection community kind subject) a b q h =
    unfold Relay.remove_relay_projection in ground arith
