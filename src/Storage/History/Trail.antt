-- ===== src/Storage/History/Trail.antt =====
-- The audit table is touched by the calls that write a record alone (src/storage.rs).
use buzz_server.Base.{
  Bool, false, true, ok, ◌≡◌, ◌∙◌, arith, nat_eq, string_eq, >>=-eq-ok, List, [], ◌∷◌,
}
use buzz_server.Base.Int.{ℤ}
use buzz_server.Agent.{AgentId, CommunityConfigId}
use buzz_server.Storage.Schema.{ProjectionRow, Db, DurableOperation}
use buzz_server.Storage.Statements.{
  load_agent_transaction, insert_idempotency, insert_operation, delete_agent_row,
  delete_operation_row, insert_agent, update_agent_transaction,
}
use buzz_server.Storage.Operations
use buzz_server.Storage.Retention.{insert_tombstone}
use buzz_server.Storage.Relay.{insert_publication}
use buzz_server.Storage.Communities
use buzz_server.Storage.Communities.{Draws, purge_all, purge_deleted, tombstone_personas}
use buzz_server.Storage.History.Purges.{CommunityRemoved, delete_community-CommunityRemoved}
use buzz_server.Storage.Command
use buzz_server.Storage.Command.{AgentCommandMutation, apply_agent_command, replay_command}
use buzz_server.Storage.Retention
use buzz_server.Storage.Relay
use buzz_server.Storage.Drafts
use buzz_server.Storage.Boundary
use buzz_server.Storage.Calls.{Call, perform}
use buzz_server.Storage.History.Methods.{db_of-eq-ok}

-- The calls that write an audit record.
abbrev pub audits_change : Call → Bool
audits_change (Call.complete_purge agent target now audit) = true
audits_change (Call.apply_agent_command operation entry mutation draft audit) = true
audits_change (Call.append_audit entry) = true
audits_change (Call.apply_draft_command draft scope key hash now audit) = true
audits_change _ = false

audits-purge_deleted :
    (draws : Draws) (community : CommunityConfigId) (now : ℤ) (agent : AgentId) (a b : Db)
    → purge_deleted draws community now agent a ≡ ok b
    → b.audits ≡ a.audits
unfolding purge_deleted Communities.tombstone_projection insert_publication insert_operation
    insert_tombstone delete_agent_row
audits-purge_deleted draws community now agent a b h = ground arith

audits-purge_all :
    (draws : Draws) (community : CommunityConfigId) (now : ℤ) (agents : List AgentId) (a b : Db)
    → purge_all draws community now agents a ≡ ok b
    → b.audits ≡ a.audits
unfolding purge_all
audits-purge_all draws community now [] a b h = ground arith
audits-purge_all draws community now (agent ∷ rest) a b h =
    let (c, e, h') = >>=-eq-ok (purge_deleted draws community now agent a) _ h in
    audits-purge_all draws community now rest c b h'
    ∙ audits-purge_deleted draws community now agent a c e

audits-tombstone_personas :
    (draws : Draws) (now : ℤ) (rows : List ProjectionRow) (a b : Db)
    → tombstone_personas draws now rows a ≡ ok b
    → b.audits ≡ a.audits
unfolding tombstone_personas
audits-tombstone_personas draws now [] a b h = ground arith
audits-tombstone_personas draws now (r ∷ rs) a b h =
    let (c, e, h') = >>=-eq-ok (insert_publication _ _ r.scope r.subject_id now a) _ h in
    let one : c.audits ≡ a.audits = unfold insert_publication in ground arith in
    audits-tombstone_personas draws now rs c b h' ∙ one

audits-CommunityRemoved :
    {draws : Draws} {community : CommunityConfigId} {now : ℤ} {a b : Db} {ids : List AgentId}
    → CommunityRemoved draws community now a b ids
    → b.audits ≡ a.audits
unfolding Communities.delete_community_row
audits-CommunityRemoved {draws} {community} {now} {a} {b} {ids} r =
    let last : b.audits ≡ r.announced.audits = ground (arith, r.remove_ok) in
    last
    ∙ audits-tombstone_personas draws now _ r.purged r.announced r.announce_ok
    ∙ audits-purge_all draws community now ids a r.purged r.purge_ok

pub audits-apply_mutation :
    (operation : DurableOperation) (mutation : AgentCommandMutation) (a b : Db)
    → Command.apply_mutation operation mutation a ≡ ok b
    → b.audits ≡ a.audits
unfolding Command.apply_mutation insert_agent load_agent_transaction update_agent_transaction
    Command.update_retention Command.upsert_retention
audits-apply_mutation operation mutation a b h = ground arith

pub audits-perform :
    (c : Call) (a b : Db) → audits_change c ≡ false → perform c a ≡ ok b → b.audits ≡ a.audits
unfolding perform
audits-perform (Call.put_community c now) a b q h = unfold Communities.put_community in ground arith
audits-perform (Call.delete_community c) a b q h =
    unfold Communities.delete_community in ground arith
audits-perform (Call.delete_community_with_deleted_agents draws c now) a b q h =
    let (ids, e) = db_of-eq-ok (Communities.delete_community_with_deleted_agents draws c now a) h in
    (audits-CommunityRemoved (delete_community-CommunityRemoved draws c now a b ids e))
audits-perform (Call.put_agent spec now) a b q h =
    unfold Retention.put_agent insert_agent update_agent_transaction in ground arith
audits-perform (Call.remove_agent agent) a b q h =
    unfold Retention.remove_agent delete_agent_row in ground arith
audits-perform (Call.complete_purge agent target now audit) a b q h = ground arith
audits-perform (Call.create_operation operation) a b q h =
    unfold Operations.create_operation insert_operation in ground arith
audits-perform (Call.delete_operation target) a b q h =
    unfold Operations.delete_operation delete_operation_row in ground arith
audits-perform (Call.transition_operation target next code now) a b q h =
    unfold Operations.transition_operation Operations.set_status in ground arith
audits-perform (Call.claim_idempotency entry) a b q h =
    unfold Operations.claim_idempotency insert_idempotency in ground arith
audits-perform (Call.apply_agent_command operation entry mutation draft audit) a b q h =
    ground arith
audits-perform (Call.append_audit entry) a b q h = ground arith
audits-perform (Call.put_draft draft now) a b q h = unfold Drafts.put_draft in ground arith
audits-perform (Call.delete_draft draft) a b q h = unfold Drafts.delete_draft in ground arith
audits-perform (Call.apply_draft_command draft s1 k1 hash now audit) a b q h = ground arith
audits-perform (Call.append_redacted_log agent entry) a b q h =
    unfold Drafts.append_redacted_log in ground arith
audits-perform (Call.claim_nip98_replay event expires now) a b q h =
    unfold Boundary.claim_nip98_replay in ground arith
audits-perform (Call.ensure_auto_join_enabled_at agent now) a b q h =
    unfold Boundary.ensure_auto_join_enabled_at in ground arith
audits-perform (Call.clear_auto_join_enabled_at agent) a b q h =
    unfold Boundary.clear_auto_join_enabled_at in ground arith
audits-perform (Call.record_relay_projection kind subject target now) a b q h =
    unfold Relay.record_relay_projection in ground arith
audits-perform (Call.enqueue_relay_publication n action target subject now) a b q h =
    unfold Relay.enqueue_relay_publication in ground arith
audits-perform (Call.complete_relay_publication n) a b q h =
    unfold Relay.complete_relay_publication in ground arith
audits-perform (Call.fail_relay_publication n error now) a b q h =
    unfold Relay.fail_relay_publication in ground arith
audits-perform (Call.remove_relay_projection community kind subject) a b q h =
    unfold Relay.remove_relay_projection in ground arith
