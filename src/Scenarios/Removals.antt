-- ===== src/Scenarios/Removals.antt =====
-- A deleted agent: disabled before its deadline, or purged (src/storage.rs).
use buzz_server.Base.{true, false, none, some, [], ◌∷◌, ok, ◌≡◌, refl, All, map, select}
use buzz_server.Base.Int.{pos}
use buzz_server.Operation
use buzz_server.Operation.{disable_agent, purge_agent, running, succeeded, delete_agent}
use buzz_server.Agent.{AgentSpec, disabled, deleted}
use buzz_server.Storage.Schema.{DurableOperation, RetentionRow, Db, AgentRow}
use buzz_server.Storage.Statements
use buzz_server.Storage.Statements.{operation_row, retention_row}
use buzz_server.Storage.Operations
use buzz_server.Storage.Retention
use buzz_server.Storage.Retention.{
  get_agent, agent_retention, is_agent_purged, complete_purge, list_agents,
}
use buzz_server.Storage.Command
use buzz_server.Storage.Command.{set_state, apply_agent_command}
use buzz_server.Storage.Command.Deadlines.{retention_row-apply_agent_command}
use buzz_server.Storage.Command.Sweep.{is_expired, apply_agent_command_expired}
use buzz_server.Storage.History.Ends.{complete_purge_gone}
use buzz_server.Storage.Communities
use buzz_server.Storage.Relay
use buzz_server.Storage.Communities.{Draws, get_community, delete_community_with_deleted_agents}
use buzz_server.Storage.History.Purges.{members}
use buzz_server.Storage.History.Closing.{delete_community_with_deleted_agents_gone}
use buzz_server.Scenarios.Commands.{scout, request, entry, note, before}

abbrev pub doomed : AgentSpec
doomed = record scout { desired_state = deleted }

abbrev due : RetentionRow
due = record { agent_id = 7; retention = record { deleted_at = pos 10; purge_after = pos 200 } }

-- The agent is deleted and due for a purge at 200.
abbrev pub retained : Db
retained = record before {
  agents = record { id = 7; community_config_id = 1; document = doomed; updated_at = pos 10 } ∷ [];
  retention = due ∷ [];
}

abbrev disabling : DurableOperation
disabling = record request { kind = disable_agent }

-- The database after the disable.
abbrev rescued : Db
rescued = record retained {
  agents =
      record {
        id = 7;
        community_config_id = 1;
        document = record scout { desired_state = disabled };
        updated_at = pos 100;
      }
      ∷ [];
  operations = disabling ∷ [];
  idempotency = entry ∷ [];
  audits = record { sequence = 1; entry = note } ∷ [];
  audit_sequence = 1;
}

disables :
    apply_agent_command disabling entry (set_state 7 disabled none) none note retained
    ≡ ok ((disabling, false), rescued)
unfolding apply_agent_command Statements.idempotency_row Command.fresh_command
    Command.apply_mutation Statements.insert_operation Statements.insert_idempotency Command.promote
    Statements.insert_audit
disables = refl

is_doomed : get_agent 7 retained ≡ some doomed
unfolding get_agent
is_doomed = refl

is_due : retention_row 7 retained ≡ some due
unfolding retention_row
is_due = refl

retention_row-apply_agent_command_example : retention_row 7 rescued ≡ retention_row 7 retained
retention_row-apply_agent_command_example =
    retention_row-apply_agent_command disabling entry 7 disabled none none note retained rescued
      disabling disables

apply_agent_command_expired_example :
    (get_agent 7 rescued ≡ some (record doomed { desired_state = disabled }))
    × (is_expired 7 (pos 200) rescued ≡ true)
apply_agent_command_expired_example =
    apply_agent_command_expired disabling entry 7 none none note retained rescued disabling doomed
      due (pos 200) refl disables is_doomed refl is_due refl

abbrev purging : DurableOperation
purging = record request { kind = purge_agent; status = running }

abbrev stopping : Db
stopping = record retained { operations = purging ∷ [] }

abbrev purged : Db
purged = record retained {
  agents = [];
  retention = [];
  operations = record purging { status = succeeded; agent_id = none; updated_at = pos 300 } ∷ [];
  audits = record { sequence = 1; entry = note } ∷ [];
  audit_sequence = 1;
  tombstones = record { agent_id = 7; purged_at = pos 300; purge_operation_id = 5 } ∷ [];
}

purges : complete_purge 7 5 (pos 300) note stopping ≡ ok (tt, purged)
unfolding complete_purge Retention.purge_row operation_row Operation.can_transition_to
    Statements.agent_row Statements.insert_audit Statements.delete_agent_row
    Retention.insert_tombstone Operations.set_status
purges = refl

complete_purge_gone_example :
    (get_agent 7 purged ≡ none)
    × (agent_retention 7 purged ≡ none)
    × (is_agent_purged 7 purged ≡ true)
    × (o : DurableOperation) × (operation_row 5 purged ≡ some o)
    × (o.status ≡ succeeded)
    × (o.error_code ≡ none)
    × (o.agent_id ≡ none)
complete_purge_gone_example = complete_purge_gone 7 5 (pos 300) note stopping purged purges

-- The agent's delete has finished, and the community is removed.
abbrev deleting : DurableOperation
deleting = record request { kind = delete_agent; status = succeeded }

abbrev closing : Db
closing = record retained { operations = deleting ∷ [] }

abbrev draws : Draws
draws = record { display = λ _. "1"; operation = λ _. 9; publication = λ _ _. 1 }

abbrev closed : Db
closed = record retained {
  communities = [];
  agents = [];
  retention = [];
  operations =
      record deleting { agent_id = none }
      ∷ record {
        id = 9;
        kind = purge_agent;
        status = succeeded;
        agent_id = none;
        error_code = none;
        created_at = pos 400;
        updated_at = pos 400;
        correlation_id = "community-delete:1";
      }
      ∷ [];
  tombstones = record { agent_id = 7; purged_at = pos 400; purge_operation_id = 9 } ∷ [];
}

closes : delete_community_with_deleted_agents draws 1 (pos 400) closing ≡ ok (7 ∷ [], closed)
unfolding delete_community_with_deleted_agents Statements.community_row Communities.check_deleted
    select Communities.purge_all Communities.purge_deleted Communities.tombstone_projection
    Relay.projection_row Statements.insert_operation Communities.purge_record
    Communities.tombstone_personas Statements.delete_agent_row Retention.insert_tombstone
    Communities.delete_community_row
closes = refl

delete_community_with_deleted_agents_gone_example :
    (get_community 1 closed ≡ none)
    × (list_agents (some 1) closed ≡ [])
    × All (λ (r : AgentRow). r.document.desired_state ≡ deleted) (members 1 closing)
    × (7 ∷ [] ≡ map (λ (r : AgentRow). r.id) (members 1 closing))
    × All (λ x. is_agent_purged x closed ≡ true) (7 ∷ [])
delete_community_with_deleted_agents_gone_example =
    delete_community_with_deleted_agents_gone draws 1 (pos 400) closing closed (7 ∷ []) closes
