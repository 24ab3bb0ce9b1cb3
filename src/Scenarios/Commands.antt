-- ===== src/Scenarios/Commands.antt =====
-- A community with one agent created in it, and what the database then does (src/storage.rs).
use buzz_server.Base.{
  String, none, some, List, [], ◌∷◌, ok, err, ◌≡◌, refl, true, false, ◌≤◌, length, ◌==◌, string_eq,
  if◌then◌else◌, ◌↔◌,
}
use buzz_server.Base.Int.{pos}
use buzz_server.Operation.{
  OperationStatus, pending, running, succeeded, create_agent, can_transition_to, is_terminal,
}
use buzz_server.Operation.Machine.{stop, step, steps_left, length-Run, is_terminal_iff}
use buzz_server.Agent.{AgentSpec, enabled}
use buzz_server.Community.{CommunityConfig, Url}
use buzz_server.Storage.Schema.{DurableOperation, NewAuditRecord, IdempotencyRecord, Db, empty_db}
use buzz_server.Agent
use buzz_server.Operation
use buzz_server.Storage.Statements
use buzz_server.Storage.Command
use buzz_server.Storage.Statements.{operation_row}
use buzz_server.Storage.Operations.{key_reused}
use buzz_server.Storage.Command.{AgentCommandMutation, apply_agent_command}
use buzz_server.Storage.Command.Replay.{apply_agent_command-replay}
use buzz_server.Storage.Calls.{Call, run_calls}
use buzz_server.Storage.History.Steps.{Later}
use buzz_server.Storage.History.Lives.{run_calls-Later, run_calls-terminal}
use buzz_server.Storage.History.Clean.{Clean, run_calls-Clean}
use buzz_server.Storage.History.Claims.{apply_agent_command-once}

abbrev pub relay : Url
relay = record {
  href = "wss://relay.test/";
  scheme = "wss";
  host_str = some "relay.test";
  username = "";
  password = none;
  query = none;
  fragment = none;
}

abbrev pub team : CommunityConfig
team = record { id = 1; display_name = "Team"; relay_url = relay; identity_pubkey = none }

abbrev pub scout : AgentSpec
scout = record {
  id = 7;
  community_config_id = 1;
  display_name = "Scout";
  system_prompt = "";
  runtime = record { runtime_id = "goose"; environment = [] };
  desired_state = enabled;
}

abbrev pub request : DurableOperation
request = record {
  id = 5;
  kind = create_agent;
  status = pending;
  agent_id = some 7;
  error_code = none;
  created_at = pos 100;
  updated_at = pos 100;
  correlation_id = "c1";
}

abbrev pub entry : IdempotencyRecord
entry = record {
  scope = "root";
  key = "k1";
  request_hash = "h1";
  operation_id = 5;
  created_at = pos 100;
}

abbrev pub note : NewAuditRecord
note = record {
  occurred_at = pos 100;
  actor_principal = "root";
  authentication_method = "unix_peer";
  community_config_id = some 1;
  operation_id = some 5;
  correlation_id = "c1";
  idempotency_key = some "k1";
  action = "create_agent";
  subject_type = "agent";
  subject_id = some "7";
  outcome = "accepted";
  redacted_detail = none;
}

-- The database with the community alone.
abbrev pub before : Db
before = record empty_db {
  communities = record { id = 1; document = team; updated_at = pos 90 } ∷ [];
}

-- The database after the agent's creation was accepted.
abbrev pub accepted : Db
accepted = record before {
  agents = record { id = 7; community_config_id = 1; document = scout; updated_at = pos 100 } ∷ [];
  operations = request ∷ [];
  idempotency = entry ∷ [];
  audits = record { sequence = 1; entry = note } ∷ [];
  audit_sequence = 1;
}

-- The database when that operation has succeeded.
abbrev done : DurableOperation
done = record request { status = succeeded; updated_at = pos 120 }

abbrev finished : Db
finished = record accepted { operations = done ∷ [] }

accepts :
    apply_agent_command request entry (AgentCommandMutation.create scout) none note before
    ≡ ok ((request, false), accepted)
unfolding apply_agent_command Statements.idempotency_row Command.fresh_command
    Command.apply_mutation Agent.validate Statements.insert_operation Statements.insert_idempotency
    Command.promote Statements.insert_audit
accepts = refl

request_stored : operation_row 5 accepted ≡ some request
unfolding operation_row
request_stored = refl

done_stored : operation_row 5 finished ≡ some done
unfolding operation_row
done_stored = refl

abbrev work : List Call
work =
    Call.transition_operation 5 running none (pos 110)
    ∷ Call.transition_operation 5 succeeded none (pos 120)
    ∷ Call.transition_operation 5 running none (pos 130)
    ∷ []

length-Run_example : length (running ∷ succeeded ∷ []) ≤ steps_left pending
unfolding can_transition_to
length-Run_example =
    length-Run
      (step {s = pending} {t = running} refl (step {s = running} {t = succeeded} refl stop))

apply_agent_command-replay_example :
    apply_agent_command request
      (record entry { request_hash = "h2" })
      (AgentCommandMutation.create scout)
      none
      note
      accepted
    ≡ (if ◌==◌ {T = String} "h1" "h2" then ok ((request, true), accepted) else err key_reused)
apply_agent_command-replay_example =
    apply_agent_command-replay request entry (AgentCommandMutation.create scout) none note before
      accepted request request (record entry { request_hash = "h2" })
      (AgentCommandMutation.create scout) none note accepts refl refl

run_calls-Later_example :
    (o : DurableOperation) × (operation_row 5 (run_calls accepted work) ≡ some o) × Later request o
run_calls-Later_example =
    run_calls-Later 5 accepted work (refl, (refl, (refl, tt))) request request_stored

run_calls-terminal_example :
    (o : DurableOperation) × (operation_row 5 (run_calls finished work) ≡ some o)
    × (o.status ≡ succeeded)
unfolding Operation.is_terminal
run_calls-terminal_example =
    run_calls-terminal 5 finished work (refl, (refl, (refl, tt))) done done_stored refl

apply_agent_command-once_example :
    (o : DurableOperation) × Later request o
    × (apply_agent_command request entry
          (AgentCommandMutation.create scout)
          none
          note
          (run_calls accepted work)
        ≡ ok ((o, true), run_calls accepted work))
apply_agent_command-once_example =
    apply_agent_command-once request entry (AgentCommandMutation.create scout) none note before
      accepted request request entry (AgentCommandMutation.create scout) none note work accepts
      (refl, (refl, (refl, tt))) refl refl refl

is_terminal_iff_example :
    (is_terminal running ≡ true) ↔ ((t : OperationStatus) → can_transition_to running t ≡ false)
is_terminal_iff_example = is_terminal_iff running

-- A record with a credential in its detail is refused, and the others stay.
abbrev tries : List Call
tries =
    Call.append_audit (record note { redacted_detail = some "token=1" })
    ∷ Call.append_audit note
    ∷ []

run_calls-Clean_example : Clean (run_calls accepted tries)
run_calls-Clean_example = run_calls-Clean accepted tries (refl, tt)
