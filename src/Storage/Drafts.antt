-- ===== src/Storage/Drafts.antt =====
-- src/storage.rs: drafts and the redacted logs of agents.
use buzz_server.Base.{
  ℕ, zero, suc, Bool, true, false, ◌&&◌, Option, none, some, List, [], ◌∷◌, map, String, ok, err,
  ◌>>=◌, ◌>>◌, fail_if, ok_or, ◌==◌, nat_eq, string_eq, is_some, ltb, if◌then◌else◌, find, select,
  update_where, delete_where, insert_row, not,
}
use mathlib.Core.Option
use buzz_server.Base.Int.{ℤ}
use buzz_server.Agent.{AgentId}
use buzz_server.Storage.Schema.{
  Detail, database, invalid_data, DraftResource, DraftRow, DraftIdempotencyRow, RedactedLogEntry,
  NewAuditRecord, Db, Query,
}
use buzz_server.Storage.Statements.{
  constraint_violation, agent_row, contains_secret_marker, insert_audit,
}
use buzz_server.Storage.Operations.{key_reused}

unfoldable pub draft_row : String → Db → Option DraftRow
unfolding find
draft_row id db = find (λ r. r.id == id) db.drafts

abbrev new_draft_row : DraftResource → ℤ → DraftRow
new_draft_row draft now = record {
  id = draft.id;
  owner_key = draft.owner;
  document = draft;
  promoted_operation_id = none;
  created_at = now;
  updated_at = now;
}

unfoldable pub put_draft : DraftResource → ℤ → Query (Unit {0})
unfolding draft_row update_where insert_row
put_draft draft now db = ok (
  tt,
  record db {
    drafts =
        if is_some (draft_row draft.id db)
        then update_where (λ r. r.id == draft.id)
            (λ r. record r { owner_key = draft.owner; document = draft; updated_at = now })
            db.drafts
        else insert_row (new_draft_row draft now) db.drafts;
  },
)

unfoldable pub get_draft : String → Db → Option DraftResource
unfolding draft_row
get_draft id db = Option.map (λ r. r.document) (draft_row id db)

-- The idempotency keys of the draft go with it.
unfoldable pub delete_draft : String → Query (Unit {0})
unfolding delete_where
delete_draft id db = ok (
  tt,
  record db {
    drafts = delete_where (λ r. r.id == id) db.drafts;
    draft_idempotency = delete_where (λ r. r.draft_id == id) db.draft_idempotency;
  },
)

unfoldable pub draft_key_row : String → String → Db → Option DraftIdempotencyRow
unfolding find
draft_key_row scope key db =
    find (λ r. r.principal_scope == scope && r.key == key) db.draft_idempotency

unfoldable pub replay_draft : DraftIdempotencyRow → String → Query (DraftResource × Bool)
unfolding draft_row
replay_draft row request_hash db =
    if row.request_hash == request_hash
    then (do
      existing ← ok_or (draft_row row.draft_id db) database
      ok ((existing.document, true), db))
    else err key_reused

unfoldable pub fresh_draft :
    DraftResource → String → String → String → ℤ → NewAuditRecord → Query (DraftResource × Bool)
unfolding draft_row insert_row insert_audit
fresh_draft draft scope key request_hash now audit db = do
  fail_if (is_some (draft_row draft.id db)) database
  let db1 = record db {
    drafts = insert_row (new_draft_row draft now) db.drafts;
    draft_idempotency =
        insert_row
          (record {
            principal_scope = scope;
            key = key;
            request_hash = request_hash;
            draft_id = draft.id;
            created_at = now;
          })
          db.draft_idempotency;
  }
  db2 ← insert_audit audit db1
  ok ((draft, false), db2)

unfoldable pub apply_draft_command :
    DraftResource → String → String → String → ℤ → NewAuditRecord → Query (DraftResource × Bool)
unfolding draft_key_row replay_draft fresh_draft
apply_draft_command draft scope key request_hash now audit db = elim (draft_key_row scope key db) [
  | some row ↦ replay_draft row request_hash db
  | none ↦ fresh_draft draft scope key request_hash now audit db
]

-- INSERT OR IGNORE under UNIQUE(agent_id, cursor); a missing agent is a constraint violation.
unfoldable pub append_redacted_log : AgentId → RedactedLogEntry → Query (Unit {0})
unfolding contains_secret_marker agent_row find insert_row
append_redacted_log agent_id entry db = do
  fail_if (contains_secret_marker entry.redacted_message)
      (invalid_data (Detail.text "log entry contains a credential-like marker"))
  if is_some (find (λ r. r.agent_id == agent_id && r.cursor == entry.cursor) db.logs)
      then ok (tt, db)
      else (do
        fail_if (not (is_some (agent_row agent_id db))) constraint_violation
        ok (
          tt,
          record db {
            logs =
                insert_row
                  (record { sequence = suc db.log_sequence; agent_id = agent_id; entry = entry })
                  db.logs;
            log_sequence = suc db.log_sequence;
          },
        ))

-- LIMIT ?3
unfoldable pub limited {ℓ} : {A : Type ℓ} → ℕ → List A → List A
limited zero rs = []
limited (suc n) [] = []
limited (suc n) (r ∷ rs) = r ∷ limited n rs

-- An unknown cursor starts from the beginning: COALESCE(…, 0).
unfoldable pub cursor_sequence : AgentId → String → Db → ℕ
unfolding find
cursor_sequence agent_id cursor db =
    elim (find (λ r. r.agent_id == agent_id && r.cursor == cursor) db.logs) [
      | none ↦ 0
      | some r ↦ r.sequence
    ]

-- Rows are inserted in the order of their sequence numbers, so the table's order is ORDER BY's.
unfoldable pub agent_logs : AgentId → Option String → ℕ → Db → List RedactedLogEntry
unfolding select limited cursor_sequence
agent_logs agent_id after_cursor limit db =
    map (λ r. r.entry)
      (limited limit (
        select
          (λ r. r.agent_id == agent_id && elim after_cursor [
            | none ↦ true
            | some cursor ↦ ltb (cursor_sequence agent_id cursor db) r.sequence
          ])
          db.logs))
