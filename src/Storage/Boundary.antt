-- ===== src/Storage/Boundary.antt =====
-- src/storage.rs: the guard against replayed NIP-98 events, and the boundary of auto-join.
use buzz_server.Base.{
  ◌||◌, ◌>>◌, fail_if, ℕ, Bool, true, false, Option, String, ok, ◌>>=◌, ok_or, ◌==◌, nat_eq,
  string_eq, ltb, is_some, if◌then◌else◌, find, delete_where, insert_row,
}
use buzz_server.Base.Int.{ℤ}
use buzz_server.Agent.{AgentId}
use buzz_server.Storage.Schema.{database, AutoJoinRow, Db, Query}

-- The largest number that a column of SQLite holds: binding a larger u64 is an error.
abbrev pub integer_max : ℕ
integer_max = 9223372036854775807

-- DELETE … WHERE expires_at < now, then INSERT OR IGNORE; true if a row was inserted.
unfoldable pub claim_nip98_replay : String → ℕ → ℕ → Query Bool
unfolding find delete_where insert_row
claim_nip98_replay event_id expires_at now db = do
  fail_if (ltb integer_max now || ltb integer_max expires_at) database
  let live = delete_where (λ r. ltb r.expires_at now) db.replay
  if is_some (find (λ r. r.event_id == event_id) live)
      then ok (false, record db { replay = live })
      else ok (
        true,
        record db {
          replay = insert_row (record { event_id = event_id; expires_at = expires_at }) live;
        },
      )

unfoldable pub auto_join_row : AgentId → Db → Option AutoJoinRow
unfolding find
auto_join_row id db = find (λ r. r.agent_id == id) db.auto_join

-- INSERT OR IGNORE, then SELECT.
unfoldable pub ensure_auto_join_enabled_at : AgentId → ℤ → Query ℤ
unfolding auto_join_row insert_row
ensure_auto_join_enabled_at id now db = do
  let db' = if is_some (auto_join_row id db) then db else record db {
    auto_join = insert_row (record { agent_id = id; enabled_at = now }) db.auto_join;
  }
  row ← ok_or (auto_join_row id db') database
  ok (row.enabled_at, db')

unfoldable pub clear_auto_join_enabled_at : AgentId → Query (Unit {0})
unfolding delete_where
clear_auto_join_enabled_at id db =
    ok (tt, record db { auto_join = delete_where (λ r. r.agent_id == id) db.auto_join })
