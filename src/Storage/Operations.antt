-- ===== src/Storage/Operations.antt =====
-- src/storage.rs: the durable operations and the idempotency keys.
use buzz_server.Base.{
  List, select, order_by, ◌&&◌, ◌||◌, ltb, true, not, Option, none, some, ok, err, ◌>>=◌, ◌>>◌,
  fail_if, ok_or, ◌==◌, nat_eq, string_eq, if◌then◌else◌, update_where,
}
use buzz_server.Base.Int.{ℤ, leb_ℤ}
use buzz_server.Operation.{OperationStatus, pending, running, status_eq, can_transition_to}
use buzz_server.Storage.Schema.{
  OperationId, ErrorCode, Detail, StorageError, not_found, conflict, DurableOperation,
  IdempotencyRecord, Db, Query,
}
use buzz_server.Storage.Statements.{
  operation_row, idempotency_row, insert_operation, insert_idempotency, delete_operation_row,
}

unfoldable pub create_operation : DurableOperation → Query (Unit {0})
create_operation operation db = do db' ← insert_operation operation db; ok (tt, db')

unfoldable pub delete_operation : OperationId → Query (Unit {0})
delete_operation id db = ok (tt, delete_operation_row id db)

unfoldable pub get_operation : OperationId → Db → Option DurableOperation
unfolding operation_row
get_operation id db = operation_row id db

-- WHERE status IN ('pending','running') ORDER BY created_at, id
unfoldable pub nonterminal_operations : Db → List DurableOperation
unfolding select order_by
nonterminal_operations db =
    order_by
      (λ a b.
        if leb_ℤ b.created_at a.created_at
        then leb_ℤ a.created_at b.created_at && ltb a.id b.id
        else true)
      (select (λ r. r.status == pending || r.status == running) db.operations)

-- UPDATE operations SET status, error_code, updated_at
unfoldable pub set_status : OperationId → OperationStatus → Option ErrorCode → ℤ → Db → Db
unfolding update_where
set_status id next error_code now db = record db {
  operations =
      update_where (λ r. r.id == id)
        (λ r. record r { status = next; error_code = error_code; updated_at = now }) db.operations;
}

unfoldable pub transition_operation :
    OperationId → OperationStatus → Option ErrorCode → ℤ → Query (Unit {0})
transition_operation id next error_code now db = do
  current ← ok_or (operation_row id db) not_found
  fail_if (not (can_transition_to current.status next))
      (conflict (Detail.transition current.status next))
  ok (tt, set_status id next error_code now db)

abbrev pub key_reused : StorageError
key_reused = conflict (Detail.text "idempotency key was reused with a different request")

unfoldable pub claim_idempotency : IdempotencyRecord → Query OperationId
claim_idempotency entry db = elim (idempotency_row entry.scope entry.key db) [
  | some row ↦
      if row.request_hash == entry.request_hash then ok (row.operation_id, db) else err key_reused
  | none ↦ do db' ← insert_idempotency entry db; ok (entry.operation_id, db')
]
