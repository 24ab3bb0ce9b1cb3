-- ===== src/Storage/Audits.antt =====
-- src/storage.rs: the audit history.
use buzz_server.Base.{ℕ, List, String, some, ok, ◌>>=◌, ◌==◌, string_eq, option_eq, ◌&&◌, select}
use buzz_server.Storage.Schema.{NewAuditRecord, AuditRecord, Db, Query}
use buzz_server.Storage.Statements.{insert_audit}

unfoldable pub append_audit : NewAuditRecord → Query ℕ
append_audit entry db = do db' ← insert_audit entry db; ok (db'.audit_sequence, db')

unfoldable pub audit_for_subject : String → String → Db → List AuditRecord
unfolding select
audit_for_subject subject_type subject_id db =
    select (λ r. r.subject_type == subject_type && r.subject_id == some subject_id) db.audits
