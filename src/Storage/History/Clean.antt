-- ===== src/Storage/History/Clean.antt =====
-- No audit record ever holds a credential-like marker (src/storage.rs).
use buzz_server.Base.{
  Bool, false, Option, none, String, List, [], ◌∷◌, ℕ, suc, Result, ok, err, ◌≡◌, ◌∙◌, refl, arith,
  sym, subst, All, All-insert_row, insert_row, Option-cases, inl, inr, fail_if-eq-ok, >>=-eq-ok,
  string_eq,
}
use buzz_server.Base.Int.{ℤ}
use buzz_server.Operation.{succeeded}
use buzz_server.Agent.{AgentId}
use buzz_server.Storage.Schema.{
  OperationId, StorageError, DurableOperation, DraftResource, NewAuditRecord, IdempotencyRecord, Db,
}
use buzz_server.Storage.Statements.{
  is_some_and, contains_secret_marker, idempotency_row, insert_operation, insert_idempotency,
  insert_audit, delete_agent_row,
}
use buzz_server.Storage.Audits
use buzz_server.Storage.Operations
use buzz_server.Storage.Command
use buzz_server.Storage.Command.{AgentCommandMutation}
use buzz_server.Storage.Retention
use buzz_server.Storage.Retention.{insert_tombstone}
use buzz_server.Storage.Drafts
use buzz_server.Storage.Calls.{Call, settle, perform, run_calls}
use buzz_server.Storage.History.Purges.{Purged, complete_purge-Purged}
use buzz_server.Storage.History.Methods.{db_of-eq-ok}
use buzz_server.Storage.History.Trail.{audits-perform, audits-apply_mutation}

-- Every audit record that is stored is free of credential-like markers.
abbrev pub Clean : Db → Type 0
Clean db = All (λ r. is_some_and r.redacted_detail contains_secret_marker ≡ false) db.audits

Clean-same : (a b : Db) → b.audits ≡ a.audits → Clean a → Clean b
Clean-same a b e h =
    subst (All (λ r. is_some_and r.redacted_detail contains_secret_marker ≡ false)) (sym e) h

-- A record that insert_audit accepts, behind the others.
Clean-insert_row :
    (n : NewAuditRecord) (k : ℕ) (a b : Db)
    → is_some_and n.redacted_detail contains_secret_marker ≡ false
    → b.audits ≡ insert_row (record { sequence = k; entry = n }) a.audits
    → Clean a
    → Clean b
Clean-insert_row n k a b t e c =
    subst (All (λ r. is_some_and r.redacted_detail contains_secret_marker ≡ false)) (sym e) (
      All-insert_row (λ r. is_some_and r.redacted_detail contains_secret_marker ≡ false)
        (record { sequence = k; entry = n }) a.audits c t)

Clean-insert_audit : (n : NewAuditRecord) (a b : Db) → insert_audit n a ≡ ok b → Clean a → Clean b
unfolding insert_audit
Clean-insert_audit n a b h c =
    let (t, h') = fail_if-eq-ok (is_some_and n.redacted_detail contains_secret_marker) _ _ h in
    Clean-insert_row n (suc a.audit_sequence) a b t (ground arith) c

Clean-fresh_command :
    (operation : DurableOperation) (entry : IdempotencyRecord) (mutation : AgentCommandMutation)
    (draft : Option String) (audit : NewAuditRecord) (a b : Db) (r : DurableOperation × Bool)
    → Command.fresh_command operation entry mutation draft audit a ≡ ok (r, b)
    → Clean a
    → Clean b
unfolding Command.fresh_command
Clean-fresh_command operation entry mutation draft audit a b r h c =
    let named : IdempotencyRecord = record entry { operation_id = operation.id } in
    let (d1, e1, h1) = >>=-eq-ok (Command.apply_mutation operation mutation a) _ h in
    let (d2, e2, h2) = >>=-eq-ok (insert_operation operation d1) _ h1 in
    let (d3, e3, h3) = >>=-eq-ok (insert_idempotency named d2) _ h2 in
    let (d4, e4, h4) = >>=-eq-ok (Command.promote draft operation d3) _ h3 in
    let (d5, e5, h5) = >>=-eq-ok (insert_audit audit d4) _ h4 in
    let one = audits-apply_mutation operation mutation a d1 e1 in
    let two : d2.audits ≡ d1.audits = unfold insert_operation in ground arith in
    let three : d3.audits ≡ d2.audits = unfold insert_idempotency in ground arith in
    let four : d4.audits ≡ d3.audits = unfold Command.promote in ground arith in
    let end : d5 ≡ b = ground arith in
    subst Clean end
      (Clean-insert_audit audit d4 d5 e5 (Clean-same a d4 (four ∙ three ∙ two ∙ one) c))

Clean-apply_agent_command :
    (operation : DurableOperation) (entry : IdempotencyRecord) (mutation : AgentCommandMutation)
    (draft : Option String) (audit : NewAuditRecord) (a b : Db) (r : DurableOperation × Bool)
    → Command.apply_agent_command operation entry mutation draft audit a ≡ ok (r, b)
    → Clean a
    → Clean b
unfolding Command.apply_agent_command Command.replay_command
Clean-apply_agent_command operation entry mutation draft audit a b r h c =
    elim (Option-cases (idempotency_row entry.scope entry.key a)) [
      | inl e ↦ Clean-fresh_command operation entry mutation draft audit a b r (ground arith) c
      | inr (row, e) ↦ Clean-same a b (ground arith) c
    ]

Clean-Purged :
    {agent : AgentId} {target : OperationId} {now : ℤ} {audit : NewAuditRecord} {a b : Db}
    → Purged agent target now audit a b
    → Clean a
    → Clean b
Clean-Purged {agent} {target} {now} {audit} {a} {b} p c =
    let marked = Operations.set_status target succeeded none now a in
    let start : marked.audits ≡ a.audits = unfold Operations.set_status in refl in
    let end : b.audits ≡ p.audited.audits =
      unfold delete_agent_row insert_tombstone in ground (arith, p.result) in
    Clean-same p.audited b end
      (Clean-insert_audit audit marked p.audited p.audit_ok (Clean-same a marked start c))

Clean-apply_draft_command :
    (draft : DraftResource) (scope key hash : String) (now : ℤ) (audit : NewAuditRecord) (a b : Db)
    (r : DraftResource × Bool)
    → Drafts.apply_draft_command draft scope key hash now audit a ≡ ok (r, b)
    → Clean a
    → Clean b
unfolding Drafts.apply_draft_command
Clean-apply_draft_command draft scope key hash now audit a b r h c =
    elim (Option-cases (Drafts.draft_key_row scope key a)) [
      | inl e ↦
          Clean-insert_row audit (suc a.audit_sequence) a b
            (unfold Drafts.fresh_draft insert_audit in ground arith)
            (unfold Drafts.fresh_draft insert_audit in ground arith) c
      | inr (row, e) ↦ Clean-same a b (unfold Drafts.replay_draft in ground arith) c
    ]

Clean-perform : (c : Call) (a b : Db) → perform c a ≡ ok b → Clean a → Clean b
unfolding perform
Clean-perform (Call.complete_purge agent target now audit) a b h k =
    let (u, e) = db_of-eq-ok (Retention.complete_purge agent target now audit a) h in
    Clean-Purged (complete_purge-Purged agent target now audit a b u e) k
Clean-perform (Call.apply_agent_command operation entry mutation draft audit) a b h k =
    let (r, e) =
      db_of-eq-ok (Command.apply_agent_command operation entry mutation draft audit a) h in
    Clean-apply_agent_command operation entry mutation draft audit a b r e k
Clean-perform (Call.append_audit entry) a b h k =
    Clean-insert_audit entry a b (unfold Audits.append_audit in ground arith) k
Clean-perform (Call.apply_draft_command draft scope key hash now audit) a b h k =
    let (r, e) = db_of-eq-ok (Drafts.apply_draft_command draft scope key hash now audit a) h in
    Clean-apply_draft_command draft scope key hash now audit a b r e k
Clean-perform c a b h k = Clean-same a b (audits-perform c a b refl h) k

-- From a database whose audit records are free of credential-like markers, no sequence of calls
-- reaches one in which a stored record has such a marker in its detail.
pub run_calls-Clean : (a : Db) (cs : List Call) → Clean a → Clean (run_calls a cs)
unfolding run_calls
run_calls-Clean a [] k = k
run_calls-Clean a (c ∷ cs) k = run_calls-Clean (settle a (perform c a)) cs (go (perform c a) refl)
  where
    go : (r : Result StorageError Db) → perform c a ≡ r → Clean (settle a r)
    go (ok b) e = Clean-perform c a b e k
    go (err x) e = k
