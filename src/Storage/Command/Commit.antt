-- ===== src/Storage/Command/Commit.antt =====
-- What the transaction of `apply_agent_command` (src/storage.rs) has written when it commits.
use buzz_server.Base.{
  suc, Bool, true, false, Option, none, some, String, ok, ◌≡◌, ◌∙◌, sym, ap, arith, insert_row,
  find, ◌==◌, nat_eq, string_eq, ◌&&◌,
}
use buzz_server.Storage.Schema.{DurableOperation, NewAuditRecord, IdempotencyRecord, Db}
use buzz_server.Storage.Statements.{
  operation_row, idempotency_row, has_agent, insert_operation, insert_idempotency, insert_audit,
}
use buzz_server.Storage.Command.{
  AgentCommandMutation, create, update, set_state, apply_mutation, promote, fresh_command,
}

-- The two databases agree on everything but the agents and the retention.
pub record SameBookkeeping (a b : Db) : Type 0 where
  pub communities : b.communities ≡ a.communities
  pub operations : b.operations ≡ a.operations
  pub idempotency : b.idempotency ≡ a.idempotency
  pub audits : b.audits ≡ a.audits
  pub audit_sequence : b.audit_sequence ≡ a.audit_sequence
  pub drafts : b.drafts ≡ a.drafts
  pub tombstones : b.tombstones ≡ a.tombstones

-- The new intent of the agent leaves the books alone.
pub apply_mutation-SameBookkeeping :
    (operation : DurableOperation) (mutation : AgentCommandMutation) (a b : Db)
    → apply_mutation operation mutation a ≡ ok b
    → SameBookkeeping a b
unfolding apply_mutation
apply_mutation-SameBookkeeping operation (create agent) a b h = ground arith
apply_mutation-SameBookkeeping operation (update id changes) a b h = ground arith
apply_mutation-SameBookkeeping operation (set_state id state deadline) a b h = ground arith

-- What a fresh command has written.
pub record Committed (operation : DurableOperation) (entry : IdempotencyRecord)
    (mutation : AgentCommandMutation) (audit : NewAuditRecord) (a b : Db) : Type 0 where
  pub mutated : Db
  pub intent : apply_mutation operation mutation a ≡ ok mutated
  pub agents : b.agents ≡ mutated.agents
  pub retention : b.retention ≡ mutated.retention
  pub communities : b.communities ≡ a.communities
  pub operations : b.operations ≡ insert_row operation a.operations
  pub unused : operation_row operation.id a ≡ none
  pub targeted : has_agent operation.agent_id mutated ≡ true
  pub idempotency :
      b.idempotency ≡ insert_row (record entry { operation_id = operation.id }) a.idempotency
  pub unclaimed : idempotency_row entry.scope entry.key a ≡ none
  pub audits :
      b.audits ≡ insert_row (record { sequence = suc a.audit_sequence; entry = audit }) a.audits
  pub tombstones : b.tombstones ≡ a.tombstones

insert_operation-ok :
    (o : DurableOperation) (a b : Db)
    → insert_operation o a ≡ ok b
    → (b ≡ record a { operations = insert_row o a.operations })
      × (operation_row o.id a ≡ none)
      × (has_agent o.agent_id a ≡ true)
unfolding insert_operation
insert_operation-ok o a b h = ground arith

pub insert_idempotency-ok :
    (i : IdempotencyRecord) (a b : Db)
    → insert_idempotency i a ≡ ok b
    → (b ≡ record a { idempotency = insert_row i a.idempotency })
      × (idempotency_row i.scope i.key a ≡ none)
unfolding insert_idempotency
insert_idempotency-ok i a b h = ground arith

promote-ok :
    (d : Option String) (o : DurableOperation) (a b : Db)
    → promote d o a ≡ ok b
    → b ≡ record a { drafts = b.drafts }
unfolding promote
promote-ok none o a b h = ground arith
promote-ok (some d) o a b h = ground arith

insert_audit-ok :
    (n : NewAuditRecord) (a b : Db)
    → insert_audit n a ≡ ok b
    → b ≡ record a {
      audits = insert_row (record { sequence = suc a.audit_sequence; entry = n }) a.audits;
      audit_sequence = suc a.audit_sequence;
    }
unfolding insert_audit
insert_audit-ok n a b h = ground arith

-- The statements of a fresh command that has committed, one after the other.
pub record Statements (operation : DurableOperation) (entry : IdempotencyRecord)
    (mutation : AgentCommandMutation) (draft : Option String) (audit : NewAuditRecord) (a b : Db)
    : Type 0 where
  c1 : Db
  c2 : Db
  c3 : Db
  c4 : Db
  e1 : apply_mutation operation mutation a ≡ ok c1
  e2 : insert_operation operation c1 ≡ ok c2
  e3 : insert_idempotency (record entry { operation_id = operation.id }) c2 ≡ ok c3
  e4 : promote draft operation c3 ≡ ok c4
  e5 : insert_audit audit c4 ≡ ok b

module _ (operation : DurableOperation) (entry : IdempotencyRecord)
    (mutation : AgentCommandMutation) (draft : Option String) (audit : NewAuditRecord)
    (a b : Db) where
  pub fresh_command-Statements :
      (r : DurableOperation × Bool)
      → fresh_command operation entry mutation draft audit a ≡ ok (r, b)
      → (r ≡ (operation, false)) × Statements operation entry mutation draft audit a b
  unfolding fresh_command
  fresh_command-Statements r h = ground arith

  pub fresh_command-Committed :
      Statements operation entry mutation draft audit a b
      → Committed operation entry mutation audit a b
  unfolding operation_row idempotency_row
  fresh_command-Committed s =
      let f = apply_mutation-SameBookkeeping operation mutation a s.c1 s.e1 in
      let i2 = insert_operation-ok operation s.c1 s.c2 s.e2 in
      let i3 =
        insert_idempotency-ok (record entry { operation_id = operation.id }) s.c2 s.c3 s.e3 in
      let i4 = promote-ok draft operation s.c3 s.c4 s.e4 in
      let i5 = insert_audit-ok audit s.c4 b s.e5 in
      let kept : s.c2.idempotency ≡ a.idempotency = ground arith in
      record {
        mutated = s.c1;
        intent = s.e1;
        agents = ground arith;
        retention = ground arith;
        communities = ground arith;
        operations = ground arith;
        unused = sym (ap (λ rows. find (λ r. r.id == operation.id) rows) f.operations) ∙ i2.1;
        targeted = i2.2;
        idempotency = ground arith;
        unclaimed =
            sym (ap (λ rows. find (λ r. r.scope == entry.scope && r.key == entry.key) rows) kept)
            ∙ i3.1;
        audits = ground arith;
        tombstones = ground arith;
      }
