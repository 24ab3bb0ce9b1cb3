-- ===== src/Storage/Command/Sweep.antt =====
-- Which agents the retention sweep picks after a change of intent (src/storage.rs).
use mathlib.Core.Option
use buzz_server.Base.{
  subst, Bool, true, false, not, ◌||◌, Option, some, String, List, [], ◌∷◌, ok, ◌≡◌, refl, arith,
  ◌∙◌, ap, ◌==◌, nat_eq, option_eq, find, select, order_by, insert_by, any, map, find-update_where,
  find_sound, >>=-eq-ok, ok_or-eq-ok, fail_if-eq-ok, Option-cases, inl, inr,
}
use buzz_server.Base.Int.{ℤ, leb_ℤ}
use buzz_server.Operation.{disable_agent}
use buzz_server.Agent.{AgentId, AgentSpec, DesiredAgentState, disabled, desired_eq}
use buzz_server.Storage.Schema.{
  DurableOperation, IdempotencyRecord, NewAuditRecord, RetentionRow, Db,
}
use buzz_server.Storage.Statements.{
  agent_row, retention_row, update_agent_transaction, load_agent_transaction,
}
use buzz_server.Storage.Retention.{get_agent, expired_retained_agents}
use buzz_server.Storage.Command.{
  set_state, apply_mutation, apply_agent_command, expected_state, update_retention,
  upsert_retention,
}
use buzz_server.Storage.Command.Replay.{apply_agent_command-Committed}
use buzz_server.Storage.Command.Deadlines.{retention_row-apply_agent_command}

module _ {ℓ} {R : Type ℓ} (p : R → Bool) where
  any-insert_by :
      (before : R → R → Bool) (r : R) (rs : List R)
      → any p (insert_by before r rs) ≡ (p r || any p rs)
  unfolding insert_by any
  any-insert_by before r [] = refl
  any-insert_by before r (x ∷ rs) = ground (arith, any-insert_by before r rs)

  any-order_by : (before : R → R → Bool) (rs : List R) → any p (order_by before rs) ≡ any p rs
  unfolding order_by any
  any-order_by before [] = refl
  any-order_by before (r ∷ rs) =
      any-insert_by before r (order_by before rs) ∙ ap (λ b. p r || b) (any-order_by before rs)

  any-select :
      (q : R → Bool) (rs : List R) {r : R}
      → find p rs ≡ some r
      → q r ≡ true
      → any p (select q rs) ≡ true
  unfolding find any select
  any-select q [] e h = cc
  any-select q (x ∷ rs) {r} e h = ground (arith, any-select q rs {r = r})

any-map :
    {R : Type 0} (id : AgentId) (f : R → AgentId) (rs : List R)
    → any (λ i. i == id) (map f rs) ≡ any (λ r. f r == id) rs
unfolding any
any-map id f [] = refl
any-map id f (r ∷ rs) = ap (λ b. (f r == id) || b) (any-map id f rs)

-- An agent is among those whose time has come.
abbrev pub is_expired : AgentId → ℤ → Db → Bool
is_expired id now db = any (λ i. i == id) (expired_retained_agents now db)

retention_row-is_expired :
    (id : AgentId) (now : ℤ) (row : RetentionRow) (a : Db)
    → retention_row id a ≡ some row
    → leb_ℤ row.purge_after now ≡ true
    → is_expired id now a ≡ true
unfolding retention_row expired_retained_agents
retention_row-is_expired id now row a e h =
    any-map id (λ r. r.agent_id) _
    ∙ any-order_by (λ r. r.agent_id == id) _ (select (λ r. leb_ℤ r.purge_after now) a.retention)
    ∙ any-select (λ r. r.agent_id == id) (λ r. leb_ℤ r.purge_after now) a.retention e h

get_agent-update_agent_transaction :
    (agent : AgentSpec) (now : ℤ) (a b : Db)
    → update_agent_transaction agent now a ≡ ok b
    → get_agent agent.id b ≡ some agent
unfolding update_agent_transaction get_agent agent_row
get_agent-update_agent_transaction agent now a b h =
    let updated =
      find-update_where (λ r. r.id == agent.id) (λ r. r.id == agent.id)
        (λ r. record r {
          community_config_id = agent.community_config_id;
          document = agent;
          updated_at = now;
        })
        a.agents (λ r. refl) in
    elim (Option-cases (agent_row agent.id a)) [
      | inl e ↦ ground arith
      | inr (row, e) ↦ ground (arith, updated, find_sound (λ r. r.id == agent.id) a.agents e)
    ]

get_agent-same : (id : AgentId) (a b : Db) → b.agents ≡ a.agents → get_agent id b ≡ get_agent id a
unfolding get_agent agent_row
get_agent-same id a b e = ap (λ rows. Option.map (λ r. r.document) (find (λ r. r.id == id) rows)) e

get_agent-apply_mutation :
    (operation : DurableOperation) (id : AgentId) (s : DesiredAgentState) (deadline : Option ℤ)
    (agent : AgentSpec) (a b : Db)
    → apply_mutation operation (set_state id s deadline) a ≡ ok b
    → get_agent id a ≡ some agent
    → agent.id ≡ id
    → get_agent id b ≡ some (record agent { desired_state = s })
unfolding apply_mutation
get_agent-apply_mutation operation id s deadline agent a b h g i =
    let (expected, e1, h1) = ok_or-eq-ok (expected_state operation.kind) _ _ h in
    let (e2, h2) =
      fail_if-eq-ok (not (operation.agent_id == some id) || not (s == expected)) _ _ h1 in
    let (found, e3, h3) = >>=-eq-ok (load_agent_transaction id a) _ h2 in
    let same : found ≡ agent = unfold load_agent_transaction get_agent in ground arith in
    let changed : AgentSpec = record found { desired_state = s } in
    let (c, e4, h4) = >>=-eq-ok (update_agent_transaction changed operation.created_at a) _ h3 in
    let stored = get_agent-update_agent_transaction changed operation.created_at a c e4 in
    let kept : b.agents ≡ c.agents = unfold update_retention upsert_retention in ground arith in
    let named : changed.id ≡ id = ap (λ (x : AgentSpec). x.id) same ∙ i in
    get_agent-same id c b kept
    ∙ subst (λ n. get_agent n c ≡ some changed) named stored
    ∙ ap (λ (x : AgentSpec). some (record x { desired_state = s })) same

module _ (operation : DurableOperation) (entry : IdempotencyRecord) (id : AgentId)
    (deadline : Option ℤ) (draft : Option String) (audit : NewAuditRecord) (a b : Db) where
  -- A disable commits on an agent that a delete has left with a retention deadline. The agent's
  -- intent is then `disabled`, and from the deadline on the sweep still picks it for a purge. It is
  -- assumed that the agent's document carries the id of its row.
  pub apply_agent_command_expired :
      (r : DurableOperation) (agent : AgentSpec) (row : RetentionRow) (now : ℤ)
      → operation.kind ≡ disable_agent
      → apply_agent_command operation entry (set_state id disabled deadline) draft audit a
        ≡ ok ((r, false), b)
      → get_agent id a ≡ some agent
      → agent.id ≡ id
      → retention_row id a ≡ some row
      → leb_ℤ row.purge_after now ≡ true
      → (get_agent id b ≡ some (record agent { desired_state = disabled }))
        × (is_expired id now b ≡ true)
  apply_agent_command_expired r agent row now k h g i e l =
      let c =
        (apply_agent_command-Committed operation entry (set_state id disabled deadline) draft audit
          a b r h).1 in
      let intent =
        get_agent-same id c.mutated b c.agents
        ∙ get_agent-apply_mutation operation id disabled deadline agent a c.mutated c.intent g i in
      let after =
        retention_row-apply_agent_command operation entry id disabled deadline draft audit a b r
          h in
      let kept : retention_row id b ≡ some row = ground arith in
      (intent, retention_row-is_expired id now row b kept l)
