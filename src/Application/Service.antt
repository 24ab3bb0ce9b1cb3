-- ===== src/Application/Service.antt =====
-- src/application.rs, `impl LifecycleApplication for SqliteLifecycleApplication`. The draws of a
-- community's removal and the wait, which may take any time, are arguments.
use buzz_server.Base.{ℕ}
use buzz_server.Storage.Schema.{OperationId}
use buzz_server.Storage.Communities.{Draws}
use buzz_server.Api.{OperationResource}
use buzz_server.Api.Service.{LifecycleApplication, Call}
use buzz_server.Application.{World, SqliteLifecycleApplication}
use buzz_server.Application.Completion.{get_operation_resource}
use buzz_server.Application.Communities.{
  join_community, update_community, read_community, read_communities, remove_community,
}
use buzz_server.Application.Agents.{
  create, update, change_agent_state, delete, purge, read_agent, read_agents, read_logs,
}
use buzz_server.Application.Drafts.{submit_draft, read_draft, promote_draft}

unfoldable pub service :
    {X : Type 0}
    → SqliteLifecycleApplication X
    → Draws
    → (OperationId → ℕ → Call (World X) OperationResource)
    → LifecycleApplication (World X)
service self draws wait = record {
  join_community = join_community self;
  update_community = update_community self;
  get_community = read_community self;
  list_communities = read_communities self;
  remove_community = remove_community self draws;
  create_persona = self.effects.create_persona;
  update_persona = self.effects.update_persona;
  get_persona = self.effects.get_persona;
  list_personas = self.effects.list_personas;
  delete_persona = self.effects.delete_persona;
  create_agent = create self;
  update_agent = update self;
  change_agent_state = change_agent_state self;
  delete_agent = delete self;
  purge_agent = purge self;
  get_agent = read_agent self;
  list_agents = read_agents self;
  agent_logs = read_logs self;
  get_operation = get_operation_resource;
  wait_operation = wait;
  submit_draft = submit_draft self;
  get_draft = read_draft self;
  promote_draft = promote_draft self;
}
