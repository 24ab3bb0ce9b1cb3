-- ===== src/Lib.antt =====
-- The agent server's core: its durable commands, its repository and its processes.
--
-- The server keeps a fleet of agents. A request is authenticated and authorized, and names an agent
-- and an intent; the repository commits the new intent, its operation, its idempotency key and its
-- audit record in one transaction; the reconciler brings the agent's process in line with the
-- intent, and the operation moves on. The files, by the part they model:
--   Operation: src/operation.rs, the kinds and the status machine; Operation/Machine its runs.
--   Agent, Community, Text: src/agent.rs, src/community.rs and src/error.rs, the documents and
--     their validation, over text as code points. A parsed URL is what its accessors return.
--   Storage: src/storage.rs with the tables of migrations/. Schema has the rows and `Db`, a list
--     per table; Statements the SQL statements that methods share; Operations, Audits, Command,
--     Retention, Relay, Communities, Drafts and Boundary the methods, named as in `SqliteStore`
--     (`remove_agent` is `SqliteStore::purge_agent`). Calls lists the methods that write; Command's
--     children and History have what holds of a command and through any list of calls.
--   Auth: src/auth.rs, the policies and `authorize`, with `SqliteReplayGuard` of src/transport.rs.
--     Events are a parameter with the accessors of the event library (`Events`).
--   Launch: src/launch.rs. Launch has the records and their derived equality, Checks the
--     validation, Process the states and the receipt of a process.
--   Reconcile: src/reconcile.rs, over its three interfaces as the parameter `Parts`; a call of one
--     of them takes the world and returns its answer with the new world.
--   Application: src/application.rs, `SqliteLifecycleApplication`, over a `World` of the database,
--     the count of finished operations and all else. Execute is the commit of a command, Completion
--     the start and the end of an operation, Communities, Agents and Drafts the intents, Waiting the
--     wait for an end, Service the whole as the interface that the API calls.
--   Api: src/api.rs. Requests has the checks of the requests, Service the interface
--     `LifecycleApplication` as a record, Handler `LifecycleHandler` over it, Router
--     `LifecycleJsonRouter` of src/transport.rs from the decoded request to the status.
--   AgentFiles: src/agent_files.rs, the agents' and the personas' files. Resolved has what a file
--     stands for with its persona, and the file of a new agent. Agent/Files has their records.
--   Id, Json: src/id.rs, the text of an identifier, and the JSON of an agent's file. Json has serde's
--     rules for members, Json/Files the attributes of src/agent.rs; values stand on their own there.
--   Wake: src/main.rs, `LifecycleWake`, the effects that the application is given: Files has the
--     agents' files, Personas the personas and their publication.
--   Contained: src/main.rs, what becomes of an operation whose reconciliation fails.
--   Base: the helpers that they share; Outcome is `Result` with `?`, Action the same with a world.
--   Scenarios: concrete runs.
--
-- Other code is a parameter: the clock, the uuid crate, serde_json and SHA-2 are fields of
-- `SqliteLifecycleApplication`; the channels, the relays, the custody of keys and std's reading of a
-- prompt file are fields of `LifecycleWake` and `Host`; the waiting and the other threads are
-- `Threads`.
--
-- Conventions. A repository method takes the database and returns an error or its answer with the
-- new database; an error leaves the database as it was, as a transaction that is dropped does. Code
-- with a world leaves it as the steps before an error made it.
-- Primary keys, unique keys and foreign keys are those of migrations/, written out where a
-- statement meets them. A document column, and a file, holds the value that its JSON encodes; only
-- Json goes on to the JSON itself, of an agent's file, and to its tree rather than its text. An id
-- is a number, drawn by the caller. A u64 is bounded where it is added (`u64_max`) or bound to a
-- column (`integer_max`); a time of the repository is an integer. A BTreeMap is the list of its
-- entries in the order of their keys. All is structural recursion, but for the loop of a wait, which
-- has fuel: one turn for each notification that may still come, and two more, end it.
--
-- Not modelled: failures of SQLite itself and of its lock; the diagnostics journals; I/O errors of
-- the agents' files other than a missing file; the resolution of a launch from the runtime catalog;
-- the rest of src/main.rs, which starts the tasks; the runtime providers; the spawning of processes,
-- sockets, relays and keys, which belong to the system and to other libraries.

pub mod Agent
pub mod AgentFiles
pub mod Api
pub mod Application
pub mod Auth
pub mod Base
pub mod Community
pub mod Contained
pub mod Id
pub mod Json
pub mod Launch
pub mod Operation
pub mod Reconcile
pub mod Scenarios
pub mod Storage
pub mod Text
pub mod Wake
