-- ===== src/Lib.antt =====
-- AuroraBot: a verification library for the core of the bot framework.
--
-- The agent (Agent, for src/aurora_agent/run.py, src/aurora_agent/state.py and
-- src/aurora_agent/messages.py) is one executor that alternates model calls and tool calls.
-- Agent.Messages has the messages and `validate_history`, Agent.State the fields of `Run`,
-- Agent.Action its methods without `await` and the actions: functions of a run that return or raise
-- and leave a run. Agent.Steps has `_model_step` and `_tool_step`, Agent.Drive `_advance` and
-- `_drive`. What is awaited (the context assembler, the model, the tool policy, the tools) is a
-- parameter, as are the JSON schema validator and the size of a request as JSON text; while a
-- service is awaited, any sequence of `append_message` and `cancel` may happen to the run. The loop
-- of `_drive` has fuel: one unit for each `_advance` after the first; without fuel the drive ends as
-- `out_of_fuel`, and how much fuel a run needs is not bounded here. Agent.Events says what a sound
-- run is; Agent.Keeps, Agent.Rules, Agent.Soundness, Agent.Tools and Agent.Driving have the proof
-- for a drive, Agent.Between for what happens outside one, and Agent.Ended is about ended runs. The
-- subscription to events and the construction checks of `Agent` are not modelled.
--
-- The world (World, for src/aurora_bot/world/store.py, src/aurora_bot/world/models.py and
-- src/aurora_bot/contracts/world.py) is an append-only journal of commits. World.Frontier has
-- `WorldFrontier`, World.Commit the commit values and `_matches_input`, World.Journal the tables
-- and `append_commits`, World.Queries the reads. A table is a list of rows, the newest first.
-- The tables' unique constraints are not checked on a write: the invariant implies them. Key
-- generation of the database and the clock are parameters. Schema migration, `active_scopes` and
-- `run_index` are not modelled.
--
-- The kernel (Kernel, for src/aurora_kernel) decides which modules start, in which order, and which
-- handlers a call reaches. Kernel.Declaration and Kernel.Phases have the declared values
-- (src/aurora_kernel/declaration.py, src/aurora_kernel/phase.py), with opaque callbacks; the checks
-- in their constructors are not modelled. Kernel.Optional has `_drop_unsatisfied_optional`, whose
-- loop has one unit of fuel more than there are modules, since every round but the last drops one;
-- Kernel.Greatest has its proof. Kernel.Resolve has the rest of src/aurora_kernel/resolve.py:
-- Checks the validations, Providers the choice of providers and the dependencies, Topological the
-- topological sort, Plan the phases and `resolve`. The sort's loop has one unit of fuel more than
-- there are modules, since each round places one; its heap is a list in ascending order. Release,
-- Search, Loop and Order have its proof. Whether a kernel version meets a specifier is a parameter.
-- Kernel.Calls has the registration of call points and `_select` of src/aurora_kernel/calls.py,
-- Kernel.Routes what `_select` chooses; the running of handlers is not modelled.
--
-- Kernel.Context (src/aurora_kernel/context.py) is the store that the modules share: State has its
-- operations, which return or raise and leave a context, Commit what a transaction guarantees while
-- others write. Values are immutable here, because the code copies containers on every read and
-- write, and which values are cyclic containers is a parameter. A watcher is known by whether it
-- raises. Locks, subscriptions and snapshots are not modelled.
--
-- Kernel.Host (src/aurora_kernel/host.py, src/aurora_kernel/lifecycle.py,
-- src/aurora_kernel/failures.py, src/aurora_kernel/tasks.py) runs a resolution. What a hook or a
-- cleanup does is a parameter, a function of all that was called before it. Failures has the calls
-- whose failures are collected, and what is raised after a cleanup; Prepare has `Host.prepare` and
-- its rollback, Assembly `ManagedAssembly` from its activation to its release. Released lists what a
-- rollback and a release call, Supervision follows a failure to whoever hears of it. Waiting and
-- cancelling belong to asyncio and are not modelled, nor are `build`, `call` and `acall` of `Host`.
--
-- Resources (src/aurora_bot/contracts/resource.py, src/aurora_bot/resources/catalog.py) are named by
-- keys and versions: Resources.Keys has the values and their equality, Names the checks of a key's
-- constructor and the text of a key, Catalog the construction of the catalog, `find` and `resolve`,
-- Building and Resolution what is found. The asynchronous providers, `browse` and `inspect`, and the
-- checks in the constructors of descriptors and definitions are not modelled.
--
-- Operations (src/aurora_bot/operations, src/aurora_bot/contracts/operation.py) are requests that
-- are recorded in the world, carried out by a handler and answered by a receipt. Definitions has the
-- values, Registry the construction of `OperationRegistry` and its checks. Dispatch is `dispatch` as
-- a machine: State has the commits, the slots and the calls under way, Stages what one call does
-- from each `await` to the next, Slots `_serialize_request` and the course of all calls, which
-- arrive, go on in any order, fail or are cancelled at any `await`, and end with the process.
-- Locking, Once and Agreement have its proofs. Payloads has the bodies kept in the journal or in the
-- artifact store, Stored their loading. Wire has JSON values and the descriptions of stored content
-- (src/aurora_bot/contracts/artifact_codec.py), Codec the objects of requests and results, Encoding
-- the receipts and recorded requests with their schema versions, Bodies what is read back. The text
-- of a time, the handlers, the JSON library, the JSON schema validator, the digest of a request and
-- the artifact store are parameters; the loop that loads a body has a unit of fuel for each byte,
-- and each accepted chunk has one. The tool adapter of src/aurora_bot/operations/tool.py and
-- `scopes_for` are not modelled.
--
-- Scopes models src/aurora_bot/contracts/scope.py and src/aurora_bot/scopes/module.py. Patterns has
-- `ScopeDeclaration` with its checks and its match, Catalog has `ScopeCatalog`, the merge of the
-- modules' declarations with the configured ones and the catalog that the module freezes. The
-- regular expression of a path is a matcher for its own two forms, an escaped character and `.+`.
-- Matching says what a pattern covers, Sorting orders declarations by specificity, and Merging,
-- Collecting and Merged say what the merge returns, Coverage and Accepted when the module accepts.
-- A star takes no newline, which the source's comment on patterns does not mention. What the
-- settings resolve to and what the modules declare are arguments.
--
-- Identity models src/aurora_bot/contracts/identity.py. Names has the namespaces and the paths, whose
-- regular expressions are one scanner with two sets of characters, Identifiers has `Identifier`,
-- and Tags has `TagTable` and what declares it. Segments says what the scanner accepts, Parsing has
-- the round trip of an identifier, Expansion and Ending say what the tags of a list stand for. The
-- expansion takes a unit of fuel for each level of tags: 17, one more than the code allows.
-- `alias_path`, which rests on a hash of the library, is not modelled.
--
-- Tools models `ToolRegistry` of src/aurora_bot/tools/registry.py: Registry its construction, its
-- views and the execution of a call, Routing which tool has a name, Outcomes what a call gives. What
-- a tool is asked and answers is part of the tool; the text that refuses an unknown tool is an
-- argument. The logging is not modelled.
pub mod Prelude
pub mod World
pub mod Agent
pub mod Kernel
pub mod Resources
pub mod Operations
pub mod Scopes
pub mod Identity
pub mod Tools
