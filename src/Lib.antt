-- ===== src/Lib.antt =====
-- wastech_orchestrator: a model of the orchestrator of coding agents, and what holds of it.
--
-- The program takes a task through a fixed life, runs the task's flow, a graph of nodes with
-- budgets on the edges that send work back, and gives each agent node to a provider, with one other
-- provider to fall back to. All paths below are under src/wastech_orchestrator/.
--
-- * Status is core/state_machine.py: the statuses of a task and the table of transitions, built as
--   the code builds it. Status.Lifecycle reads sequences of transitions.
-- * Flow is core/flow/ and core/loop_control.py. Contracts and Schema are the types of contracts.py
--   and schema.py; Snapshot is `load_flow` of snapshot.py after parsing; RunState is run_state.py;
--   LoopControl has the budgets and refusals of loop_control.py. The engine, engine.py, is in five
--   files: Host has the types at its seams, Routing the choice of an edge and of the entry,
--   Execution `_execute_node`, Charging the stall guards, the charge of a rework edge and the reset
--   of loops, and Engine the loop of `run`. A run keeps the record Engine: the run state (current
--   node, trace, counters), the two stall dictionaries, and the world.
-- * Flow.Reach is the search for reachable nodes, in snapshot.py and twice in validator.py. Flow.Validator
--   is `_check_graph` of validator.py, with one definition for each numbered check, and Flow.Disabled is
--   `validate_disabled_nodes`; both report the constructors of Flow.Violations. Flow.Phases is
--   `partition_decomposition` of engine_driver.py, and Flow.Exhausted is `exhausted_fix_loops` of
--   loop_control.py. The engine runs only flows that the validator let pass.
-- * Providers has the vocabulary of providers/base.py, providers/capabilities.py (Reasoning has the
--   levels that a provider accepts) and security/profiles.py.
-- * Routing is routing/router.py: Fallback is `fallback_allowed`, Route is `resolve_route`, Attempts
--   is `_build_request` and `_attempt_row`, Retry is `_retry_transient`, and Stage is `run_stage`,
--   whose local variables are the record Progress.
-- * Overrides is core/node_overrides.py; what it resolves is what the engine's setup is given. Cadence is
--   core/observe_cadence.py, and Usage is core/flow/usage_accounting.py.
-- * Decomposition is core/decomposition.py: Parse reads the planning agent's output, and Index has the
--   entries of the subtask index. Recovery is core/recovery.py, and Recovery.Disposition is
--   core/infra_disposition.py.
-- * Checks.Glob is globmatch.py with the part of `re` that it uses, Checks.Selection is
--   checks/selection.py, and Checks.DangerousDiff is core/dangerous_diff.py with the part of `fnmatch`
--   that its patterns use. Security.ForbiddenArgs is security/forbidden_args.py, and Providers.Redaction
--   the names and the walk of providers/redaction.py.
-- * Memory is memory/, what agents remember between tasks. Lifecycle is trust.py and lifecycle.py, Records
--   records.py, Delta the parser of delta.py, and Audit the hash-chained log of audit.py. service.py is in
--   several files: Store has the files, by path, and the writes, each of which goes through `save` and
--   adds a row to the log; Identity the identifier of a lesson; Ingest what is computed before a write;
--   Proposals, Lessons and Cards the ways in, `_ingest_long_term` and `_ingest_entity`; Funnel `apply_delta`, which a
--   parsed delta goes through; Snapshots `restore` and `clear`. Cleanup is cleanup.py, which rewrites the same
--   store: Budget is its budget, Collapse the three ways to collapse rows, Reconcile the loop over rows that
--   two passes have, Passes the passes, and Run `run_once`.
-- * Prelude has dictionaries, tests and lists over the native numbers; Examples has small concrete
--   flows, routers, tasks and stores.
--
-- What runs outside these files is a function over a world `W`, which the caller chooses: node
-- runners, recorder, facts, cancellation, fingerprints (Flow.Host), providers, sleeping, snapshots
-- and the comparison of instants (Routing.Config, Routing.Stage). An exception that leaves a
-- function is a value: Fault for the engine, an error list for a route, and none for a KeyError of
-- the router or the TypeError of its `_earlier`. A provider raises nothing but a ProviderError, and the
-- hooks raise nothing. Logging, and the clock that times it, are left out.
--
-- The engine's loop is a recursion on fuel, and Ended has a value for the end of the fuel. Enough
-- is (global cap + 1) * (height + 1) rounds, where the height is that of the forward edges: each
-- rework edge spends one of the global cap, and between two of them the run goes down. The router's
-- loops are recursions on the route and on the number of retries.
--
-- Loop names are the operator's. A plain one has no colon and is not the key of the global counter;
-- the statements on counters need plain names, since the code does not reject others.
--
-- A search is a recursion on fuel, one more than the starts and the edges: each edge is pushed once.
-- A Python set is a list in some order. Code that works on text is over the list of its code points.
--
-- A row of the memory's files is a JSON object with its keys in some order; hashes, `str.lower`,
-- `datetime.fromisoformat`, the index over the repository and the clock are fields of MemoryService and
-- CleanupJob, and so is the rewriting of one text by the regular expressions of redaction.
--
-- Not modelled: parsing of flows, tasks and configuration; the validator's ceiling, report directory and
-- configuration checks; the memory's packets; the state store, and everything that starts a process or
-- talks to git, a terminal or the network. Those read and write files, or call programs and libraries
-- whose source is not in the repository.
pub mod Prelude
pub mod Status
pub mod Providers
pub mod Examples
pub mod Routing
pub mod Checks
pub mod Decomposition
pub mod Recovery
pub mod Cadence
pub mod Overrides
pub mod Usage
pub mod Security
pub mod Memory
pub mod Flow
