-- ===== src/Lib.antt =====
-- Verification of AlloyPort: the durable records of an agent Episode, the reducer that advances it one
-- action at a time, and the repository that it persists to; the gates that decide what a candidate's
-- evidence is worth; the stream of interaction events; and the worker's durable journal.
--
-- The program. An Episode is a persisted state (`DurableEpisodeState`): a status, a policy, the
-- attempts at a model request, the recorded turns, and the tool operations that the turns ask for.
-- `AgentLoopRunner` keeps nothing of its own: each call loads the state from an `EpisodeRepository`,
-- does at most one action that is visible outside, and saves the state before and after it, so that
-- a process that ends anywhere is followed by another that goes on from the repository. What an agent
-- produces is a candidate; gates judge it from receipts (builds, correctness, timings), a release
-- manifest is made of their verdicts, and what was learnt is admitted as knowledge on the same
-- receipts. A worker runs attempts for the server: its journal holds the attempts, the messages it owes
-- the server, and the devices it has leased. What happens is told as events, which a reducer validates.
--
-- The parts, and the files that model them:
-- - Prelude and its children: tests, lists, `Result` with `?`, text as lists of code points, the sets and
--   maps of the standard library as ascending lists, sorting, and signed integers.
-- - Digest (crates/alloyport-core/src/artifact.rs): `Sha256Digest`, its printing and parsing.
-- - Agent/Episode, Agent/Tool, Agent/Search, AgentError (src/agent.rs of that crate, as in all files
--   named by src/ below): the records of Episodes, tool operations and search runs, with their status
--   machines. Agent/Lifecycle and Agent/Search/Frontier are about sequences of calls on them.
-- - Model/Attempt (src/model_attempt.rs) and Model/Attempt/Evidence: the record of one request.
-- - Model/Gateway (src/model_gateway.rs, src/model_transport.rs): turns, their records and outcomes.
-- - Runtime/Policy, Runtime/State (src/agent_runtime_policy.rs, src/agent_runtime_state.rs,
--   src/agent_runtime.rs): the policy and the persisted state.
-- - Runtime/Identity (src/agent_runtime_helpers.rs): derived identities and digests.
-- - Runtime/Repository, Runtime/Repository/InMemory (src/agent_runtime_support.rs): the port, as an
--   interface of operations and laws, and the adapter that fills it; its Conflicts is about sequences
--   of writes.
-- - Runtime/Exec: runs as computations over the repository that may fail; a failure, an injected
--   crash among them, keeps what was saved before it.
-- - Runtime/ModelTurn, Runtime/ToolTurn, Runtime/Runner (src/agent_runtime_model.rs,
--   src/agent_runtime_tools.rs, src/agent_runtime.rs): the operations of the runner, branch by branch
--   with every save and fault point. Runtime/Backoff is about the delays they ask for.
-- - Runtime/Step: the specification, a step relation on persisted states with one constructor for
--   each kind of commit. Its children relate the runner to it and carry invariants along it.
-- - Runtime/Run: sequences of calls of the runner.
-- - Release, Release/Task (src/lib.rs): the gates, `ReleaseManifest::from_verdicts`, and the migration
--   task. Release/Criteria is the release rule as a predicate, Release/Evidence the manifest's content
--   and the errors, Release/Task/Stages sequences of transitions.
-- - Performance (src/performance.rs): `MeasuredDuration::from_samples` and `judge_performance`.
--   Performance/Statistics and Performance/Judgement are about the two.
-- - Knowledge (src/knowledge.rs): `admit` and `audit`. Knowledge/Evidence is the rule as a test on the
--   entry, Knowledge/Audit the audit by that rule.
-- - Migration (src/migration.rs): `BundlePath::try_from`. Migration/Paths resolves paths as a file
--   system does.
-- - Execution (src/execution.rs, src/assignment.rs, src/device.rs): the shared vocabulary.
-- - Events (crates/alloyport-events/src/lib.rs), Events/Reducer (crates/alloyport-events/src/reducer.rs),
--   Events/Pipeline (crates/alloyport-cli/src/events.rs): the events, the sequencer, the reducer, and the
--   loop that joins them. Events/Reducer/Stream is a description of streams on the history alone;
--   Events/Reducer/Handled and Events/Reducer/Accepted relate the reducer to it.
-- - Worker/Journal, Worker/Outbox, Worker/Lifecycle, Worker/Leases (crates/alloyport-worker/src/journal.rs
--   and crates/alloyport-worker/src/adapters/sqlite/attempt_store/): the journal's tables and every
--   operation that writes them. Worker/Calls and its children are about sequences of the operations.
-- - Examples (in each part): tests and concrete instances.
--
-- How the model corresponds to the code. Methods on `&mut self` return the new record; where a refusal
-- has already written something, as in the event reducer, the reply carries the record as well. Machine
-- integers are natural numbers: counters keep their checks and their saturation, and the two unchecked
-- operations, on the counter of ambiguous attempts and in `noise_band_nanos`, wrap around as in a release
-- build (a build with overflow checks panics there); an i64 or i128 that may be negative is a signed
-- integer, and an index or a division that could panic is a result of its own. Identities and texts are
-- lists of code points. The gateways of one call are functions, since a call asks each gateway at most once for each request;
-- each call has gateways of its own. `async` is left out: the runner awaits one future at a time. A
-- table of the worker's journal is the list of its rows in the order of its key, a statement its effect
-- on them, and a transaction returns the tables it commits or an error with none; the constraints of the
-- schema that a statement can meet are written out. Every loop of the code is a structural recursion on
-- a list; `decimal` recurses on fuel, and the number itself is enough of it.
--
-- Not modelled: SHA-256 and the JSON encodings (parameters), the texts of most errors, SQLite's own
-- failures and the journal's lock; the scripted gateways, which are test doubles; the queries of the
-- journal that only read; the other subsystems of the repository (codecs, candidate builds, the
-- migration specification beyond its paths, the evaluation of correctness, the server, the worker's
-- executors, the artifact store and the rest of the command line).
pub mod Prelude
pub mod Digest
pub mod AgentError
pub mod Agent
pub mod Migration
pub mod Model
pub mod Events
pub mod Performance
pub mod Knowledge
pub mod Execution
pub mod Release
pub mod Runtime
pub mod Worker
