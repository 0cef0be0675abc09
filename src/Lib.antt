-- ===== src/Lib.antt =====
-- A model of the LoopGraph Supervisor, a service that runs agent harnesses under a supervisor, with
-- theorems on its control plane. Paths are from the repository's root.
--
-- The program's parts. A run is a stream of events in an append-only store; its state is what replay
-- computes from the stream. The engine (src/loopgraph_supervisor/application/engine.py) reads a
-- snapshot, runs a harness, whose events pass through a sink that may consult a supervisor agent,
-- grades the output and appends what it decides; operators pause, resume, recover and resolve runs.
-- Memories and agent versions have stores of their own; redaction stands before every append. A task
-- manager runs the engine in the background; a team coordinator creates child runs; an action router
-- carries out what a supervisor agent asks for, child runs and mutations of a bundle. A candidate
-- version becomes active only by the promotion route, on benchmark runs.
--
-- Which file models which part:
--   Prelude: shared names, list, option and Boolean helpers. Floats: the laws that the program's
--     floating-point numbers are asked to meet, without NaN; Floats/Fixed meets them.
--   Domain: src/loopgraph_supervisor/domain/{models,runs,events}.py, and the values of
--     harness/base.py and application/observer.py that events carry. Domain/Snapshot is
--     RunSnapshot.replay; its children have the lemmas on longer streams.
--   Security: security/redaction.py; Security/Payload is redaction on the typed events.
--   EventStore: infrastructure/event_store.py; EventStore/Streams is the store as a map from runs to
--     streams.
--   Grading: grading/policy.py and grading/rules.py. Memory: domain/memory.py and
--     infrastructure/memory_store.py.
--   Observer: the triggers of application/observer.py.
--   Versions: domain/versions.py and infrastructure/version_store.py.
--   Engine: application/engine.py. Exec is a monad of methods that write and may raise, Config what a
--     SupervisorEngine is built from, Runs _append, get_run, create_run and append_control_event, Emit
--     the event sink of an attempt, Evaluate _evaluate and _safe_grade, Attempt _execute_attempt,
--     _load_memories and run_until_blocked, Control the operators' methods. Keeps and Phase are the
--     rules by which the theorems on an attempt are put together.
--   Evolution: evolution/mutator.py and evolution/promotion.py.
--   Tasks: application/tasks.py as a step relation; Runtime: the state of one process (AppRuntime of
--     api/app.py) and RunTaskManager.start, which reads a run.
--   Team: domain/team.py and application/team.py. Actions: application/actions.py, and the router as
--     the engine's action handler.
--   Api: of api/app.py the routes that do more than pass their arguments on, the status codes of
--     exceptions, and the promotion route with the evidence that it derives.
--   Tests: concrete runs.
--
-- How state and operations correspond. The tables of the database are lists of rows in the order of
-- insertion; a transaction that raises leaves them as they were, and events that a method appended
-- before it raises stay. Events carry typed data in place of JSON dicts; the field names that the
-- program itself writes are no sensitive keys. A harness is a tree of the events that it emits, with
-- what it does on each answer; an exception of the sink ends it. Harnesses, graders, advisors and
-- action handlers are functions that may raise anything; the regular expressions of redaction, the
-- hash of a bundle, number formatting, rounding and means, the validation of payloads, random keys and
-- the clock are parameters. Of `usage` the two numbers stand that are read. Random keys of events and
-- hints, and time stamps that nothing reads, are left out. Field bounds are checked where a replay
-- repeats them on stored, redacted texts. Of the built-in `sum` only the sign and the sum of one number
-- are used. Numbers are natural numbers without a bound, as in Python.
--
-- Locks and tasks. What holds a lock (a spawn that of its parent's run, a start that of the task
-- manager) is one step. A task waits for the semaphore, runs inside it, records an exception after it
-- has left it, or is done. The semaphore is its counter. When a call of the engine ends is left open;
-- what a task writes to the event table while it runs is the engine's part.
--
-- Fuel. run_until_blocked is a `while True` loop and runs on fuel here; `max_retries + 2` rounds are
-- enough: an attempt is retried only while its number is at most max_retries, and the last round sees
-- that the run is blocked.
--
-- Not modelled: the event stream and the listing of runs, configuration, subprocess harnesses and
-- script graders, and sessions of the database. Graders run one after the other here, in the order of
-- their results.
mod Prelude
pub mod Floats
pub mod Domain
pub mod Security
pub mod EventStore
pub mod Grading
pub mod Memory
pub mod Observer
pub mod Versions
pub mod Evolution
pub mod Tasks
pub mod Runtime
pub mod Team
pub mod Actions
pub mod Api
pub mod Engine
pub mod Tests
