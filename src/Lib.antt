-- ===== src/Lib.antt =====
-- slimx-Agent in antt: the policy gates, the engine's dispatch loop, the planner's repair,
-- validation and prompts, the remote host (client, store, tools, service) and the release checks
-- of the Python package slimx_agent, with theorems on what they do, whatever a host answers.
--
-- The program. slimx_agent drives the steps of an agent run. The engine reads the run and its
-- steps from a store that the host keeps, picks the first open step, and passes it through
-- gates: permission (the run's grants), budget, and approval. A step that passes is dispatched
-- to the handler that the tool registry has for its type, and the outcome is written back as a
-- step state and an event. The policies module decides the gates from fixed tables; the
-- contracts module holds the vocabularies that host and engine share. The standalone service
-- drives runs of a remote host: its client makes one HTTP request for each operation of the
-- store, the store parses the answers strictly, and the remote registry's handlers invoke each
-- step on the host. The planning module writes the planner's prompt, and repairs and validates
-- the plans that a model returns. The release scripts check that versions, distributions and
-- coverage are as they must be.
--
-- Which file models which part:
--   Contracts (Vocabulary, Events): slimx_agent/contracts.py, its constants.
--   Json (Text): the JSON values that runs store, hosts answer and models return, and the
--     reading of them; the truth of a value and its `str`.
--   Store: slimx_agent/store.py, the views of runs, steps and events as records; a field that a
--     write may leave as it is (`UNSET`) is a `Patch`.
--   Policies (Tiers, Reasons, Grants): slimx_agent/policies.py, its tables and its functions
--     under their names. Its proofs are in Gate, Matrix, Permission and Normalize.
--   Outcomes, Tools: slimx_agent/tools.py, the exceptions of the program as a data type with the
--     result of a call that may raise one, and the registry as a list of types with their
--     handlers, in the order of their registration. Tools.Registered has the theorem on it.
--   Engine.Host: the `RunStore` protocol as a record of operations on a world of any type. Each
--     may change the world and answer anything or raise. The clock is one of them.
--   Engine.Monad: state and exceptions. The state is the world, the log of the calls made,
--     newest first, and the cursor of the event stream. A raise keeps the state.
--   Engine.Gates, Engine.Step, Engine.Drive: slimx_agent/engine.py, its helpers, `run_step`, and
--     `execute_run_events` as one pass per step.
--   Engine.Triple, Log, Sound: the rules for invariants of the monad, the predicates on logs,
--     and the proof that each routine keeps them. Engine.Safety states what follows for whole
--     drives.
--   Engine.Progress: the laws of a store that nobody else writes to, and the proof that a drive
--     over it ends. Updates and Open have the lists of steps and their open ones, Rules the
--     assertions on worlds, Lawful the laws, Finish the theorem.
--   Engine.Stream: the assertions that only the yield of an event touches, and the order of the
--     events that a drive yields.
--   HostClient (Errors, Urls, Attempt, Profile, Io, Transport, Operations):
--     slimx_agent/host_client.py, over an HTTP client that is a parameter; `RunProfile` of
--     slimx_agent/runtime.py. A call works on the HTTP client's world. Its proofs are in
--     Segments, Wire, Once and Callbacks.
--   HttpStore (Fields, Snapshots, Store): slimx_agent/http_store.py, the strict reading of
--     fields, the two snapshots, and the store as a host of the engine. Its proofs are in
--     Strict.
--   HttpTools: slimx_agent/http_tools.py. Meaning says what the answer of an invocation means;
--     the proofs are in Registry and Envelope; Drives composes the engine with the remote store
--     and the remote registry.
--   Planning (Repair, Validate, Advertised, Prompt): slimx_agent/planning.py,
--     `repair_plan_data`, `validate_plan`, `advertised_step_types` and the prompts of the
--     planner and of the self-check. The proofs on the repair are in Blank, Titles, Steps,
--     Salvaged and Repaired.
--   Service (Auth, Edge, Validation, Client, App, Execute, Stream, Requests, Workspace,
--     RunCheck, Bridge): slimx_agent/service.py, the tokens and the lease, the mapping of
--     errors, the answers to invalid requests, the client objects with the shared one among
--     them, health and the settings, the two execute endpoints over them, the requests as the
--     application serves them one after another, the check runner with its paths and the reading
--     of its output, and the bridge between the drive's thread and the observer of its stream as
--     a step relation. Its proofs are in Tokens, Refusals, Streamed, Leases, Confined, Bounded
--     and Observed; Ordered composes the drive with the bridge.
--   Scripts (Version, Distribution, Coverage): scripts/check_version.py,
--     scripts/verify_distribution.py and scripts/check_coverage.py, what they decide. The proofs
--     are in Agreed, Texts, Contents, Shipped and Coverage.
--   Tests: a host in memory and a scripted remote host, runs on them, and the theorems at
--     concrete inputs.
--
-- Fuel. The `while True` loop of a drive is a recursion on a number of passes. When it runs out,
-- the drive ends with the outcome `exhausted`, which is distinct from a return. The theorems of
-- Engine.Safety hold for every number of passes: they speak of the calls made, and a drive that
-- runs longer only makes more of them. Engine.Progress says when the passes are enough: over a
-- store whose steps only the drive itself writes, and whose handlers prepare further steps only
-- finitely often, each pass closes an open step or uses up a preparation, so that one pass more
-- than there are of both is never used up. The loops of `_run_bounded_check` run over the rounds
-- and looks that come, and give no result while none of them is the last.
--
-- Text and numbers. Python's `str` is a native text. `strip` takes off the blanks that
-- Prelude.Text lists, and `repr` writes the text between quotes. A JSON float keeps only its
-- text. A UUID stands by its text.
--
-- Objects. The `HostClient` objects of the service stand in a heap, so that what `for_execution`
-- does to the shared one can be told from what it does to a new one; the requests come one after
-- another. Elsewhere a client is the value of its fields, which no operation changes.
--
-- Parameters. The HTTP client, the clock, `json.dumps` and the decoding of bytes are parameters,
-- as are the file system and the processes of the check runner, the range of its timeout, the
-- syntax trees, parsed tables and regular expressions of the version check, and the floats of
-- the coverage check. The theorem on the order of events takes a store that answers with the
-- events past the cursor in their order, as its protocol says; the one on wheels takes a
-- `sorted` that keeps the members of a list.
--
-- Not modelled: the dataclasses of slimx_agent/planning.py that are handed to the structured
-- output; of slimx_agent/service.py the wiring of the web framework, and the environment and the
-- signals of a check's process; TLS and the connection pool of the client; the type declarations
-- of slimx_agent/runtime.py; of scripts/ the reading of files, the building and installing and
-- the runs in fresh environments. pydantic's reading of declared fields, with its coercions, is
-- a parameter. A caller that abandons the event generator and the objects that a handler's
-- context carries are left out.
pub mod Prelude
pub mod Contracts
pub mod Json
pub mod Store
pub mod Policies
pub mod Outcomes
pub mod Tools
pub mod HostClient
pub mod HttpStore
pub mod HttpTools
pub mod Planning
pub mod Service
pub mod Scripts
pub mod Engine
pub mod Tests
