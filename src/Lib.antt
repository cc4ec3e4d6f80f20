-- ===== src/Lib.antt =====
-- The verification library of FoxRunner server: the scenario engine, the scheduler that runs
-- scenarios in time slots, the JSON stores that the scheduler keeps its state in, the rate limiter,
-- the idempotency keys and the pages of the API, the catalog of scenarios and slots, the jobs, and the
-- checks of scenario documents.
--
-- How the program fits together. A scenario is a tree of steps (scenarios/loader.py) that the
-- engine executes against a browser (scenarios/runner.py, scenarios/engine.py): conditions, retries,
-- timeouts, blocks, hooks, and a trace of events. The scheduler (scheduler/service.py) plans the next
-- pending slot (scheduler/model.py), waits for its time, runs the slot's scenario through `run_task`
-- and records the result in the stores (state/store.py). The Django backend keeps scenarios and slots
-- in tables (catalog/services.py), which it mirrors into the JSON files that the scheduler reads, and
-- runs a scenario as a job (ops/services.py, ops/runner_bridge.py).
--
-- Files and code:
--   Prelude               shared names, Boolean tests, lists, texts, decimal numbers, integers, and
--                         `Dict`, Python's dict with text keys
--   Scenario/Step         `ScenarioStep`, step types, `ScenarioDefinition` (scenarios/loader.py,
--                         scenarios/schema.py, operations/registry.py)
--   Scenario/Effects      exceptions as values, `StepEvent`, the state of a run, `_emit`, and `Engine`:
--                         `EngineContext` with Selenium, clocks, the thread pool and `re` as functions
--   Scenario/When         `_should_execute`
--   Scenario/Attempts     `_execute_scenario_step`: attempts, timeouts, retries, `continue_on_error`
--   Scenario/Engine       scenarios/engine.py: blocks (in Loops) and the steps of a block
--   Scenario/Runner       `_execute_hook_steps` and the main loop (Loops), `run_task` (Task)
--   Scenario/Trace, Scenario/Engine/Keeps, Scenario/DryRun, Scenario/Reports, Scenario/Retries,
--   Scenario/Drivers      what is proved of these
--   Store/Executed        `ExecutionStateStore` (state/store.py)
--   Store/Records         `NextExecutionStore`, `LastRunStore`
--   Store/History         `HistoryStore.append`, `read`, `prune`; HistoryLaws has the proofs
--   Store/Lock            `ProcessLock` as steps of any number of processes over one lock file;
--                         LockExclusion and LockRace have the proofs
--   Scheduler/Calendar    what scheduler/model.py uses of `datetime`
--   Scheduler/Slots       scheduler/model.py; Choices and Progress have the proofs
--   Scheduler/Service     `_run_once`, `_handle_task_result` and their helpers (scheduler/service.py)
--   Scheduler/Rounds      `SchedulerService.loop` a round at a time, `countdown_console`, and
--                         `NetworkGuard.check_before_run` (network/guard.py); Outcomes,
--                         Parts, Runs and Waiting have the proofs
--   Scheduler/Commands    `run_slot`, `run_next`, `run_next_for_scenarios`, `run_scenario`; CommandRuns
--                         has the proofs
--   Api/RateLimit         foxrunner/rate_limit.py; Quota has the proofs
--   Api/Pages             foxrunner/pagination.py, with its proofs
--   Api/Idempotency       foxrunner/idempotency.py; Replay has the proofs
--   Prelude/Json          JSON values
--   Backend/Exec          requests as actions that return or raise `HttpError`; Laws and Frame have their
--                         rules
--   Backend/Users         accounts/permissions.py
--   Backend/Redaction     app/redaction.py; Hidden has the proofs
--   Catalog/Tables        catalog/models.py, transactions and foreign keys
--   Catalog/Access        catalog/permissions.py and the lookups for a user; Visible has the proofs
--   Catalog/Files         `_write_scenarios_file`, `sync_slots_file`
--   Catalog/Summary       `scenario_summary`, `_requires_enterprise_network`
--   Catalog/Scenarios, Catalog/Slots, Catalog/Steps, Catalog/Edits, Catalog/Config
--                         the other operations of catalog/services.py; EditLaws, Secrets and
--                         ConfigLaws have proofs
--   Catalog/Requests      the operations that change scenarios, shares, slots and steps as one type of
--                         requests; Guards, Mirror, Mirrored, Untouched, Consistency, SlotFile,
--                         Stale and Renamed have the proofs
--   Ops/Board             `Job` and `JobEvent` (ops/models.py)
--   Ops/Jobs              the services of jobs (ops/services.py)
--   Ops/Worker            `execute_scenario_job` (ops/runner_bridge.py) in its parts, and
--                         ops/management/commands/reconcile_jobs.py
--   Ops/Retention         `prune_database_records` (ops/services.py); Retained has the proof
--   Ops/Turns             requests, workers and the reconciliation taking turns; Rows, Noted, TurnLaws
--                         and Overrides have the proofs
--   Documents/Checks, Documents/Steps, Documents/Scenarios, Documents/Data
--                         the validation of documents and the `data` block (scenarios/loader.py);
--                         Answers, Summaries and Defaults have the proofs
--   Samples, Witnesses    tests, and the theorems at small inputs
--
-- State and operations. A run threads the context dict, the events emitted so far and a world that
-- the outside operations change; a Python exception is a value `raise` with its text, and what was
-- done before it stays done. The driver is the value that the functions pass and return, as in the
-- code. A round of the scheduler threads its two locals and a machine: the files of the stores, the
-- state of the heartbeat and the world.
--
-- A request of the backend threads the tables and the two files; what raises is undone in the tables
-- at the end of its transaction, and stays done in the files. Foreign keys are checked when the
-- outermost transaction commits. A worker's run of a job is cut into the parts between which other
-- requests can come: its start, each event, its end.
--
-- Bounds and fuel. Blocks and steps are structural recursion on the tree, retries and repetitions on
-- their count. The search for a pending slot makes `len(slots) * lookahead_days + 1` rounds, as in the
-- code. The countdown has as fuel the seconds left at its start, which is enough since each pause
-- lasts at least one. `show` has the number itself as fuel, which has at most so many digits.
-- Numbers are unbounded, as Python's are.
--
-- Parameters. The handlers of the operations, Selenium, the thread pool, `re`, the clocks, the random
-- generator, `uuid4`, the notifier and the detection of the network are functions that the
-- definitions take; a hypothesis about one of them stands among a theorem's binders. A date-time is
-- the number of seconds on the wall clock of its zone, by which Python compares date-times of one
-- zone; its conversion to UTC is a parameter. In the retention it is the number of microseconds since
-- the first date-time there is.
--
-- Of a document, the check against the JSON schema is an input, and so are `str` and `int` of JSON
-- values, floats, and the order in which Python goes through a set. JSON numbers with a fraction are
-- not modelled. Users are rows whose id is a text. Celery and its broker are the input `Transport`.
--
-- Not modelled. Logging; the text of tracebacks; errors of reading and writing the stores' files;
-- interrupts from the keyboard; a worker that is killed between the save of a row and its event; the
-- heartbeat thread; lock files that cannot be unlinked; building
-- `ScenarioStep`s from a document; of the Django backend the endpoints, the payloads' schemas, the
-- authentication (accounts/), the rest of the administration and Graph (ops/); the command line (app/,
-- cli/), network/vpn.py and scripts/.
pub mod Api
pub mod Backend
pub mod Catalog
pub mod Ops
pub mod Documents
pub mod Prelude
pub mod Scenario
pub mod Scheduler
pub mod Store
