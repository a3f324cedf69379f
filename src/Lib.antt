-- ===== src/Lib.antt =====
-- BitCadence: verification of the orchestration core (src/mco).
--
-- BitCadence runs a board of jobs that agent workers lease, carry out and report on. A daemon on each
-- host keeps the worker processes alive, an arbiter shares exclusive local resources between agents, and
-- schedules say when work is created. A score is a plan of work whose steps humans sign off. Modelled are:
--
-- * Supervisor (src/mco/agentd/supervisor.py, class Supervisor): the restart policy of one worker. A `Slot` is its
--   runtime, its entry in the persistent state file, and the calls made of the platform. Worker has the
--   state, Step has `_record_failure`, `_spawn`, `start`, `stop`, `restart` and `reset`, Tick has
--   `_tick_worker`, `_handle_exit`, `_maybe_leave_crashloop`, `_restore_runtime` and the two halves of
--   `reconcile` (`adopt` for a new worker, `reconfigure` for a known one). A list of operations, each
--   with its own clock and process readings, is a history (Histories).
--   Clocks are in milliseconds. `float(2 ** n)` is a value up to n = 1023 and an exception from there on,
--   which is an outcome that keeps what was written before it.
-- * Board (src/mco/orchestrator/contracts.py and the rows of the job table) and Lease
--   (src/mco/orchestrator/leases.py): one function for each operation, from a store to an answer and a
--   store. Claims has the check of a claim (`_claim_query`), Operations has acquire, renew and expire,
--   Update has `fenced_update` with its receipts and `set_paused`. An error carries no store, since it
--   rolls the transaction back. This is the path of the local store (src/mco/localstore.py), which also
--   stamps the time of a completion; operations are atomic, so an interleaving of processes is a
--   sequence of operations (Epochs, Receipts and Halts). Times are in seconds and are already parsed; identifiers that
--   `uuid4` makes are arguments.
-- * Handlers (src/mco/orchestrator/handlers.py): what becomes of a job around its leases, over the
--   same board. A `Hub` is the store with every audit record and broadcast so far. Hub has the first
--   status of a job and `_unlock_dependents`, whose loop goes over the rows that waited when it began
--   and tests and writes each on the board as it is by then; Failure has `_handle_failure` and
--   `handle_job_update`, which calls `fenced_update`. A handler runs to its end before another one
--   writes. Rows have unique ids.
-- * Arbiter (src/mco/orchestrator/resource_arbiter.py, class ResourceArbiter): the state file as a
--   table of resources, and the calls of hooks, whether or not a hook is configured. Resource has the
--   deadlines and the order of the queue, Operations has the four commands. The file lock makes a
--   command atomic. The host's configuration and time zone are the record `Config`. Python's sort is a
--   stable insertion sort.
-- * Cron (src/mco/scheduler.py): Field is `_parse_cron_field`, one field of an expression as code points below 128.
--   Search is `CronExpr.matches`, `_date_could_match` and `next_cron_time`: a moment is a local day and a
--   minute of it, and what the day is called is a `Calendar`, which stands for `datetime`. Sums of a
--   datetime and a timedelta are in local time, so changes of the zone's offset play no part.
-- * Score (src/mco/orchestrator/scores.py and score_policy.py): the plans of work that humans sign
--   off. Policy has the gates: `GateService` over a store of requests and decisions, where a gate is
--   named by its binding in place of the uuid5 made of it (the text under the uuid5 keeps bindings apart
--   where the ids of organisations and runs have no colon). Plan has `load_score` on a document whose
--   values have the types that the contract names. Run, Steps and Checkpoints have the methods of
--   `SandboxRun`: each answers with a value or an error and with the run as it is left, so what was
--   written before an error stays. The token of an attempt is a record of what its text is made of,
--   which that text keeps apart, as `load_score` keeps separators out of task ids. Open has the
--   beginning of a run; the digest is a text that is given, and the verdict of the server a record of
--   what `review` reads of it. Histories has any commands in a row, between which others may change the
--   store of the gates.
-- * Schedules (src/mco/scheduler.py and src/mco/launcher.py): Config has `parse_config` on a document whose triggers
--   and timestamps have been read; Due has `next_run_at`, `exhaustion_reason` and `due_schedules`, in seconds;
--   Launch and Tick have `launch` and `tick`; Storage has what is kept between passes. The
--   gateway, the browser, the programs of the host and the submission of a workflow file are the record
--   `Outside` over any state of the world, and the time zones of the host the record `Host`. A pass that raises keeps the states that were saved before it.
-- * Cio (src/mco/orchestrator/cio_policy.py): `evaluate`, the mechanical rules on a proposal, with its caps and its
--   categories; reasons are values in place of the texts made of them.
-- * RateLimit (src/mco/ratelimit.py): the buckets, their store with its sweep, and `dispatch`. Tokens and time are
--   whole numbers in place of floats, in parts small enough that a tick refills a whole number of them.
-- * Workflows (src/mco/orchestrator/workflows.py): `load_workflow` on a document that is read from its
--   text, `topo_order` and `submit_workflow`. Paths has the graph of the dependencies, Visits, Descent and
--   Order the depth-first search, Loading and Submission the two callers. The gateway is a function of any
--   state; an absent text is the empty one where the code asks only if it is true.
-- * Audit (src/mco/orchestrator/audit.py): the rows of a job's trail. Audit has their writing on the
--   embedded store (`_record_event`), Verify `verify_chain` and `make_checkpoint`, Outbox `drain_outbox`
--   over all jobs. SHA-256, HMAC, the JSON text of a row and the reading and writing of timestamps are
--   the record `Outside`. Times are in microseconds, without the end of the calendar. `detail` is what is left of it after `detail or {}`.
-- * Authority (src/mco/orchestrator/score_authority.py): grants, what one allows, and the table of those that
--   were issued. A row of checks is a list of tests with their errors, in the order of the code. Grants have
--   all the fields that are signed; a timestamp is read to an instant, to none, or to one without a zone.
--   What the database gives back for the text of a time is a function of `Outside`, as its columns
--   may spell it in their own way.
-- * Delivery (src/mco/orchestrator/delivery.py): what `sweep` does for one pending job, from its audit
--   trail and its row: the loop does this for each job, and no job's step depends on another's. The
--   fleet, the busy workers and whether the row is still pending at the update are the record `Fleet`.
--   A negative stall is none. Sweeps has sweeps and other events in a row. Chains has the sweep over
--   finished jobs that were to be followed; the row that a hand-off becomes is the table's.
--
-- Loops are structural recursion on their list but for a few. The values of `range(start, end + 1, step)` are
-- produced with `end + 1 - start` as the bound on their number, which is never too small. The search
-- for the next match runs on one unit of fuel for each minute of its window of five years (2,635,200);
-- each turn moves on by a minute or more, so the window is left before the fuel is spent. The two loops of
-- `load_score` run on one unit for each task, and each turn that goes on takes out a task at least. The
-- chain of repaired tasks in `review` runs on one unit for each task, and `load_score` refuses cycles of it.
-- `topo_order` visits on one unit more than there are steps: a visit inside another one has marked a step.
--
-- Not modelled: the Postgres functions behind the same lease operations, the routes, sockets and
-- clients, the local store's query interpreter, the bridge from scores to the board, the reading and
-- writing of the scheduler's files, the texts of durations, notifications and the
-- outside escalation connector, malformed persistent entries of the supervisor, its start-up and its
-- platform adapters, the YAML of a workflow and the editing of plans, the lookup of the
-- audit key, the publishing of evidence, and the reading of the watchdog's settings.
mod Prelude
pub mod Supervisor
pub mod Board
pub mod Lease
pub mod Arbiter
pub mod Cron
pub mod Handlers
pub mod Score
pub mod Schedules
pub mod RateLimit
pub mod Cio
pub mod Workflows
pub mod Audit
pub mod Delivery
pub mod Authority
