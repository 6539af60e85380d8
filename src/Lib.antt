-- ===== src/Lib.antt =====
-- A model of The Brain, the workflow runner in src/: what a run, the scheduler, the file watcher
-- and the HTTP API do to the database, with the theorems that make them correct.
--
-- The parts. A workflow file defines a `Workflow`, a list of steps (src/workflow). The runner
-- (src/runner/runner.py) executes the steps one after the other, puts the outputs of earlier steps
-- in the place of the `{name}` tokens of later ones, and keeps one row of `workflow_runs` per run.
-- A run is started by the command line, by the scheduler daemon when a cron expression is due
-- (src/scheduler), by the watcher daemon when a file changes (src/triggers/watcher.py), and by the
-- HTTP API (src/api/app.py), whose webhooks are signed (src/triggers/hmac.py). All of them share
-- the database. A step is executed by one of four executors (src/executors): a shell command, a
-- request to a language model, a search in Memory Vault (src/clients), or a call of a tool of an MCP
-- server, which is a child process that the client of src/mcp/stdio_client.py starts and reaps.
--
-- The files. Database and its children hold the tables and the statements on them; System the state
-- of a process (the database, `sys.modules`, the dictionaries of the watcher) and the monad of the
-- calls: a call changes the state and returns a value or raises. Everything outside, such as the
-- clock, the file system, importlib, croniter, watchdog, HMAC-SHA256, JSON and a failing
-- connection, is a field of `World`, a function of the number of the call, so a theorem for every
-- world holds whatever they answer. Workflow models src/workflow, Runner src/runner, Scheduler
-- src/scheduler, Triggers src/triggers, Api src/api/app.py, and Cli the commands of src/cli.py that
-- change registrations, run a workflow or report: `run`, `status`, `history`, `show`, `list`,
-- `list-triggers` and the states of the daemons, with the tables that they print (Cli/Printed).
-- Database/Migrate is `run_migrations` of src/db.py and Database/Pool the connection pool, which
-- Cli/Run and Cli/Daemons open and close; Diagnose models src/diagnose.py, Logging the set-up of
-- src/logging_config.py, Config the settings of src/config.py. Concurrent has the runs that overlap:
-- a step relation on the rows of `workflow_runs`, whose steps are the INSERT and the last UPDATE of a
-- run, the loss of a run, and the recoveries of the two daemons. Mcp models the MCP client: Client
-- its attributes, Messages the JSON-RPC lines, Session connecting and calling, Stderr the tail of
-- the server's stderr; its calls have a monad of their own, since they change the client too.
-- Executors has a module for each executor; the runner takes them through the record `Executor`, an
-- action per step that leaves the tables alone, which Executors/Processes fills. Outside holds the
-- answers of subprocesses, HTTP and MCP servers. Text holds the methods of `str`, Dict the
-- dictionary, Json the values, Messages the errors as data; Prelude is shared notation, and
-- Examples applies the results.
--
-- Conventions. Source names are kept, without a leading underscore. Times are numbers of
-- microseconds, monotonic times milliseconds, ids numbers. An error message is a constructor with
-- the values that it shows. All recursions are structural, so no fuel is used; a loop that waits
-- for a signal is a recursion on the list of its intervals. Outside of Concurrent, coroutines are
-- modelled one at a time, as the daemons await them; `Executor`s and callbacks may change the state
-- of the process, but not the tables.
--
-- Not modelled: the wording of most messages, the context of structlog, reading the settings from the
-- environment, the pool that a statement opens by itself when a command has opened none, click's and
-- FastAPI's part in the commands and endpoints, and the lock of the MCP client, whose calls are made
-- one after the other. Of the commands, `run`, `migrate`, `status`, `daemon` and `watcher` are modelled
-- with their pool, the others without it. Rows are ordered by a text in the collation of the database, a
-- field of `World`, and "LIKE" is read as SQL defines it; a time that runs out is an answer of the call
-- that waits. The status and the commands of docker that the bundle shows are not tied to its environment.
pub mod Prelude
pub mod Text
pub mod Dict
pub mod Json
pub mod Workflow
pub mod Messages
pub mod Runner
pub mod Outside
pub mod Concurrent
pub mod Database
pub mod System
pub mod Mcp
pub mod Scheduler
pub mod Triggers
pub mod Api
pub mod Cli
pub mod Examples
pub mod Config
pub mod Executors
pub mod Diagnose
pub mod Logging
