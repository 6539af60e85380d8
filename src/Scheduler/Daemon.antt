-- ===== src/Scheduler/Daemon.antt =====
-- src/scheduler/daemon.py.
pub mod Recovery
pub mod Survival
pub mod Advance
pub mod Fires
use the_brain.Prelude.{
  ℕ, Bool, true, false, Option, none, some, List, [], ◌∷◌, is_empty, count, if◌then◌else◌,
}
use the_brain.Text.{Text}
use the_brain.Messages.{base_exception, other_exception}
use the_brain.Database.{Database, Schedule}
use the_brain.Database.Rows.{update_where}
use the_brain.Database.Runs.{is_running, orphaned}
use the_brain.Database.Schedules.{beat, due_schedules, set_next_run, set_last_run}
use the_brain.System.{
  World, System, Exec, pure, throw, ask, try_except, try_load, execute_query, fetch, ◌>>=◌, ◌>>◌,
}
use the_brain.Runner.Models.{RunError, daemon_restarted}
use the_brain.Workflow.Models.{Workflow}
use the_brain.Workflow.Loader.{import_workflow_from_file}
use the_brain.Runner.Run.{Executor, run_workflow}
use the_brain.Scheduler.Cron.{CronExpression, Parsed, valid, invalid, parse, next_fire_after}

unfoldable pub heartbeat : ℕ → Exec (Unit {0})
heartbeat now w = (do execute_query (beat w.hostname now); pure tt) w

-- The rest of `_advance_next_fire`: the time that croniter found, or its exception.
set_next_fire : Text → Option ℕ → Exec (Unit {0})
set_next_fire name none w = throw other_exception w
set_next_fire name (some next) w = (do execute_query (set_next_run name next); pure tt) w

advance_parsed : Text → ℕ → Parsed → Exec (Unit {0})
unfolding set_next_fire
advance_parsed name now (invalid e) w = pure tt w
advance_parsed name now (valid cron) w = set_next_fire name (next_fire_after w cron now) w

-- `_advance_next_fire`
unfoldable pub advance_next_fire : Text → Text → ℕ → Exec (Unit {0})
unfolding advance_parsed
advance_next_fire name cron_expr now w = advance_parsed name now (parse w cron_expr) w

-- `orphans`: the UPDATE of the two daemons, over the rows that pass a test.
unfoldable pub recover : (the_brain.Runner.Models.WorkflowRun → Bool) → RunError → Exec ℕ
recover test error = do
  ended ← ask (λ w n. w.now n)
  execute_query (λ d.
      some (record d { runs = update_where test (orphaned error ended) d.runs }, count test d.runs))

-- `_recover_orphans`
unfoldable pub recover_orphans : Exec ℕ
unfolding recover
recover_orphans = recover is_running daemon_restarted

-- How a wait for the shutdown event goes: a signal came while the tick ran, while the daemon slept, or
-- not at all before the interval was over.
pub data Interval : Type 0 where
  signal_in_tick : Interval
  signal_in_sleep : Interval
  no_signal : Interval

module _ (x : Executor) where
  fire_loaded : Schedule → ℕ → Option Workflow → Exec (Unit {0})
  unfolding advance_next_fire
  fire_loaded schedule now none =
      advance_next_fire schedule.workflow_name schedule.cron_expression now
  fire_loaded schedule now (some workflow) = do
    run ← run_workflow x none workflow schedule.workflow_file_path none
    execute_query (set_last_run schedule.workflow_name run.id)
    advance_next_fire schedule.workflow_name schedule.cron_expression now

  -- `_fire_one`
  unfoldable pub fire_one : Schedule → ℕ → Exec (Unit {0})
  unfolding fire_loaded
  fire_one schedule now = do
    loaded ←
        try_load
          (do
            workflow ← import_workflow_from_file schedule.workflow_file_path
            pure (some workflow))
          (λ e. pure none)
    fire_loaded schedule now loaded

  unfoldable pub fire_all : List Schedule → ℕ → Exec (Unit {0})
  unfolding fire_one
  fire_all [] now = pure tt
  fire_all (schedule ∷ rest) now = do
    try_except (fire_one schedule now) (λ e. pure tt)
    fire_all rest now

  unfoldable pub daemon_tick : ℕ → Exec (Unit {0})
  unfolding heartbeat fire_all
  daemon_tick now = do heartbeat now; schedules ← fetch (due_schedules now); fire_all schedules now

  -- The `while` loop of `run_daemon`, a round for each interval.
  poll : List Interval → Exec (Unit {0})
  unfolding daemon_tick
  poll [] = pure tt
  poll (interval ∷ rest) = do
    now ← ask (λ w n. w.now n)
    try_except (daemon_tick now) (λ e. pure tt)
    elim interval [ signal_in_tick ↦ pure tt | signal_in_sleep ↦ pure tt | no_signal ↦ poll rest ]

  unfoldable pub run_daemon : List Interval → Exec (Unit {0})
  unfolding recover_orphans poll
  run_daemon intervals = do recover_orphans; poll intervals
