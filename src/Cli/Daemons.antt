-- ===== src/Cli/Daemons.antt =====
-- The commands of src/cli.py that run until a signal comes, and the lifespan of src/api/app.py.
use the_brain.Triggers.Watcher.Pool.{run_watcher_daemon}
use the_brain.Runner.Run.{Executor}
use the_brain.System.{Exec}
use the_brain.Scheduler.Daemon.{Interval, run_daemon}
use the_brain.Text.{Text}
use the_brain.Api.{expected_token}
use the_brain.Database.Pool.{pooled}
use the_brain.Prelude.{List, if◌then◌else◌, Option, Bool, none, some}

-- `_daemon`, with the intervals between the ticks.
unfoldable pub daemon : Executor → List Interval → Exec (Unit {0})
unfolding pooled run_daemon
daemon x intervals = pooled (run_daemon x intervals)

-- How `serve` ends: without a token it exits with 1, and else it hands the app to uvicorn.
pub data Served : Type 0 where
  no_token : Served
  running_with : Text → Served

-- `serve`, on `THE_BRAIN_API_TOKEN`.
unfoldable pub serve : Option Text → Served
unfolding expected_token
serve token = elim (expected_token token) [ none ↦ no_token | some t ↦ running_with t ]

-- `lifespan`: what runs between the start and the shutdown of the server.
unfoldable pub lifespan {ℓ} : {A : Type ℓ} → Bool → Exec A → Exec A
unfolding pooled
lifespan manage_pool m = if manage_pool then pooled m else m

-- `_watcher`
unfoldable pub watcher : List Interval → Exec (Unit {0})
unfolding pooled run_watcher_daemon
watcher intervals = pooled (run_watcher_daemon intervals)
