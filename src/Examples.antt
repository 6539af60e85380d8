-- ===== src/Examples.antt =====
-- The theorems applied to one concrete system, two steps that a schedule and a webhook start.
pub mod Requests
pub mod Steps
pub mod Overlaps
pub mod Commands
use the_brain.Outside.{
  Spawned, Communicated, HttpOutcome, response, Written, written, Line, end_of_file,
}
use the_brain.Scheduler.Daemon.Fires.{fire_one-NotDue}
use the_brain.Scheduler.Daemon.Advance.{NotDue}
use the_brain.Runner.Run.Record.{run_workflow-Recorded, Recorded}
use the_brain.Scheduler.Daemon.Recovery.{failed_row, recover_orphans-done}
use the_brain.Prelude.Int.{pos}
use the_brain.Scheduler.Daemon.Survival.{daemon_tick-Returns}
use the_brain.Scheduler.Daemon.{fire_one, recover_orphans, daemon_tick}
use the_brain.Runner.Run.Total.{run_workflow-Returns}
use the_brain.System.Quiet.{Quiet}
use the_brain.Runner.Placeholder.{pieces}
use the_brain.Scheduler.Cron.{next_fire_after, parse-valid, valid, parse_stripped, parse}
use the_brain.System.Returns.{Returns}
use the_brain.Database.Runs.{finish_run, insert_run, is_running, orphaned}
use the_brain.Runner.Placeholder.Regex.{pieces-Tokens, Tokens}
use the_brain.Workflow.Models.{names_unique_from, step_names_unique, step_name, shell, Workflow}
use the_brain.System.{Loads, fetch, execute_query, raise, ok, defines, pure, World, Result, System}
use the_brain.Database.{Schedule}
use the_brain.Runner.Run.{
  lookup_previous_run, complete, run_step, run_steps, notify, started_run, Executor, run_workflow,
}
use the_brain.Runner.Models.{daemon_restarted, succeeded, WorkflowRun, StepResult}
use the_brain.Prelude.{
  ◌*◌, nat_eq, arith, length, if◌then◌else◌, map, count, ℕ, Option, none, some, [], ◌∷◌, ◌≡◌, refl,
  false, true, ◌==◌, suc, ◌+◌, any,
}
use the_brain.Text.{text_leb, words, strip, text_beq, Text, codes}
use the_brain.Json.{Json, null}

abbrev pub two_steps : Workflow
two_steps = record {
  name = codes "w";
  steps =
      shell (record { name = codes "a"; command = codes "date"; timeout = pos 60 })
      ∷ shell (record { name = codes "b"; command = codes "echo {a} {c}"; timeout = pos 60 })
      ∷ [];
}

-- A world without failures: the numbers of the calls serve as times and ids.
abbrev pub calm_world : World
calm_world = record {
  db_raises = λ n. false;
  now = λ n. 1000 + n;
  uuid4 = λ n. 100 + n;
  hostname = codes "host";
  resolve_path = λ n p. some p;
  is_file = λ n p. true;
  is_dir = λ n p. true;
  path_exists = λ n p. true;
  token_urlsafe = λ n. codes "t";
  has_loader = λ n p. true;
  exec_module = λ n p. defines two_steps;
  cron_accepts = λ e. true;
  cron_next = λ e t. some (suc t);
  dumps_sorted = λ j. [];
  loads = λ t. Loads.not_json;
  decode_utf8 = λ b. some b;
  hmac_sha256 = λ secret body. 171 ∷ 7 ∷ [];
  monotonic = λ n. 1000 * n;
  collates = text_leb;
  absolute = λ n p. p;
  observer_fails = λ n. false;
  open_raises = λ n. false;
  close_raises = λ n. false;
  shell_spawn = λ n c. Spawned.started;
  shell_communicate = λ n t. Communicated.exited (pos 0) (codes "out") [];
  shell_gone = λ n. false;
  wait_interrupted = λ n. false;
  post = λ n r. response 200 (codes "ok");
  shlex_split = λ c. some (c ∷ []);
  spawn_fails = λ n argv. false;
  mcp_write = λ n m. written;
  mcp_read = λ n. end_of_file;
  dumps = λ j. [];
  real_equals = λ t n. false;
  migration_files = λ n. codes "001.sql" ∷ codes "002.sql" ∷ [];
  migration_fails = λ n f. false;
}

-- Executors that print one word for each step.
abbrev pub echo : Executor
echo = record {
  execute = λ step. pure (succeeded (step_name step) (codes "out"));
  quiet = λ step. record { at = λ w s. refl };
}

abbrev pub hourly : Schedule
hourly = record {
  workflow_name = codes "w";
  workflow_file_path = codes "/w.py";
  cron_expression = codes "0 * * * *";
  enabled = true;
  last_run_id = none;
  next_run_at = some 5;
}

abbrev pub left_running : WorkflowRun
left_running = started_run two_steps (codes "/w.py") none 77 3 none

abbrev pub system : System
system = record {
  db = record {
    runs = left_running ∷ [];
    schedules = hourly ∷ [];
    heartbeats = [];
    webhooks =
        record {
          workflow_name = codes "w";
          hmac_secret = codes "s3cret";
          enabled = true;
          workflow_file_path = some (codes "/w.txt");
        }
        ∷ [];
    watchers = [];
    migrations = none;
    applied_scripts = [];
  };
  calls = 0;
  modules = [];
  last_fire = [];
  live = [];
  processes = [];
  killed = [];
  pool = none;
  open_pools = [];
}

silent : (r : StepResult) → Quiet (notify none r)
silent r = record { at = λ w s. refl }

pieces-Tokens_example : Tokens (codes "x{a}{") (pieces (codes "x{a}{"))
pieces-Tokens_example = pieces-Tokens (codes "x{a}{")

first_run : Returns (run_workflow echo none two_steps (codes "/w.py") none) calm_world system
unfolding any started_run
first_run =
    run_workflow-Returns echo none silent calm_world (λ n. refl) (λ step s h. cc)
      (λ r s. (tt, refl)) two_steps (codes "/w.py") none system refl

run_workflow-Returns_example :
    Returns (run_workflow echo none two_steps (codes "/w.py") none) calm_world system
unfolding any started_run
run_workflow-Returns_example =
    run_workflow-Returns echo none silent calm_world (λ n. refl) (λ step s h. cc)
      (λ r s. (tt, refl)) two_steps (codes "/w.py") none system refl

run_workflow-Recorded_example :
    Recorded two_steps
      (codes "/w.py")
      none
      system.db
      (run_workflow echo none two_steps (codes "/w.py") none calm_world system).1.db
      first_run.0
unfolding step_names_unique names_unique_from any text_beq step_name
run_workflow-Recorded_example =
    run_workflow-Recorded echo none silent two_steps (codes "/w.py") none refl calm_world system
      first_run.0 first_run.1

daemon_tick-Returns_example : Returns (daemon_tick echo 5) calm_world system
daemon_tick-Returns_example =
    daemon_tick-Returns echo calm_world (λ step s h. cc) (λ n p h. cc) 5 system refl refl

recover_orphans-done_example :
    ((recover_orphans calm_world system).0 ≡ ok 1)
    × (any is_running (recover_orphans calm_world system).1.db.runs ≡ false)
    × ((recover_orphans calm_world system).1.db
        ≡ record system.db { runs = failed_row daemon_restarted 1000 left_running ∷ [] })
unfolding orphaned is_running started_run count
recover_orphans-done_example = recover_orphans-done calm_world system refl

parse-valid_example :
    (length (words (codes "0 * * * *")) ≡ 5)
    × (true ≡ true)
    × (codes "0 * * * *" ≡ strip (codes " 0 * * * *"))
    × (parse calm_world (codes "0 * * * *") ≡ valid (record { expression = codes "0 * * * *" }))
unfolding parse parse_stripped strip words
parse-valid_example =
    parse-valid calm_world (codes " 0 * * * *") (record { expression = codes "0 * * * *" }) refl

fresh : (n : ℕ) → any (λ r. r.id == calm_world.uuid4 n) system.db.runs ≡ false
unfolding any started_run
fresh n = ground arith

fire_one-NotDue_example :
    ((fire_one echo hourly 5 calm_world system).0 ≡ ok tt)
    × NotDue 5 (codes "w") (fire_one echo hourly 5 calm_world system).1.db
unfolding any started_run next_fire_after parse parse_stripped strip words
fire_one-NotDue_example =
    fire_one-NotDue echo calm_world (λ n. refl) (λ step s h. cc) (λ n p h. cc) hourly 5
      (record { expression = codes "0 * * * *" }) refl 6 refl (ground arith) system (λ h. cc) fresh
