-- ===== src/Examples/Commands.antt =====
-- The theorems on the commands, the migrations and the bundle applied to concrete ones.
use the_brain.Cli.Lists.{cron, Listed}
use the_brain.Cli.Printed.{trigger_lines, list_lines, history_lines, Formats}
use the_brain.Cli.Printed.Aligned.{
  history_lines-Aligned, trigger_columns, list_columns, history_columns, Aligned,
}
use the_brain.Cli.Run.Released.{run_file-Released}
use the_brain.Api.Described.{run_endpoint-Appended, Appended}
use the_brain.Workflow.Loader.{import_workflow_from_file}
use the_brain.Runner.Resolve.{resolve_step}
use the_brain.Database.Runs.{finish_run, insert_run}
use the_brain.Prelude.Int.{pos}
use the_brain.Workflow.Paths.{file_name, suffix}
use the_brain.Runner.Run.{complete, run_workflow, run_steps, lookup_previous_run, started_run}
use the_brain.Cli.History.{history_rows-Newest, NoLater}
use the_brain.Cli.Ordered.{IsOrdered}
use the_brain.Diagnose.Redaction.{first_files-Redacted, secrets}
use the_brain.Messages.{not_found}
use the_brain.System.Returns.{IsCalm}
use the_brain.Database.Pending.{In}
use the_brain.Database.Migrated.{
  run_migrations-Completes, run_migrations-again, run_migrations-Applied, Applied,
}
use the_brain.Runner.Models.{succeeded, WorkflowRun}
use the_brain.Workflow.Models.{Step, step_name, names_unique_from, step_names_unique, Workflow}
use the_brain.Cli.Reports.{order_by, in_history, history_rows}
use the_brain.Cli.Show.Prefix.{show-IsShown, IsShown, starts_with}
use the_brain.Examples.{echo, left_running, system, calm_world}
use the_brain.Text.{lower, text_beq, text_eq, Text, codes}
use the_brain.Diagnose.{Captured, first_files, Machine}
use the_brain.Dict.{lookup, Dict}
use the_brain.Database.Migrate.{apply_all, applied, pending, run_migrations}
use the_brain.Prelude.{
  arith, some, Option, subst, ◌≢◌, ◌⊎◌, ◌++◌, List, All, ◌≤◌, suc, false, ◌∷◌, none, ◌≡◌, [], ◌==◌,
  true, any, keep, ℕ, length,
}
use the_brain.Api.{
  respond, run_and_respond, is_ascii, compare_tokens, require_token, answered, rejected,
  RunResponse, Response, Credentials, run_endpoint,
}
use the_brain.Prelude.Int.{pos}
use the_brain.Runner.Models.{failed}
use the_brain.Examples.{hourly}
use the_brain.Cli.Run.Success.{IsValidated}
use the_brain.Cli.Run.{run_not_loaded, RunEnd, run_ended, run_file}
use the_brain.System.{System, execute_query, fetch, defines, Result, raise, ok, World}
use mathlib.Core.List.{Perm}
use the_brain.Prelude.{refl, zero, suc, none, true, false}
use the_brain.Cli.Show.{
  some_end, like, chosen, matching, show, valid_run_id, invalid_run_id, one_run,
}

abbrev failing : World
failing = record calm_world { migration_fails = λ n f. f == codes "002.sql" }

run_migrations-Applied_example :
    Applied
      (codes "001.sql" ∷ codes "002.sql" ∷ [])
      system.db
      (run_migrations failing system).1.db
      ((run_migrations failing system).0 ≡ ok 2)
unfolding pending keep any
run_migrations-Applied_example = run_migrations-Applied failing system

run_migrations-Completes_example :
    ((run_migrations calm_world system).0 ≡ ok 2)
    × All
        (In (applied (run_migrations calm_world system).1.db))
        (codes "001.sql" ∷ codes "002.sql" ∷ [])
unfolding pending keep any
run_migrations-Completes_example =
    run_migrations-Completes calm_world system (λ n. refl) (λ n m. refl)

run_migrations-again_example :
    let s = (run_migrations calm_world system).1 in
    (IsCalm calm_world → (run_migrations calm_world s).0 ≡ ok 0)
    × (applied (run_migrations calm_world s).1.db ≡ applied s.db)
    × ((run_migrations calm_world s).1.db.applied_scripts ≡ s.db.applied_scripts)
unfolding run_migrations pending keep any apply_all
run_migrations-again_example = run_migrations-again calm_world system 2 refl refl

-- The text of an id: its digits in unary.
abbrev id_text : ℕ → Text
id_text zero = []
id_text (suc n) = 97 ∷ id_text n

show-IsShown_example :
    let found = keep (λ r. starts_with (codes "aaa") (id_text r.id)) system.db.runs in
    ((valid_run_id (codes "aaa") ≡ true) × IsShown found (one_run left_running))
    ⊎ ((valid_run_id (codes "aaa") ≡ false)
        × (one_run left_running ≡ invalid_run_id)
        × ((show id_text (codes "aaa") calm_world system).1 ≡ system))
unfolding show matching chosen like order_by keep some_end started_run
show-IsShown_example =
    show-IsShown id_text (codes "aaa") calm_world system (one_run left_running) refl

history_rows-Newest_example :
    (length (history_rows 1 none none system.db) ≤ 1)
    × ((rest : List WorkflowRun) × Perm
          (history_rows 1 none none system.db ++ rest)
          (keep (in_history none none) system.db.runs)
        × IsOrdered NoLater (history_rows 1 none none system.db ++ rest)
        × (rest ≢ [] → length (history_rows 1 none none system.db) ≡ 1))
history_rows-Newest_example = history_rows-Newest 1 none none system.db

abbrev one_step : Workflow
one_step = record {
  name = codes "w";
  steps = Step.shell (record { name = codes "a"; command = codes "date"; timeout = pos 60 }) ∷ [];
}

abbrev one_step_world : World
one_step_world = record calm_world { exec_module = λ n p. defines one_step }

abbrev ended_of : Result RunEnd → RunEnd
ended_of (ok e) = e
ended_of (raise e) = run_not_loaded (not_found [])

abbrev run_of : RunEnd → WorkflowRun
run_of (run_not_loaded e) = left_running
run_of (run_ended run) = run

abbrev file_end : RunEnd
file_end = ended_of (run_file echo (codes "/w.py") one_step_world system).0

validated : IsValidated one_step_world
unfolding step_names_unique names_unique_from any text_beq step_name
validated n path workflow h =
    let same : one_step ≡ workflow = cc in
    subst (λ (v : Workflow). step_names_unique v.steps ≡ true) same refl

abbrev machine : Machine
machine = record {
  environ = (codes "DB_PASSWORD", codes "pw") ∷ (codes "DB_HOST", codes "db") ∷ [];
  docker_available = false;
  run_capture = λ c. Captured.not_found;
  os_info = codes "Linux";
  brain_version = none;
  zip_open = none;
  zip_write = λ name. none;
  zip_close = none;
}

abbrev other_environ : Dict Text Text
other_environ = (codes "DB_PASSWORD", codes "other") ∷ (codes "DB_HOST", codes "db") ∷ []

other_differs :
    (name : Text)
    → any (λ t. t == name) secrets ≡ false
    → lookup name machine.environ ≡ lookup name other_environ
unfolding any lookup
other_differs name h = ground arith

first_files-Redacted_example :
    first_files machine ≡ first_files (record machine { environ = other_environ })
unfolding lookup text_beq
first_files-Redacted_example =
    first_files-Redacted machine other_environ other_differs (refl, (refl, (refl, (refl, tt))))

abbrev down : World
down = record calm_world { db_raises = λ n. true }

abbrev formats : Formats
formats = record {
  id_text = λ n. codes "0b1e2d3c-4f5a-4b6c-8d7e-9f0a1b2c3d4e";
  time_text = λ t. codes "2026-01-02 03:04:05";
  seconds_text = λ d. codes "1.5";
}

abbrev long_name : Listed
long_name = record {
  schedule = record hourly { workflow_name = codes "a-name-that-is-longer-than-its-column" };
  last_run_at = none;
}

history_lines-Aligned_example :
    All (Aligned history_columns) (history_lines formats (left_running ∷ []))
    × All (Aligned list_columns) (list_lines formats (long_name ∷ []))
    × All (Aligned trigger_columns) (trigger_lines (cron hourly ∷ []))
history_lines-Aligned_example =
    history_lines-Aligned formats (λ t. omega arith) left_running [] long_name [] (cron hourly) []

-- The answer to a request to `/run`.
abbrev token : Option Credentials
token = some (record { scheme = codes "Bearer"; credentials = codes "t" })

abbrev answered_or : Result Response → RunResponse → RunResponse
answered_or (ok (answered r)) other = r
answered_or (ok (rejected n d)) other = other
answered_or (raise e) other = other

abbrev no_answer : RunResponse
no_answer = record {
  run_id = 0;
  status = failed;
  started_at = 0;
  ended_at = 0;
  duration = pos 0;
  error = none;
}

abbrev request_answer : RunResponse
request_answer =
    answered_or (run_endpoint echo (codes "t") token (codes "/w.py") one_step_world system).0
      no_answer

run_endpoint-Appended_example :
    (workflow : Workflow) × Appended echo one_step_world workflow request_answer system.db
      (run_endpoint echo (codes "t") token (codes "/w.py") one_step_world system).1.db
unfolding run_endpoint require_token compare_tokens is_ascii lower run_and_respond respond any
    started_run text_beq suffix file_name step_name import_workflow_from_file run_workflow complete
    lookup_previous_run fetch execute_query insert_run run_steps resolve_step succeeded finish_run
run_endpoint-Appended_example =
    run_endpoint-Appended echo one_step_world (codes "t") token (codes "/w.py") system
      request_answer validated refl

abbrev beside : System
beside = record system { calls = 4; open_pools = 0 ∷ [] }

-- A run beside a pool that another part of the process holds.
run_file-Released_example :
    ((run_file echo (codes "/w.py") one_step_world beside).1.pool ≡ none)
    × ((run_file echo (codes "/w.py") one_step_world beside).1.open_pools ≡ 0 ∷ [])
run_file-Released_example =
    run_file-Released echo (codes "/w.py") one_step_world
      (λ step. record { at = λ s. (refl, refl) }) (λ n. refl) (λ n. refl) beside refl
      (omega arith, tt)
