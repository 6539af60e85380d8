-- ===== src/Cli.antt =====
-- The commands of src/cli.py that change the database. What they print is the constructor they end
-- with; leaving by `SystemExit(1)` is `exit_error`.
pub mod Registrations
pub mod Orderly
pub mod Commands
pub mod Status
pub mod Alive
pub mod Reports
pub mod Truncate
pub mod Ordered
pub mod History
pub mod Lists
pub mod Printed
pub mod Daemons
pub mod Run
pub mod Show
use the_brain.Prelude.{
  ℕ, Bool, true, false, not, Option, none, some, List, [], ◌∷◌, map, any, keep, find, is_empty,
  ◌==◌, nat_eq, if◌then◌else◌, ◌⊎◌, inl, inr,
}
use the_brain.Text.{Text, text_eq, codes, strip, split_on}
use the_brain.Messages.{WorkflowLoadError, other_exception}
use the_brain.Database.{Database, Schedule, Webhook, FileWatcher}
use the_brain.Database.Schedules.{named}
use the_brain.Database.Registry.{
  webhook_named, watcher_named, insert_schedule, enable_schedule, delete_schedule, insert_webhook,
  enable_webhook, delete_webhook, insert_watcher, enable_watcher, delete_watcher,
}
use the_brain.System.{
  World, System, Exec, pure, ask, try_load, or_raise, execute_query, fetch, ◌>>=◌, ◌>>◌,
}
use the_brain.Workflow.Models.{Workflow}
use the_brain.Workflow.Loader.{import_workflow_from_file}
use the_brain.Scheduler.Cron.{
  CronExpression, InvalidCronError, Parsed, valid, invalid, parse, next_fire_after,
}

pub data CliError : Type 0 where
  invalid_cron : InvalidCronError → CliError
  not_loaded : WorkflowLoadError → CliError
  name_taken : Text → CliError
  no_such_name : Text → CliError
  missing_path : Text → CliError
  not_directory : Text → CliError
  no_events : CliError
  unknown_event : Text → CliError

pub data Exit : Type 0 where
  exit_ok : Exit
  exit_error : CliError → Exit

-- `name_override or workflow.name`
unfoldable pub chosen_name : Option Text → Workflow → Text
chosen_name none workflow = workflow.name
chosen_name (some name) workflow = if is_empty name then workflow.name else name

abbrev pub loaded_or_exit : (Workflow → Exec Exit) → WorkflowLoadError ⊎ Workflow → Exec Exit
loaded_or_exit k (inl e) = pure (exit_error (not_loaded e))
loaded_or_exit k (inr workflow) = k workflow

-- Loading the workflow file, with the `except` that the three commands share.
abbrev pub with_workflow : Text → (Workflow → Exec Exit) → Exec Exit
with_workflow path k =
    try_load (import_workflow_from_file path >>= λ workflow. pure (inr workflow))
      (λ e. pure (inl e))
    >>= loaded_or_exit k

-- The SELECT for the name and the INSERT behind it.
abbrev pub insert_new : Text → (Database → Bool) → (Database → Option (Database × ℕ)) → Exec Exit
insert_new name exists statement = fetch exists >>= λ taken.
    if taken
    then pure (exit_error (name_taken name))
    else (execute_query statement >>= λ _. pure exit_ok)

-- An UPDATE or DELETE of the row of a name, and the test of its row count.
abbrev pub change_named : Text → (Database → Option (Database × ℕ)) → Exec Exit
change_named name statement = execute_query statement >>= λ rowcount.
    if rowcount == 0 then pure (exit_error (no_such_name name)) else pure exit_ok

-- The rows that the INSERTs write.
abbrev pub new_schedule : Text → Text → CronExpression → ℕ → Schedule
new_schedule name absolute_path cron next_fire = record {
  workflow_name = name;
  workflow_file_path = absolute_path;
  cron_expression = cron.expression;
  enabled = true;
  last_run_id = none;
  next_run_at = some next_fire;
}

abbrev pub new_webhook : Text → Text → Text → Webhook
new_webhook name secret absolute_path = record {
  workflow_name = name;
  hmac_secret = secret;
  enabled = true;
  workflow_file_path = some absolute_path;
}

abbrev pub new_watcher : Text → Text → List Text → Text → FileWatcher
new_watcher name directory events absolute_workflow = record {
  workflow_name = name;
  watched_path = directory;
  watched_events = events;
  enabled = true;
  workflow_file_path = some absolute_workflow;
}

unfoldable pub register_cron : CronExpression → Text → Option Text → Workflow → Exec Exit
unfolding chosen_name
register_cron cron workflow_path name_override workflow = do
  absolute_path ← ask (λ w n. w.absolute n workflow_path)
  found ← ask (λ w n. next_fire_after w cron (w.now n))
  next_fire ← or_raise found other_exception
  let name = chosen_name name_override workflow
  insert_new name (λ d. any (named name) d.schedules)
      (insert_schedule (new_schedule name absolute_path cron next_fire))

register_parsed : Text → Option Text → Parsed → Exec Exit
unfolding register_cron
register_parsed workflow_path name_override (invalid e) = pure (exit_error (invalid_cron e))
register_parsed workflow_path name_override (valid cron) =
    with_workflow workflow_path (register_cron cron workflow_path name_override)

-- `_register`
unfoldable pub register : Text → Text → Option Text → Exec Exit
unfolding register_parsed
register workflow_path cron_expr name_override w =
    register_parsed workflow_path name_override (parse w cron_expr) w

-- `_set_enabled`
unfoldable pub set_enabled : Text → Bool → Exec Exit
set_enabled name enabled = change_named name (enable_schedule enabled name)

-- `_unregister`
unfoldable pub unregister : Text → Exec Exit
unregister name = change_named name (delete_schedule name)

-- `_register_webhook` once the workflow is loaded.
unfoldable pub register_workflow_webhook : Text → Option Text → Workflow → Exec Exit
unfolding chosen_name
register_workflow_webhook workflow_path name_override workflow = do
  secret ← ask (λ w n. w.token_urlsafe n)
  absolute_path ← ask (λ w n. w.absolute n workflow_path)
  let name = chosen_name name_override workflow
  insert_new name (λ d. any (webhook_named name) d.webhooks)
      (insert_webhook (new_webhook name secret absolute_path))

-- `_register_webhook`
unfoldable pub register_webhook : Text → Option Text → Exec Exit
unfolding register_workflow_webhook
register_webhook workflow_path name_override =
    with_workflow workflow_path (register_workflow_webhook workflow_path name_override)

-- `_set_webhook_enabled`
unfoldable pub set_webhook_enabled : Text → Bool → Exec Exit
set_webhook_enabled name enabled = change_named name (enable_webhook enabled name)

-- `_unregister_webhook`
unfoldable pub unregister_webhook : Text → Exec Exit
unregister_webhook name = change_named name (delete_webhook name)

-- `_VALID_WATCH_EVENTS`
abbrev valid_watch_events : List Text
valid_watch_events = codes "created" ∷ codes "modified" ∷ codes "deleted" ∷ []

abbrev unknown_of : List Text → Option Text
unknown_of events = find (λ e. not (any (λ v. v == e) valid_watch_events)) events

abbrev checked_events : List Text → CliError ⊎ List Text
checked_events [] = inl no_events
checked_events (e ∷ events) = elim (unknown_of (e ∷ events)) [
  | none ↦ inr (e ∷ events)
  | some unknown ↦ inl (unknown_event unknown)
]

-- `_parse_events`: a `BadParameter` is the left side.
unfoldable pub parse_events : Text → CliError ⊎ List Text
parse_events events_csv =
    checked_events (map strip (keep (λ e. not (is_empty (strip e))) (split_on b',' events_csv)))

unfoldable pub watch_directory : Text → Text → List Text → Text → Exec Exit
watch_directory name directory events workflow_path = do
  absolute_workflow ← ask (λ w n. w.absolute n workflow_path)
  insert_new name (λ d. any (watcher_named name) d.watchers)
      (insert_watcher (new_watcher name directory events absolute_workflow))

-- `_register_watcher` once the directory is known to exist.
watch_checked : Bool → Text → Text → List Text → Text → Text → Exec Exit
unfolding watch_directory
watch_checked false name directory events workflow_path watched_path =
    pure (exit_error (not_directory watched_path))
watch_checked true name directory events workflow_path watched_path =
    watch_directory name directory events workflow_path

watch_existing : Bool → Text → Text → List Text → Text → Text → Exec Exit
unfolding watch_checked
watch_existing false name directory events workflow_path watched_path =
    pure (exit_error (missing_path watched_path))
watch_existing true name directory events workflow_path watched_path = do
  is_directory ← ask (λ w n. w.is_dir n directory)
  watch_checked is_directory name directory events workflow_path watched_path

register_workflow_watcher : Text → Text → List Text → Option Text → Workflow → Exec Exit
unfolding watch_existing chosen_name
register_workflow_watcher workflow_path watched_path events name_override workflow = do
  directory ← ask (λ w n. w.absolute n watched_path)
  exists ← ask (λ w n. w.path_exists n directory)
  watch_existing exists (chosen_name name_override workflow) directory events workflow_path
      watched_path

register_events : Text → Text → Option Text → CliError ⊎ List Text → Exec Exit
unfolding register_workflow_watcher
register_events workflow_path watched_path name_override (inl e) = pure (exit_error e)
register_events workflow_path watched_path name_override (inr events) =
    with_workflow workflow_path
      (register_workflow_watcher workflow_path watched_path events name_override)

-- `register_watcher` and `_register_watcher`
unfoldable pub register_watcher : Text → Text → Text → Option Text → Exec Exit
unfolding register_events parse_events
register_watcher workflow_path watched_path events_csv name_override =
    register_events workflow_path watched_path name_override (parse_events events_csv)

-- `_set_watcher_enabled`
unfoldable pub set_watcher_enabled : Text → Bool → Exec Exit
set_watcher_enabled name enabled = change_named name (enable_watcher enabled name)

-- `_unregister_watcher`
unfoldable pub unregister_watcher : Text → Exec Exit
unregister_watcher name = change_named name (delete_watcher name)

-- The command lines of these commands.
pub data Command : Type 0 where
  register_command : Text → Text → Option Text → Command
  enable_command disable_command unregister_command : Text → Command
  register_webhook_command : Text → Option Text → Command
  enable_webhook_command disable_webhook_command unregister_webhook_command : Text → Command
  register_watcher_command : Text → Text → Text → Option Text → Command
  enable_watcher_command disable_watcher_command unregister_watcher_command : Text → Command

unfoldable pub run_command : Command → Exec Exit
unfolding register set_enabled unregister register_webhook set_webhook_enabled unregister_webhook
    register_watcher set_watcher_enabled unregister_watcher
run_command (register_command path cron name) = register path cron name
run_command (enable_command name) = set_enabled name true
run_command (disable_command name) = set_enabled name false
run_command (unregister_command name) = unregister name
run_command (register_webhook_command path name) = register_webhook path name
run_command (enable_webhook_command name) = set_webhook_enabled name true
run_command (disable_webhook_command name) = set_webhook_enabled name false
run_command (unregister_webhook_command name) = unregister_webhook name
run_command (register_watcher_command path directory events name) =
    register_watcher path directory events name
run_command (enable_watcher_command name) = set_watcher_enabled name true
run_command (disable_watcher_command name) = set_watcher_enabled name false
run_command (unregister_watcher_command name) = unregister_watcher name
