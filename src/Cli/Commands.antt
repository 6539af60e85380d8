-- ===== src/Cli/Commands.antt =====
-- The commands of src/cli.py and the names of the registrations.
use the_brain.Cli.Orderly.{
  Orderly-change_named, Orderly-try_load, Orderly-bind, Orderly-watcher, Orderly-webhook,
  Orderly-Quiet, Orderly-pure, Orderly-schedule, Orderly,
}
use the_brain.Cli.{
  unregister_watcher_command, disable_watcher_command, enable_watcher_command, parse_events,
  register_watcher_command, unregister_webhook_command, disable_webhook_command,
  enable_webhook_command, new_schedule, new_webhook, new_watcher, register_webhook_command,
  unregister_command, disable_command, enable_command, register_command, Command,
  unregister_watcher, set_watcher_enabled, register_watcher, unregister_webhook,
  set_webhook_enabled, register_webhook, unregister, chosen_name, set_enabled,
  register_workflow_watcher, register_events, watch_existing, run_command, watch_directory,
  register_cron, register_workflow_webhook, watch_checked, loaded_or_exit, register_parsed,
  exit_error, with_workflow, register, Exit,
}
use the_brain.Prelude.{
  some, suc, ◌≢◌, arith, ℕ, Bool, true, false, Option, List, none, some, inl, inr, ◌⊎◌, nat_eq,
}
use the_brain.Text.{Text, text_eq}
use the_brain.Messages.{unique_violation, other_exception, runtime_error, WorkflowLoadError}
use the_brain.Database.Registry.{
  enable_schedule, delete_schedule, enable_webhook, delete_webhook, enable_watcher, delete_watcher,
}
use the_brain.System.{raise, World, System, Exec, pure, ask, try_load, or_raise, ◌>>=◌}
use the_brain.System.Quiet.{Quiet, Quiet-ask, Quiet-bind, Quiet-or_raise}
use the_brain.Cli.{CliError, not_directory, missing_path, invalid_cron}
use the_brain.Workflow.Models.{Workflow}
use the_brain.Workflow.Loader.{loaded, import_resolved, import_workflow_from_file}
use the_brain.Scheduler.Cron.{CronExpression, Parsed, valid, invalid, parse, next_fire_after}
use the_brain.Cli.Registrations.{
  AllDistinct, enable_schedule-Safe, enable_webhook-Safe, enable_watcher-Safe, delete_schedule-Safe,
  delete_webhook-Safe, delete_watcher-Safe,
}

import_resolved-Quiet : (path : Text) → Quiet (import_resolved path)
unfolding import_resolved loaded
import_resolved-Quiet path = record { at = λ w s. ground arith }

pub import_workflow-Quiet : (path : Text) → Quiet (import_workflow_from_file path)
unfolding import_workflow_from_file
import_workflow-Quiet path =
    Quiet-bind (ask (λ w n. w.resolve_path n path))
      (λ resolved. or_raise resolved runtime_error >>= λ p. import_resolved p)
      (Quiet-ask (λ w n. w.resolve_path n path))
      λ resolved.
        Quiet-bind (or_raise resolved runtime_error) (λ p. import_resolved p)
          (Quiet-or_raise resolved runtime_error) import_resolved-Quiet

import_resolved_apart :
    (path : Text) (w : World) (s : System) → (import_resolved path w s).0 ≢ raise unique_violation
unfolding import_resolved loaded
import_resolved_apart path w s h = ground arith

resolved_apart :
    (resolved : Option Text) (w : World) (s : System)
    → ((or_raise resolved runtime_error >>= λ p. import_resolved p) w s).0 ≢ raise unique_violation
resolved_apart none w s h = cc
resolved_apart (some p) w s h = import_resolved_apart p w s h

import_workflow-Orderly : (path : Text) → Orderly (import_workflow_from_file path)
unfolding import_workflow_from_file
import_workflow-Orderly path =
    Orderly-Quiet (import_workflow_from_file path) (import_workflow-Quiet path)
      λ w s. resolved_apart (w.resolve_path s.calls path) w (record s { calls = suc s.calls })

with_workflow-Orderly :
    (path : Text) (k : Workflow → Exec Exit)
    → ((workflow : Workflow) → Orderly (k workflow))
    → Orderly (with_workflow path k)
with_workflow-Orderly path k orderly =
    Orderly-bind
      (try_load (import_workflow_from_file path >>= λ workflow. pure (inr workflow))
        (λ e. pure (inl e)))
      (loaded_or_exit k)
      (Orderly-try_load (import_workflow_from_file path >>= λ workflow. pure (inr workflow))
        (λ e. inl e)
        (Orderly-bind (import_workflow_from_file path) (λ workflow. pure (inr workflow))
          (import_workflow-Orderly path) λ workflow. Orderly-pure (inr workflow)))
      finished
  where
    finished : (r : WorkflowLoadError ⊎ Workflow) → Orderly (loaded_or_exit k r)
    finished (inl e) = Orderly-pure (exit_error (CliError.not_loaded e))
    finished (inr workflow) = orderly workflow

-- A call of the outside before a call that keeps the names.
asked-Orderly :
    {A : Type 0} (f : World → ℕ → A) (k : A → Exec Exit)
    → ((a : A) → Orderly (k a))
    → Orderly (ask f >>= k)
asked-Orderly f k keeps =
    Orderly-bind (ask f) k (Orderly-Quiet (ask f) (Quiet-ask f) (λ w s h. cc)) keeps

found_apart :
    (found : Option ℕ) (w : World) (s : System)
    → (or_raise found other_exception w s).0 ≢ raise unique_violation
found_apart none w s h = cc
found_apart (some n) w s h = cc

found_next-Orderly :
    (found : Option ℕ) (k : ℕ → Exec Exit)
    → ((next : ℕ) → Orderly (k next))
    → Orderly (or_raise found other_exception >>= k)
found_next-Orderly found k keeps =
    Orderly-bind (or_raise found other_exception) k
      (Orderly-Quiet (or_raise found other_exception) (Quiet-or_raise found other_exception)
        (found_apart found))
      keeps

register_cron-Orderly :
    (cron : CronExpression) (path : Text) (name : Option Text) (workflow : Workflow)
    → Orderly (register_cron cron path name workflow)
unfolding register_cron
register_cron-Orderly cron path name workflow =
    asked-Orderly (λ w n. w.absolute n path) _
      λ absolute.
        asked-Orderly (λ w n. next_fire_after w cron (w.now n)) _
          λ found.
            found_next-Orderly found _
              λ next. Orderly-schedule (new_schedule (chosen_name name workflow) absolute cron next)

register_parsed-Orderly :
    (path : Text) (name : Option Text) (p : Parsed) → Orderly (register_parsed path name p)
unfolding register_parsed
register_parsed-Orderly path name (invalid e) = Orderly-pure (exit_error (invalid_cron e))
register_parsed-Orderly path name (valid c) =
    with_workflow-Orderly path (register_cron c path name) (register_cron-Orderly c path name)

register_workflow_webhook-Orderly :
    (path : Text) (name : Option Text) (workflow : Workflow)
    → Orderly (register_workflow_webhook path name workflow)
unfolding register_workflow_webhook
register_workflow_webhook-Orderly path name workflow =
    asked-Orderly (λ w n. w.token_urlsafe n) _
      λ secret.
        asked-Orderly (λ w n. w.absolute n path) _
          λ absolute. Orderly-webhook (new_webhook (chosen_name name workflow) secret absolute)

watch_directory-Orderly :
    (name directory : Text) (events : List Text) (path : Text)
    → Orderly (watch_directory name directory events path)
unfolding watch_directory
watch_directory-Orderly name directory events path =
    asked-Orderly (λ w n. w.absolute n path) _
      λ absolute. Orderly-watcher (new_watcher name directory events absolute)

watch_checked-Orderly :
    (b : Bool) (name directory : Text) (events : List Text) (path watched : Text)
    → Orderly (watch_checked b name directory events path watched)
unfolding watch_checked
watch_checked-Orderly true name directory events path watched =
    watch_directory-Orderly name directory events path
watch_checked-Orderly false name directory events path watched =
    Orderly-pure (exit_error (not_directory watched))

watch_existing-Orderly :
    (b : Bool) (name directory : Text) (events : List Text) (path watched : Text)
    → Orderly (watch_existing b name directory events path watched)
unfolding watch_existing
watch_existing-Orderly true name directory events path watched =
    asked-Orderly (λ w n. w.is_dir n directory) _
      λ b. watch_checked-Orderly b name directory events path watched
watch_existing-Orderly false name directory events path watched =
    Orderly-pure (exit_error (missing_path watched))

register_workflow_watcher-Orderly :
    (path watched : Text) (events : List Text) (name : Option Text) (workflow : Workflow)
    → Orderly (register_workflow_watcher path watched events name workflow)
unfolding register_workflow_watcher
register_workflow_watcher-Orderly path watched events name workflow =
    asked-Orderly (λ w n. w.absolute n watched) _
      λ directory.
        asked-Orderly (λ w n. w.path_exists n directory) _
          λ b. watch_existing-Orderly b (chosen_name name workflow) directory events path watched

register_events-Orderly :
    (path watched : Text) (name : Option Text) (events : CliError ⊎ List Text)
    → Orderly (register_events path watched name events)
unfolding register_events
register_events-Orderly path watched name (inl e) = Orderly-pure (exit_error e)
register_events-Orderly path watched name (inr events) =
    with_workflow-Orderly path (register_workflow_watcher path watched events name)
      (register_workflow_watcher-Orderly path watched events name)

-- An orderly call from a database in which the names are apart.
both :
    {m : Exec Exit}
    → Orderly m
    → (w : World) (s : System) → AllDistinct s.db
    → AllDistinct (m w s).1.db × ((m w s).0 ≢ raise unique_violation)
both o w s h = (o.keeps.at w s h, o.apart w s)

-- Every command that changes the registrations keeps their names apart, however it ends: if no two
-- schedules, no two webhooks and no two watchers had one name before, none have afterwards. And no command,
-- alone on the database, runs into the UNIQUE constraint of a table: a name in use is found before the
-- INSERT.
pub run_command-AllDistinct :
    (c : Command) (w : World) (s : System)
    → AllDistinct s.db
    → AllDistinct (run_command c w s).1.db × ((run_command c w s).0 ≢ raise unique_violation)
unfolding run_command register set_enabled unregister register_webhook set_webhook_enabled
    unregister_webhook register_watcher set_watcher_enabled unregister_watcher enable_schedule
    delete_schedule enable_webhook delete_webhook enable_watcher delete_watcher
run_command-AllDistinct (register_command path cron name) w s =
    both (register_parsed-Orderly path name (parse w cron)) w s
run_command-AllDistinct (enable_command name) w s =
    both
      (Orderly-change_named (enable_schedule true name) name (enable_schedule-Safe true name)
        λ d h. cc)
      w s
run_command-AllDistinct (disable_command name) w s =
    both
      (Orderly-change_named (enable_schedule false name) name (enable_schedule-Safe false name)
        λ d h. cc)
      w s
run_command-AllDistinct (unregister_command name) w s =
    both (Orderly-change_named (delete_schedule name) name (delete_schedule-Safe name) λ d h. cc) w
      s
run_command-AllDistinct (register_webhook_command path name) w s =
    both
      (with_workflow-Orderly path (register_workflow_webhook path name)
        (register_workflow_webhook-Orderly path name))
      w s
run_command-AllDistinct (enable_webhook_command name) w s =
    both
      (Orderly-change_named (enable_webhook true name) name (enable_webhook-Safe true name)
        λ d h. cc)
      w s
run_command-AllDistinct (disable_webhook_command name) w s =
    both
      (Orderly-change_named (enable_webhook false name) name (enable_webhook-Safe false name)
        λ d h. cc)
      w s
run_command-AllDistinct (unregister_webhook_command name) w s =
    both (Orderly-change_named (delete_webhook name) name (delete_webhook-Safe name) λ d h. cc) w s
run_command-AllDistinct (register_watcher_command path watched events name) w s =
    both (register_events-Orderly path watched name (parse_events events)) w s
run_command-AllDistinct (enable_watcher_command name) w s =
    both
      (Orderly-change_named (enable_watcher true name) name (enable_watcher-Safe true name)
        λ d h. cc)
      w s
run_command-AllDistinct (disable_watcher_command name) w s =
    both
      (Orderly-change_named (enable_watcher false name) name (enable_watcher-Safe false name)
        λ d h. cc)
      w s
run_command-AllDistinct (unregister_watcher_command name) w s =
    both (Orderly-change_named (delete_watcher name) name (delete_watcher-Safe name) λ d h. cc) w s
