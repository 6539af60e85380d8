-- ===== src/Triggers/Watcher.antt =====
-- src/triggers/watcher.py. Monotonic times are milliseconds.
pub mod Debounce
pub mod Fires
pub mod Pool
use the_brain.Prelude.{
  refl, ℕ, suc, ◌+◌, ◌≡◌, Bool, true, false, not, ◌&&◌, Option, none, some, List, [], ◌∷◌, ◌==◌,
  any, keep, find, leb, is_empty, pair_eq, ◌++◌, if◌then◌else◌,
}
use the_brain.Text.{Text, text_beq, text_eq, codes}
use the_brain.Json.{null}
use the_brain.Dict.{Dict, lookup, insert, has}
use the_brain.Messages.{other_exception}
use the_brain.Database.{Database, FileWatcher}
use the_brain.Database.Runs.{is_running, newest}
use the_brain.Database.Schedules.{beat}
use the_brain.System.{
  World, System, Exec, Observer, ok, pure, throw, ask, try_except, try_load, execute_query, fetch,
  ◌>>=◌, ◌>>◌,
}
use the_brain.Workflow.Models.{Workflow}
use the_brain.Workflow.Loader.{import_workflow_from_file}
use the_brain.Runner.Models.{TriggerContext, WorkflowRun, watcher_restarted}
use the_brain.Runner.Run.{Executor, run_workflow}
use the_brain.Scheduler.Daemon.{recover}

-- A workflow's name and a path: the keys of `_last_fire` and of the observer pool.
abbrev pub Key : Type 0
Key = Text × Text

abbrev pub debounce : ℕ
debounce = 500

abbrev pub fires_since : ℕ → Option ℕ → Bool
fires_since now none = true
fires_since now (some last) = leb (last + debounce) now

-- `_should_fire`
unfoldable pub should_fire : Dict Key ℕ → Key → ℕ → Bool
should_fire last_fire key now = fires_since now (lookup key last_fire)

-- `_record_fire`
unfoldable pub record_fire : Dict Key ℕ → Key → ℕ → Dict Key ℕ
record_fire last_fire key now = insert key now last_fire

-- `watcher_daemon_id`
abbrev pub watcher_daemon_id : World → Text
watcher_daemon_id w = w.hostname ++ codes ":watcher"

unfoldable pub watcher_heartbeat : ℕ → Exec (Unit {0})
watcher_heartbeat now w = (do execute_query (beat (watcher_daemon_id w) now); pure tt) w

-- `trigger_context->>'event' = 'file'`
abbrev pub is_file_event : Option TriggerContext → Bool
is_file_event none = false
is_file_event (some c) = elim c.event [ none ↦ false | some e ↦ e == codes "file" ]

-- The condition of `_recover_orphans`.
unfoldable pub file_running : WorkflowRun → Bool
file_running r = is_running r && is_file_event r.trigger_context

unfoldable pub recover_file_orphans : Exec ℕ
unfolding recover
recover_file_orphans = recover file_running watcher_restarted

-- A `FileSystemEvent` of watchdog.
pub record FileEvent : Type 0 where
  pub is_directory : Bool
  pub event_type : Text
  pub src_path : Text

-- `_WATCHDOG_EVENT_MAP.get`
unfoldable pub mapped_event : Text → Option Text
mapped_event t =
    if t == codes "created"
    then some (codes "created")
    else if t == codes "modified"
    then some (codes "modified")
    else if t == codes "deleted"
    then some (codes "deleted")
    else none

-- `on_any_event`: the event name that `_fire_one` is scheduled with, if it is.
unfoldable pub on_any_event : List Text → FileEvent → Option Text
unfolding mapped_event
on_any_event watched_events event =
    if event.is_directory then none else elim (mapped_event event.event_type) [
      | none ↦ none
      | some mapped ↦ if any (λ e. e == mapped) watched_events then some mapped else none
    ]

-- The row's path if it is neither NULL nor empty.
abbrev recorded_path : Option FileWatcher → Option Text
recorded_path none = none
recorded_path (some row) = elim row.workflow_file_path [
  | none ↦ none
  | some path ↦ if is_empty path then none else some path
]

abbrev path_of_run : Option WorkflowRun → Option Text
path_of_run none = none
path_of_run (some run) = some run.workflow_file_path

abbrev or_else : Option Text → Exec (Option Text) → Exec (Option Text)
or_else (some path) m = pure (some path)
or_else none m = m

-- `_resolve_workflow_file_path`
unfoldable pub resolve_workflow_file_path : Text → Exec (Option Text)
resolve_workflow_file_path name = do
  row ← fetch (λ d. find (λ r. r.workflow_name == name) d.watchers)
  or_else (recorded_path row) (do
    run ← fetch (λ d. newest (keep (λ r. r.workflow_name == name) d.runs))
    pure (path_of_run run))

-- The trigger context of a file event.
abbrev pub file_context : Text → TriggerContext
file_context path = record {
  event = some (codes "file");
  body = null;
  headers = some [];
  path = some path;
}

-- `_fire_one`, from the loaded workflow back to the whole.
module _ (x : Executor) (name event_path : Text) where
  fire_loaded_file : Text → Option Workflow → Exec (Unit {0})
  fire_loaded_file file_path none = pure tt
  fire_loaded_file file_path (some workflow) =
      try_except
        (do run_workflow x none workflow file_path (some (file_context event_path)); pure tt)
        (λ e. pure tt)

  fire_path : Option Text → Exec (Unit {0})
  unfolding fire_loaded_file
  fire_path none = pure tt
  fire_path (some file_path) = do
    loaded ←
        try_load (do workflow ← import_workflow_from_file file_path; pure (some workflow))
          (λ e. pure none)
    fire_loaded_file file_path loaded

  fire_enabled : Exec (Unit {0})
  unfolding fire_path resolve_workflow_file_path
  fire_enabled = do file_path ← resolve_workflow_file_path name; fire_path file_path

  fire_recorded : Exec (Unit {0})
  unfolding fire_enabled
  fire_recorded = do
    enabled ← fetch (λ d. any (λ r. r.workflow_name == name && r.enabled) d.watchers)
    if enabled then fire_enabled else pure tt

  abbrev note_fire : ℕ → Exec (Unit {0})
  note_fire now w s =
      (ok tt, record s { last_fire = record_fire s.last_fire (name, event_path) now })

  fire_at : ℕ → Exec (Unit {0})
  unfolding fire_recorded
  fire_at now w s =
      (if should_fire s.last_fire (name, event_path) now
          then (do note_fire now; fire_recorded)
          else pure tt)
        w s

  unfoldable pub fire_file : Exec (Unit {0})
  unfolding fire_at
  fire_file = do now ← ask (λ w n. w.monotonic n); fire_at now
