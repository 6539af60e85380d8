-- ===== src/Cli/Lists.antt =====
-- `list`, `list-triggers` and `run` of src/cli.py.
use the_brain.Prelude.{
  ℕ, Bool, true, false, ◌&&◌, not, Option, none, some, List, ◌++◌, keep, find, map, ◌==◌, nat_eq,
  if◌then◌else◌,
}
use the_brain.Text.{Text, text_eq}
use the_brain.Database.{Database, Schedule, Webhook, FileWatcher}
use the_brain.Runner.Models.{WorkflowRun}
use the_brain.System.{World, Exec, pure, ◌>>=◌}
use the_brain.Cli.Reports.{order_by, named_or_any, select}

-- A row of `list`: a schedule, and the start of its last run where the LEFT JOIN finds one.
pub record Listed : Type 0 where
  pub schedule : Schedule
  pub last_run_at : Option ℕ

abbrev start_of : Option WorkflowRun → Option ℕ
start_of none = none
start_of (some r) = some r.started_at

abbrev last_run : Option ℕ → Database → Option WorkflowRun
last_run none d = none
last_run (some id) d = find (λ r. r.id == id) d.runs

unfoldable pub listed : Database → Schedule → Listed
listed d schedule = record {
  schedule = schedule;
  last_run_at = start_of (last_run schedule.last_run_id d);
}

-- The two flags and the name as the conditions of the WHERE clause.
unfoldable pub wanted : Bool → Bool → Option Text → Schedule → Bool
wanted enabled disabled name s =
    (if enabled then s.enabled else true)
    && (if disabled then not s.enabled else true)
    && named_or_any name s.workflow_name

-- `ORDER BY` a name, in the collation of the database.
abbrev by_name : World → (a b : Text) → Bool
by_name w a b = w.collates b a

unfoldable pub list_rows : World → Bool → Bool → Option Text → Database → List Listed
unfolding listed wanted order_by
list_rows w enabled disabled name d =
    order_by (λ a b. by_name w a.schedule.workflow_name b.schedule.workflow_name)
      (map (listed d) (keep (wanted enabled disabled name) d.schedules))

-- `list_cmd`: `none` where the flags exclude each other and the command ends by `SystemExit(1)`.
unfoldable pub list_cmd : Bool → Bool → Option Text → Exec (Option (List Listed))
unfolding list_rows
list_cmd true true name = pure none
list_cmd true false name = select (λ w d. some (list_rows w true false name d))
list_cmd false disabled name = select (λ w d. some (list_rows w false disabled name d))

-- A row of `list-triggers`.
pub data Trigger : Type 0 where
  cron : Schedule → Trigger
  webhook : Webhook → Trigger
  file : FileWatcher → Trigger

-- `_list_triggers`
unfoldable pub list_triggers : Exec (List Trigger)
unfolding order_by
list_triggers = do
  schedules ← select λ w d. order_by (λ a b. by_name w a.workflow_name b.workflow_name) d.schedules
  webhooks ← select λ w d. order_by (λ a b. by_name w a.workflow_name b.workflow_name) d.webhooks
  watchers ← select λ w d. order_by (λ a b. by_name w a.workflow_name b.workflow_name) d.watchers
  pure (map cron schedules ++ map webhook webhooks ++ map file watchers)
