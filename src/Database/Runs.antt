-- ===== src/Database/Runs.antt =====
-- The statements on `workflow_runs`.
use the_brain.Prelude.{
  ℕ, Bool, true, false, ◌&&◌, Option, none, some, List, [], ◌∷◌, ◌++◌, ltb, ◌==◌, nat_eq, any, keep,
  count, if◌then◌else◌,
}
use the_brain.Text.{Text, text_eq}
use the_brain.Runner.Models.{WorkflowRun, Entry, Status, running, success, failed, RunError}
use the_brain.Database.{Database}
use the_brain.Database.Rows.{update_where}

unfoldable pub is_running : WorkflowRun → Bool
is_running r = elim r.status [ running ↦ true | success ↦ false | failed ↦ false ]

unfoldable pub is_success : WorkflowRun → Bool
is_success r = elim r.status [ running ↦ false | success ↦ true | failed ↦ false ]

-- `id` is the primary key.
unfoldable pub insert_run : WorkflowRun → Database → Option (Database × ℕ)
insert_run run d =
    if any (λ r. r.id == run.id) d.runs
    then none
    else some (record d { runs = d.runs ++ run ∷ [] }, 1)

-- The row after the runner's last UPDATE.
unfoldable pub finished : ℕ → Status → List Entry → Option RunError → WorkflowRun → WorkflowRun
finished ended status output error r = record r {
  ended_at = some ended;
  status = status;
  output = some output;
  error = error;
}

unfoldable pub finish_run :
    ℕ → ℕ → Status → List Entry → Option RunError → Database → Option (Database × ℕ)
unfolding finished
finish_run id ended status output error d = some (
  record d { runs = update_where (λ r. r.id == id) (finished ended status output error) d.runs },
  count (λ r. r.id == id) d.runs,
)

abbrev newer : WorkflowRun → Option WorkflowRun → Option WorkflowRun
newer r none = some r
newer r (some q) = if ltb r.started_at q.started_at then some q else some r

-- ORDER BY started_at DESC LIMIT 1. Of rows that started at one moment it is the first inserted.
unfoldable pub newest : List WorkflowRun → Option WorkflowRun
newest [] = none
newest (r ∷ rs) = newer r (newest rs)

unfoldable pub is_success_of : Text → WorkflowRun → Bool
unfolding is_success
is_success_of name r = r.workflow_name == name && is_success r

unfoldable pub last_success : Text → Database → Option WorkflowRun
last_success name d = newest (keep (is_success_of name) d.runs)

-- The row of an interrupted run, as a daemon rewrites it when it starts.
unfoldable pub orphaned : RunError → ℕ → WorkflowRun → WorkflowRun
orphaned error ended r = record r { status = failed; error = some error; ended_at = some ended }
