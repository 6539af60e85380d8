-- ===== src/Runner/Run.antt =====
-- `_lookup_previous_run` and `run_workflow` of src/runner/runner.py.
pub mod Steps
pub mod Total
pub mod Contained
pub mod Record
pub mod History
use the_brain.Prelude.{
  ℕ, Bool, true, false, ◌≡◌, Option, none, some, List, [], ◌∷◌, map, if◌then◌else◌,
}
use the_brain.Text.{Text, text_eq}
use the_brain.Dict.{Dict, insert}
use the_brain.Messages.{unresolved, unexpected}
use the_brain.Workflow.Models.{Step, step_name, step_type, Workflow}
use the_brain.Database.Runs.{insert_run, finish_run, finished, last_success}
use the_brain.System.{
  World, System, Exec, Result, ok, pure, ask, try_except, ◌>>=◌, ◌>>◌, execute_query, fetch,
}
use the_brain.System.Quiet.{Quiet}
use the_brain.Runner.Models.{
  StepResult, failure, Status, running, success, failed, Entry, Planned, RunError, step_failed,
  WorkflowRun, TriggerContext,
}
use the_brain.Runner.Placeholder.{Attempt, value, error}
use the_brain.Runner.Resolve.{resolve_step}

-- `get_executor(step).execute(step)`, as the runner sees it.
pub record Executor : Type 0 where
  pub execute : Step → Exec StepResult
  pub quiet : (step : Step) → Quiet (execute step)

-- The outputs of the steps that succeeded, by step name.
unfoldable pub outputs_of : List Entry → Dict Text Text → Dict Text Text
outputs_of [] steps = steps
outputs_of (e ∷ entries) steps =
    outputs_of entries (if e.success then insert e.name e.output steps else steps)

abbrev or_no_entries : Option (List Entry) → List Entry
or_no_entries none = []
or_no_entries (some l) = l

abbrev previous_of : Option WorkflowRun → Option ℕ × Option (Dict Text Text)
previous_of none = (none, none)
previous_of (some row) = (some row.id, some (outputs_of (or_no_entries row.output) []))

unfoldable pub lookup_previous_run : Text → Exec (Option ℕ × Option (Dict Text Text))
unfolding outputs_of
lookup_previous_run name = do row ← fetch (last_success name); pure (previous_of row)

pub record Outcome : Type 0 where
  pub results : Dict Text StepResult
  pub status : Status
  pub error : Option RunError

unfoldable pub entry : Text × StepResult → Entry
entry (name, r) = record { name = name; success = r.success; output = r.output }

unfoldable pub planned : Step → Planned
planned step = record { name = step_name step; type = step_type step }

abbrev pub Callback : Type 0
Callback = Option (StepResult → Exec (Unit {0}))

abbrev pub notify : Callback → StepResult → Exec (Unit {0})
notify none r = pure tt
notify (some f) r = f r

-- The row that is inserted before the first step.
unfoldable pub started_run :
    Workflow → Text → Option TriggerContext → ℕ → ℕ → Option ℕ → WorkflowRun
started_run workflow file_path trigger id started previous_id = record {
  id = id;
  workflow_name = workflow.name;
  workflow_file_path = file_path;
  started_at = started;
  ended_at = none;
  status = running;
  output = none;
  error = none;
  previous_run_id = previous_id;
  planned_steps = map planned workflow.steps;
  trigger_context = trigger;
}

-- The end of `run_workflow`, from `ended_at` on.
unfoldable pub complete : WorkflowRun → Outcome → Exec WorkflowRun
complete row outcome = do
  ended ← ask (λ w n. w.now n)
  let output = map entry outcome.results
  execute_query (finish_run row.id ended outcome.status output outcome.error)
  pure (finished ended outcome.status output outcome.error row)

module _ (x : Executor) (on_step_complete : Callback) where
  module _ (previous : Option (Dict Text Text)) (trigger : Option TriggerContext) where
    execute_resolved : Text → Attempt Step → Exec StepResult
    execute_resolved name (error e) = pure (failure name (unresolved e))
    execute_resolved name (value resolved) =
        try_except (x.execute resolved) (λ e. pure (failure name (unexpected e)))

    -- One round of the loop, up to the callback.
    unfoldable pub run_step : Dict Text StepResult → Step → Exec StepResult
    unfolding execute_resolved
    run_step results step w s =
        execute_resolved (step_name step) (resolve_step w results previous trigger step) w s

    unfoldable pub halted : Step → StepResult → Dict Text StepResult → Outcome
    halted step result results = record {
      results = results;
      status = failed;
      error = some (step_failed (step_name step) result.error);
    }

    -- The loop over the steps: it ends at the first result that is no success.
    unfoldable pub run_steps : Dict Text StepResult → List Step → Exec Outcome
    unfolding run_step halted
    run_steps results [] = pure (record { results = results; status = success; error = none })
    run_steps results (step ∷ steps) = do
      result ← run_step results step
      notify on_step_complete result
      let seen = insert (step_name step) result results
      if result.success then run_steps seen steps else pure (halted step result seen)

  unfoldable pub run_workflow : Workflow → Text → Option TriggerContext → Exec WorkflowRun
  unfolding started_run complete
  run_workflow workflow file_path trigger = do
    id ← ask (λ w n. w.uuid4 n)
    started ← ask (λ w n. w.now n)
    previous ← lookup_previous_run workflow.name
    let row = started_run workflow file_path trigger id started previous.0
    execute_query (insert_run row)
    outcome ← run_steps previous.1 trigger [] workflow.steps
    complete row outcome
