-- ===== src/Cli/Run.antt =====
-- `_run` of src/cli.py.
pub mod Success
pub mod Released
use the_brain.Database.Pool.{pooled}
use the_brain.System.Keeps.{Keeps-Quiet, Keeps-try_load}
use the_brain.Database.{Database}
use the_brain.Workflow.Paths.{suffix}
use the_brain.Prelude.{
  ◌==◌, Bool-cases, suc, refl, ◌≡◌, ◌∙◌, ap, sym, ℕ, true, Option, none, some, List, [], ◌∷◌, ◌++◌,
  map, All, inl, inr, ◌⊎◌,
}
use the_brain.Text.{text_eq, codes, Text}
use the_brain.Dict.{Dict}
use the_brain.Messages.{load_error, runtime_error, WorkflowLoadError}
use the_brain.Workflow.Models.{Step, step_name, Workflow, step_names_unique}
use the_brain.Workflow.Loader.{import_resolved, import_workflow_from_file, loaded}
use the_brain.Runner.Models.{StepResult, WorkflowRun, Status, running, success, failed, RunError}
use the_brain.Runner.Run.{Executor, run_workflow}
use the_brain.Runner.Run.Steps.{Ran, all, halt, next}
use the_brain.Runner.Run.Record.{run_workflow-Recorded}
use the_brain.System.{
  raise, continue, or_raise, Result, raised, exited, no_attribute, other_object, World, System,
  Exec, Executed, defines, ok, pure, try_load, catch_load, ◌>>=◌, >>=-eq-ok, ok-injective,
}
use the_brain.System.Quiet.{Quiet-bind, Quiet-pure}
use the_brain.Cli.Commands.{import_workflow-Quiet}

-- How the command ends: the file cannot be loaded, or the run has ended.
pub data RunEnd : Type 0 where
  run_not_loaded : WorkflowLoadError → RunEnd
  run_ended : WorkflowRun → RunEnd

abbrev status_code : Status → ℕ
status_code success = 0
status_code running = 1
status_code failed = 1

unfoldable pub exit_status : RunEnd → ℕ
exit_status (run_not_loaded e) = 1
exit_status (run_ended run) = status_code run.status

-- `show_step` only prints.
abbrev pub show_step : Option (StepResult → Exec (Unit {0}))
show_step = some (λ r. pure tt)

module _ (x : Executor) where
  abbrev pub run_loaded : Text → WorkflowLoadError ⊎ Workflow → Exec RunEnd
  run_loaded path (inl e) = pure (run_not_loaded e)
  run_loaded path (inr workflow) =
      pooled (run_workflow x show_step workflow path none) >>= λ run. pure (run_ended run)

  -- `_run`
  unfoldable pub run_file : Text → Exec RunEnd
  unfolding import_workflow_from_file run_workflow pooled
  run_file path =
      try_load (import_workflow_from_file path >>= λ workflow. pure (inr workflow))
        (λ e. pure (inl e))
      >>= run_loaded path
