-- ===== src/Runner/Models.antt =====
-- src/runner/models.py, the `StepResult` of src/executors/base.py, and the trigger context.
use the_brain.Prelude.{ℕ, Bool, true, false, Option, none, some, List, []}
use the_brain.Text.{Text}
use the_brain.Json.{Json}
use the_brain.Messages.{Failure}
use the_brain.Workflow.Models.{StepType}
use the_brain.Dict.{Dict}

-- The dict built by the webhook endpoint and by the file watcher. A missing key, or `None`, is
-- `none`; a `None` body is JSON null.
pub record TriggerContext : Type 0 where
  pub event : Option Text
  pub body : Json
  pub headers : Option (Dict Text Text)
  pub path : Option Text

pub record StepResult : Type 0 where
  pub step_name : Text
  pub success : Bool
  pub output : Text
  pub error : Option Failure

unfoldable pub failure : Text → Failure → StepResult
failure name e = record { step_name = name; success = false; output = []; error = some e }

unfoldable pub succeeded : Text → Text → StepResult
succeeded name out = record { step_name = name; success = true; output = out; error = none }

pub data Status : Type 0 where
  running success failed : Status

-- One element of the `output` column.
pub record Entry : Type 0 where
  pub name : Text
  pub success : Bool
  pub output : Text

-- One element of the `planned_steps` column.
pub record Planned : Type 0 where
  pub name : Text
  pub type : StepType

-- The `error` column.
pub data RunError : Type 0 where
  step_failed : Text → Option Failure → RunError
  daemon_restarted : RunError
  watcher_restarted : RunError

-- A row of `workflow_runs`.
pub record WorkflowRun : Type 0 where
  pub id : ℕ
  pub workflow_name : Text
  pub workflow_file_path : Text
  pub started_at : ℕ
  pub ended_at : Option ℕ
  pub status : Status
  pub output : Option (List Entry)
  pub error : Option RunError
  pub previous_run_id : Option ℕ
  pub planned_steps : List Planned
  pub trigger_context : Option TriggerContext
