-- ===== src/Cli/Printed.antt =====
-- The tables that `history`, `list` and `list-triggers` of src/cli.py print, line by line.
pub mod Aligned
use the_brain.Cli.Lists.{file, webhook, cron, Listed, Trigger}
use the_brain.Prelude.Int.{difference, ℤ}
use the_brain.Text.{codes, Text}
use the_brain.Cli.Reports.{truncate}
use the_brain.Prelude.{
  zero, suc, true, false, length, map, ◌-◌, suc, take, ◌∷◌, ◌++◌, Bool, ℕ, List, Option, [], none,
  some,
}
use the_brain.Runner.Models.{WorkflowRun, Status, running, success, failed}

-- `str` of a UUID, `strftime("%Y-%m-%d %H:%M:%S")` of a moment, and a time in microseconds as seconds
-- with one decimal.
pub record Formats : Type 0 where
  pub id_text : ℕ → Text
  pub time_text : ℕ → Text
  pub seconds_text : ℤ → Text

unfoldable pub spaces : ℕ → Text
spaces zero = []
spaces (suc n) = b' ' ∷ spaces n

-- `f"{text:<w}"`
abbrev pub left_in : ℕ → Text → Text
left_in w text = text ++ spaces (w - length text)

-- Columns of a width each, and what stands behind the last.
abbrev pub columns : List (ℕ × Text) → Text → Text
columns [] rest = rest
columns ((w, text) ∷ cs) rest = left_in w text ++ columns cs rest

abbrev pub dash : Text
dash = 8212 ∷ []

abbrev pub status_text : Status → Text
status_text running = codes "running"
status_text success = codes "success"
status_text failed = codes "failed"

abbrev pub yes_no : Bool → Text
yes_no true = codes "yes"
yes_no false = codes "no"

module _ (formats : Formats) where
  -- `_duration`
  unfoldable pub duration : ℕ → Option ℕ → Text
  duration started none = dash
  duration started (some ended) = formats.seconds_text (difference ended started) ++ codes "s"

  abbrev pub short_id : ℕ → Text
  short_id id = take 8 (formats.id_text id)

  abbrev pub time_or_dash : Option ℕ → Text
  time_or_dash none = dash
  time_or_dash (some t) = formats.time_text t

  unfoldable pub history_line : WorkflowRun → Text
  unfolding truncate duration
  history_line r =
      columns
        ((10, short_id r.id)
          ∷ (24, truncate r.workflow_name 23)
          ∷ (10, status_text r.status)
          ∷ (22, formats.time_text r.started_at)
          ∷ [])
        (duration r.started_at r.ended_at)

  unfoldable pub list_line : Listed → Text
  unfolding truncate
  list_line l =
      columns
        ((20, truncate l.schedule.workflow_name 19)
          ∷ (16, truncate l.schedule.cron_expression 15)
          ∷ (10, yes_no l.schedule.enabled)
          ∷ (22, time_or_dash l.last_run_at)
          ∷ (22, time_or_dash l.schedule.next_run_at)
          ∷ [])
        l.schedule.workflow_file_path

unfoldable pub trigger_cells : Text → Text → Bool → List (ℕ × Text)
unfolding truncate
trigger_cells kind name enabled = (10, kind) ∷ (24, truncate name 23) ∷ (10, yes_no enabled) ∷ []

unfoldable pub trigger_line : Trigger → Text
unfolding trigger_cells
trigger_line (cron s) =
    columns (trigger_cells (codes "cron") s.workflow_name s.enabled) s.cron_expression
trigger_line (webhook r) = columns (trigger_cells (codes "webhook") r.workflow_name r.enabled) dash
trigger_line (file r) =
    columns (trigger_cells (codes "file") r.workflow_name r.enabled) r.watched_path

abbrev pub history_header : Text
history_header =
    columns
      ((10, codes "RUN")
        ∷ (24, codes "WORKFLOW")
        ∷ (10, codes "STATUS")
        ∷ (22, codes "STARTED")
        ∷ [])
      (codes "DURATION")

abbrev pub list_header : Text
list_header =
    columns
      ((20, codes "NAME")
        ∷ (16, codes "CRON")
        ∷ (10, codes "ENABLED")
        ∷ (22, codes "LAST RUN")
        ∷ (22, codes "NEXT FIRE")
        ∷ [])
      (codes "FILE")

abbrev pub trigger_header : Text
trigger_header =
    columns ((10, codes "TYPE") ∷ (24, codes "NAME") ∷ (10, codes "ENABLED") ∷ []) (codes "DETAIL")

-- The lines of a table, or the one line that says that there are no rows.
abbrev pub table {ℓ} : {A : Type ℓ} → Text → Text → (A → Text) → List A → List Text
table nothing header line [] = nothing ∷ []
table nothing header line (x ∷ xs) = header ∷ map line (x ∷ xs)

unfoldable pub history_lines : Formats → List WorkflowRun → List Text
unfolding history_line
history_lines formats = table (codes "No runs found.") history_header (history_line formats)

unfoldable pub list_lines : Formats → List Listed → List Text
unfolding list_line
list_lines formats = table (codes "No schedules found.") list_header (list_line formats)

unfoldable pub trigger_lines : List Trigger → List Text
unfolding trigger_line
trigger_lines = table (codes "No triggers registered.") trigger_header trigger_line
