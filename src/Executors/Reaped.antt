-- ===== src/Executors/Reaped.antt =====
-- The child processes of a whole run of src/runner/runner.py with the executors of src/executors.
use the_brain.Text.{Text}
use the_brain.Workflow.Models.{Workflow}
use the_brain.System.Relates.{Relates}
use the_brain.System.{System}
use the_brain.Prelude.{Numbered, nat_eq, ◌≤◌, ◌≡◌}

-- From a state whose processes are numbered, calls lead to one with the same processes.
abbrev Reaped : System → System → Type 0
Reaped s t = Numbered s.calls s.processes → (t.processes ≡ s.processes) × (s.calls ≤ t.calls)
