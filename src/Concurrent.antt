-- ===== src/Concurrent.antt =====
-- The runs of src/runner/runner.py that overlap in time, with the recovery of the two daemons, as steps
-- on the rows of `workflow_runs`. A step is one committed statement, or the loss of a run.
pub mod Statements
pub mod Frozen
pub mod Tracked
pub mod Follows
use the_brain.Prelude.{
  ℕ, Bool, true, false, ◌≡◌, ◌≢◌, Option, some, List, [], ◌∷◌, any, nat_eq, ◌==◌, if◌then◌else◌,
}
use the_brain.Database.{Database}
use the_brain.Database.Rows.{update_where}
use the_brain.Database.Runs.{insert_run, finish_run, is_running, orphaned}
use the_brain.Runner.Models.{
  WorkflowRun, Status, Entry, RunError, running, daemon_restarted, watcher_restarted,
}
use the_brain.Triggers.Watcher.{file_running}

-- `in_flight` holds the ids of the runs that a process works on, `lost` those of the runs that broke off
-- behind their INSERT: the process ended, a callback raised, or the last UPDATE failed.
pub record Shared : Type 0 where
  pub db : Database
  pub in_flight : List ℕ
  pub lost : List ℕ

abbrev pub member : ℕ → List ℕ → Bool
member id ids = any (λ i. i == id) ids

unfoldable pub without : ℕ → List ℕ → List ℕ
without id [] = []
without id (i ∷ ids) = let rest = without id ids in if i == id then ids else i ∷ rest

-- The UPDATE of a recovery.
abbrev pub recovered : (WorkflowRun → Bool) → RunError → ℕ → Database → Database
recovered test error ended d = record d { runs = update_where test (orphaned error ended) d.runs }

pub data Move (s : Shared) : Shared → Type 0 where
  -- `run_workflow` up to its INSERT.
  begins :
      (row : WorkflowRun) (d : Database) (n : ℕ)
      → row.status ≡ running
      → insert_run row s.db ≡ some (d, n)
      → Move s (record { db = d; in_flight = row.id ∷ s.in_flight; lost = s.lost })
  -- The last UPDATE of `run_workflow`.
  ends :
      (id ended : ℕ) (status : Status) (output : List Entry) (error : Option RunError)
      (d : Database) (n : ℕ)
      → status ≢ running
      → member id s.in_flight ≡ true
      → finish_run id ended status output error s.db ≡ some (d, n)
      → Move s (record { db = d; in_flight = without id s.in_flight; lost = s.lost })
  breaks_off :
      (id : ℕ)
      → member id s.in_flight ≡ true
      → Move s (record { db = s.db; in_flight = without id s.in_flight; lost = id ∷ s.lost })
  -- `_recover_orphans` of src/scheduler/daemon.py, then that of src/triggers/watcher.py.
  recovers :
      (ended : ℕ)
      → Move s (record s { db = recovered is_running daemon_restarted ended s.db; lost = [] })
  recovers_files :
      (ended : ℕ) → Move s (record s { db = recovered file_running watcher_restarted ended s.db })
  -- A statement on other tables.
  elsewhere : (d : Database) → d.runs ≡ s.db.runs → Move s (record s { db = d })

pub data Reach (s : Shared) : Shared → Type 0 where
  start : Reach s s
  later : {t u : Shared} → Reach s t → Move t u → Reach s u

pub Reach-trans : {s t u : Shared} → Reach s t → Reach t u → Reach s u
Reach-trans h start = h
Reach-trans h (later k step) = later (Reach-trans h k) step
