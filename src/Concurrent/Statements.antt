-- ===== src/Concurrent/Statements.antt =====
-- The statements of a run on `workflow_runs`, where they succeed.
use the_brain.Database.Rows.{update_where}
use the_brain.Database.{Database}
use the_brain.Runner.Models.{RunError, Entry, Status, WorkflowRun}
use the_brain.Database.Runs.{finished, insert_run, finish_run}
use the_brain.Prelude.{arith, nat_eq, false, ◌==◌, any, ◌∷◌, Option, ◌++◌, ◌≡◌, List, ℕ, [], some}

pub insert_run-eq-some :
    (row : WorkflowRun) (d d' : Database) (n : ℕ)
    → insert_run row d ≡ some (d', n)
    → (d'.runs ≡ d.runs ++ row ∷ []) × (any (λ r. r.id == row.id) d.runs ≡ false)
unfolding insert_run
insert_run-eq-some row d d' n h = ground arith

pub finish_run-eq-some :
    (id ended : ℕ) (status : Status) (output : List Entry) (error : Option RunError)
    (d d' : Database) (n : ℕ)
    → finish_run id ended status output error d ≡ some (d', n)
    → d'.runs ≡ update_where (λ r. r.id == id) (finished ended status output error) d.runs
unfolding finish_run
finish_run-eq-some id ended status output error d d' n h = cc
