-- ===== src/Examples/Overlaps.antt =====
-- The theorems on runs that overlap applied to a table with one row.
use the_brain.Text.{codes}
use the_brain.Runner.Run.{started_run, run_workflow}
use the_brain.Database.Runs.{insert_run}
use the_brain.Concurrent.Follows.{run_workflow-Traced, Traced}
use the_brain.Concurrent.Tracked.{Reach-Tracked, Tracked}
use the_brain.Concurrent.Frozen.{Reach-Settled, Settled}
use the_brain.Prelude.{any, ◌∷◌, [], none, some, inl, refl}
use the_brain.Prelude.{find}
use the_brain.Database.Runs.{is_running}
use the_brain.Concurrent.{without, Shared, begins, breaks_off, Reach, start, later}
use the_brain.Runner.Models.{daemon_restarted, WorkflowRun, failed}
use the_brain.Examples.{two_steps, calm_world, system, left_running, echo}

-- The row that was left running is failed.
abbrev cleaned : WorkflowRun
cleaned = record left_running { status = failed; error = some daemon_restarted; ended_at = some 9 }

abbrev quiet_table : Shared
quiet_table = record { db = record system.db { runs = cleaned ∷ [] }; in_flight = []; lost = [] }

abbrev another : WorkflowRun
another = record left_running { id = 78 }

abbrev one_more : Shared
one_more = record {
  db = record system.db { runs = cleaned ∷ another ∷ [] };
  in_flight = 78 ∷ [];
  lost = [];
}

abbrev one_lost : Shared
one_lost = record { db = one_more.db; in_flight = []; lost = 78 ∷ [] }

-- A run begins and breaks off.
history : Reach quiet_table one_lost
unfolding insert_run any without started_run
history = later (later start (begins another one_more.db 1 refl refl)) (breaks_off 78 refl)

Reach-Settled_example : Settled 77 cleaned one_lost
unfolding find started_run is_running any
Reach-Settled_example = Reach-Settled quiet_table one_lost 77 cleaned history (refl, refl, refl)

Reach-Tracked_example : Tracked one_lost
unfolding is_running
Reach-Tracked_example = Reach-Tracked quiet_table one_lost history (inl refl, tt)

run_workflow-Traced_example :
    Traced
      (5 ∷ [])
      (5 ∷ [])
      []
      system.db
      (run_workflow echo none two_steps (codes "/w.py") none calm_world system)
run_workflow-Traced_example =
    run_workflow-Traced echo none (λ r. record { at = λ w s. refl }) calm_world (5 ∷ []) []
      two_steps (codes "/w.py") none system
