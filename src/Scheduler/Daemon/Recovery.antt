-- ===== src/Scheduler/Daemon/Recovery.antt =====
-- Recovery from a crash of the scheduler daemon.
use the_brain.Runner.Models.{failed, daemon_restarted, RunError, WorkflowRun}
use the_brain.Scheduler.Daemon.{recover, recover_orphans}
use the_brain.Prelude.{some, suc, ℕ, refl, if◌then◌else◌, map, false, Bool, any, count, ◌≡◌}
use the_brain.Database.Rows.{any-update_where, update_where-eq-map}
use the_brain.Database.Runs.{is_running, orphaned}
use the_brain.System.{World, System, ok, execute_query}

pub recover_done :
    (test : WorkflowRun → Bool) (error : RunError)
    → ((t : ℕ) (r : WorkflowRun) → test (orphaned error t r) ≡ false)
    → (w : World) (s : System) → w.db_raises (suc s.calls) ≡ false
    → ((recover test error w s).0 ≡ ok (count test s.db.runs))
      × (any test (recover test error w s).1.db.runs ≡ false)
      × ((recover test error w s).1.db ≡ record s.db {
        runs = map (λ r. if test r then orphaned error (w.now s.calls) r else r) s.db.runs;
      })
unfolding recover execute_query
recover_done test error done w s up =
    let f = orphaned error (w.now s.calls) in
    let off = any-update_where test f (done (w.now s.calls)) s.db.runs in
    let same = update_where-eq-map test f s.db.runs in (rw up, rw up off, rw (up, same))

-- A row as the recovery of a daemon leaves it: failed, with the daemon's error and the time of the
-- recovery as its end, and else as it was.
abbrev pub failed_row : RunError → ℕ → WorkflowRun → WorkflowRun
failed_row error ended r = record {
  id = r.id;
  workflow_name = r.workflow_name;
  workflow_file_path = r.workflow_file_path;
  started_at = r.started_at;
  ended_at = some ended;
  status = failed;
  output = r.output;
  error = some error;
  previous_run_id = r.previous_run_id;
  planned_steps = r.planned_steps;
  trigger_context = r.trigger_context;
}

-- Where the UPDATE does not fail, recovery returns the number of runs that were still running, whoever
-- had started them, and afterwards none is running: each of these rows has become a failed one, with
-- the error of a restarted daemon and the time of the recovery as its end; all else in it, every other
-- row and every other table is as it was.
pub recover_orphans-done :
    (w : World) (s : System)
    → w.db_raises (suc s.calls) ≡ false
    → ((recover_orphans w s).0 ≡ ok (count is_running s.db.runs))
      × (any is_running (recover_orphans w s).1.db.runs ≡ false)
      × ((recover_orphans w s).1.db ≡ record s.db {
        runs =
            map
              (λ r. if is_running r then failed_row daemon_restarted (w.now s.calls) r else r)
              s.db.runs;
      })
unfolding recover_orphans is_running orphaned
recover_orphans-done w s up = recover_done is_running daemon_restarted (λ t r. refl) w s up
