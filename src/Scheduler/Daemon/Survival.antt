-- ===== src/Scheduler/Daemon/Survival.antt =====
-- Failures inside a tick of src/scheduler/daemon.py.
use the_brain.Database.{Schedule}
use the_brain.Database.Schedules.{set_next_run, beat, due_schedules}
use the_brain.Scheduler.Cron.{Parsed, invalid, valid, parse, next_fire_after}
use the_brain.Runner.Run.Contained.{run_workflow-Tame}
use the_brain.System.Returns.{try_except-Returns, >>=-Returns, Returns}
use the_brain.Scheduler.Daemon.{
  set_next_fire, advance_parsed, fire_loaded, heartbeat, daemon_tick, fire_all, advance_next_fire,
  fire_one,
}
use the_brain.Workflow.Models.{Workflow}
use the_brain.Runner.Run.Total.{IsTame}
use the_brain.Runner.Run.{Executor}
use the_brain.Text.{Text}
use the_brain.Workflow.Loader.{import_resolved, import_workflow_from_file}
use the_brain.Prelude.{
  ◌∙◌, ap, false, [], ◌∷◌, suc, some, refl, List, none, Option, ◌≢◌, arith, ℕ, ◌≡◌,
}
use the_brain.Messages.{base_exception, runtime_error}
use the_brain.System.{
  execute_query, fetch, try_except, pure, raise, ◌>>=◌, or_raise, exited, World, System,
}
use the_brain.System.Tame.{Tame-execute_query, Tame-try_load, Tame, Tame-bind, Tame-pure}

-- No workflow file leaves by `sys.exit` or the like when it is executed.
abbrev pub IsContained : World → Type 0
IsContained w = (n : ℕ) (path : Text) → w.exec_module n path ≢ exited

import_resolved-Tame : (w : World) (path : Text) → IsContained w → Tame w (import_resolved path)
unfolding import_resolved
import_resolved-Tame w path contained = record {
  at = λ s h. ground (arith, contained (suc (suc s.calls)) path);
}

import_workflow-Tame :
    (w : World) (path : Text) → IsContained w → Tame w (import_workflow_from_file path)
unfolding import_workflow_from_file
import_workflow-Tame w path contained = record {
  at = λ s. at_path (w.resolve_path s.calls path) (record s { calls = suc s.calls });
}
  where
    at_path :
        (o : Option Text) (s : System)
        → ((or_raise o runtime_error >>= λ p. import_resolved p) w s).0 ≢ raise base_exception
    at_path none s h = cc
    at_path (some p) s h = (import_resolved-Tame w p contained).at s h

module _ (x : Executor) (w : World) (tame : IsTame x w) (contained : IsContained w) where
  set_next_fire-Tame : (name : Text) (next : Option ℕ) → Tame w (set_next_fire name next)
  unfolding set_next_fire
  set_next_fire-Tame name none = record { at = λ s h. cc }
  set_next_fire-Tame name (some next) = record {
    at =
        (Tame-bind w (execute_query (set_next_run name next)) (λ _. pure tt)
          (Tame-execute_query w _) (λ _. Tame-pure w tt)).at;
  }

  advance_parsed-Tame : (name : Text) (now : ℕ) (p : Parsed) → Tame w (advance_parsed name now p)
  unfolding advance_parsed
  advance_parsed-Tame name now (invalid e) = record { at = (Tame-pure w tt).at }
  advance_parsed-Tame name now (valid c) = record {
    at = (set_next_fire-Tame name (next_fire_after w c now)).at;
  }

  advance-Tame : (name cron : Text) (now : ℕ) → Tame w (advance_next_fire name cron now)
  unfolding advance_next_fire
  advance-Tame name cron now = record { at = (advance_parsed-Tame name now (parse w cron)).at }

  fire_loaded-Tame :
      (schedule : Schedule) (now : ℕ) (o : Option Workflow) → Tame w (fire_loaded x schedule now o)
  unfolding fire_loaded
  fire_loaded-Tame schedule now none = advance-Tame _ _ now
  fire_loaded-Tame schedule now (some workflow) =
      Tame-bind w _ _ (run_workflow-Tame x w tame workflow schedule.workflow_file_path none)
        λ run. Tame-bind w _ _ (Tame-execute_query w _) λ _. advance-Tame _ _ now

  fire_one-Tame : (schedule : Schedule) (now : ℕ) → Tame w (fire_one x schedule now)
  unfolding fire_one
  fire_one-Tame schedule now =
      Tame-bind w _ _
        (Tame-try_load w _ _
          (Tame-bind w _ _ (import_workflow-Tame w schedule.workflow_file_path contained)
            (λ wf. Tame-pure w (some wf)))
          (λ e. Tame-pure w none))
        λ o. fire_loaded-Tame schedule now o

  fire_all-Returns :
      (schedules : List Schedule) (now : ℕ) (s : System) → Returns (fire_all x schedules now) w s
  unfolding fire_all
  fire_all-Returns [] now s = (tt, refl)
  fire_all-Returns (schedule ∷ rest) now s =
      >>=-Returns (try_except (fire_one x schedule now) (λ e. pure tt)) _ w s
        (try_except-Returns (fire_one x schedule now) (λ e. tt) w s
          ((fire_one-Tame schedule now).at s))
        λ _ _. fire_all-Returns rest now _

  heartbeat-Returns :
      (now : ℕ) (s : System)
      → w.db_raises s.calls ≡ false
      → Returns (heartbeat now) w s × ((heartbeat now w s).1.calls ≡ suc s.calls)
  unfolding heartbeat execute_query beat
  heartbeat-Returns now s h = ((tt, ground arith), ground arith)

  due-Returns :
      (now : ℕ) (s : System) → w.db_raises s.calls ≡ false → Returns (fetch (due_schedules now)) w s
  unfolding fetch
  due-Returns now s h = (due_schedules now s.db, rw h)

  -- A tick whose two first statements succeed returns, whatever fails later: loading a workflow, its
  -- steps, or any statement of the fires. The only hypotheses are that no executor and no workflow
  -- file raises a BaseException.
  pub daemon_tick-Returns :
      (now : ℕ) (s : System)
      → w.db_raises s.calls ≡ false
      → w.db_raises (suc s.calls) ≡ false
      → Returns (daemon_tick x now) w s
  unfolding daemon_tick
  daemon_tick-Returns now s first second =
      let (alive, calls) = heartbeat-Returns now s first in
      let s1 = (heartbeat now w s).1 in
      >>=-Returns (heartbeat now)
        (λ _. fetch (due_schedules now) >>= λ schedules. fire_all x schedules now) w s alive
        λ _ _.
          >>=-Returns (fetch (due_schedules now)) (λ schedules. fire_all x schedules now) w s1
            (due-Returns now s1 (ap w.db_raises calls ∙ second))
            λ schedules _. fire_all-Returns schedules now (fetch (due_schedules now) w s1).1
