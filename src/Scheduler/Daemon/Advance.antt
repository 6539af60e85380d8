-- ===== src/Scheduler/Daemon/Advance.antt =====
-- What `_fire_one` of src/scheduler/daemon.py does to the schedule.
use the_brain.Database.Rows.{update_where}
use the_brain.Database.{Database, Schedule}
use the_brain.Scheduler.Cron.{CronExpression, parse, valid, next_fire_after}
use the_brain.Workflow.Models.{Workflow}
use the_brain.Workflow.Loader.{import_workflow_from_file}
use the_brain.Runner.Run.{Executor, run_workflow}
use the_brain.Runner.Models.{WorkflowRun}
use the_brain.Database.Schedules.{set_last_run, is_due, named, set_next_run}
use the_brain.Scheduler.Daemon.{
  fire_loaded, fire_one, set_next_fire, advance_parsed, advance_next_fire,
}
use the_brain.Text.{Text}
use the_brain.Prelude.{
  List, none, Option, ◌∙◌, ap, subst, sym, ◌<◌, false, arith, ◌&&◌, some, any, ℕ, [], ◌∷◌, ◌≡◌,
  refl,
}
use the_brain.System.{try_load, pure, ◌>>=◌, World, System, ok, execute_query, >>=-eq-ok}

set_next_run_returned :
    (name : Text) (t : ℕ) (w : World) (s : System) {n : ℕ}
    → (execute_query (set_next_run name t) w s).0 ≡ ok n
    → (execute_query (set_next_run name t) w s).1.db ≡ record s.db {
      schedules = update_where (named name) (λ r. record r { next_run_at = some t }) s.db.schedules;
    }
unfolding execute_query set_next_run
set_next_run_returned name t w s h = ground arith

-- No row of this name is due any more at `now`.
abbrev pub NotDue : ℕ → Text → Database → Type 0
NotDue now name d = any (λ r. named name r && is_due now r) d.schedules ≡ false

not_due :
    (name : Text) (now t : ℕ)
    → now < t
    → (rows : List Schedule)
    → any
        (λ r. named name r && is_due now r)
        (update_where (named name) (λ r. record r { next_run_at = some t }) rows)
      ≡ false
unfolding any update_where is_due
not_due name now t h [] = refl
not_due name now t h (r ∷ rows) = ground (arith, not_due name now t h rows)

set_next_fire-NotDue :
    (name : Text) (now next : ℕ) (w : World) (s : System)
    → now < next
    → (set_next_fire name (some next) w s).0 ≡ ok tt
    → NotDue now name (set_next_fire name (some next) w s).1.db
unfolding set_next_fire
set_next_fire-NotDue name now next w s later h =
    let statement = execute_query (set_next_run name next) in
    let (n, done, _, same) = >>=-eq-ok statement (λ _. pure tt) w s h in
    let db = ap (λ p. p.1.db) same ∙ set_next_run_returned name next w s done in
    subst (NotDue now name) (sym db) (not_due name now next later s.db.schedules)

advance_parsed-NotDue :
    (name : Text) (now next : ℕ) (c : CronExpression) (w : World) (s : System)
    → next_fire_after w c now ≡ some next
    → now < next
    → (advance_parsed name now (valid c) w s).0 ≡ ok tt
    → NotDue now name (advance_parsed name now (valid c) w s).1.db
unfolding advance_parsed
advance_parsed-NotDue name now next c w s found later h =
    rw found (set_next_fire-NotDue name now next w s later (rw found at h))

module _ (x : Executor) (schedule : Schedule) (now : ℕ) (w : World) (c : CronExpression)
    (parsed : parse w schedule.cron_expression ≡ valid c) (next : ℕ)
    (found : next_fire_after w c now ≡ some next) (later : now < next) where
  advance-NotDue :
      (s : System)
      → (advance_next_fire schedule.workflow_name schedule.cron_expression now w s).0 ≡ ok tt
      → NotDue now schedule.workflow_name
          (advance_next_fire schedule.workflow_name schedule.cron_expression now w s).1.db
  unfolding advance_next_fire
  advance-NotDue s h =
      rw parsed
        (advance_parsed-NotDue schedule.workflow_name now next c w s found later (rw parsed at h))

  fire_loaded-NotDue :
      (o : Option Workflow) (s : System)
      → (fire_loaded x schedule now o w s).0 ≡ ok tt
      → NotDue now schedule.workflow_name (fire_loaded x schedule now o w s).1.db
  unfolding fire_loaded
  fire_loaded-NotDue none s h = advance-NotDue s h
  fire_loaded-NotDue (some workflow) s h =
      let advance = advance_next_fire schedule.workflow_name schedule.cron_expression now in
      let rest = λ (run : WorkflowRun).
        execute_query (set_last_run schedule.workflow_name run.id) >>= λ _. advance in
      let run_it = run_workflow x none workflow schedule.workflow_file_path none in
      let (run, _, h1, same1) = >>=-eq-ok run_it rest w s h in
      let link = execute_query (set_last_run schedule.workflow_name run.id) in
      let s1 = (run_it w s).1 in
      let (_, _, h2, same2) = >>=-eq-ok link (λ _. advance) w s1 h1 in
      subst (NotDue now schedule.workflow_name) (sym (ap (λ p. p.1.db) (same1 ∙ same2)))
        (advance-NotDue (link w s1).1 h2)

  -- A fire that returned left no row of its schedule due at the moment of the tick.
  pub fire_one_returned :
      (s : System)
      → (fire_one x schedule now w s).0 ≡ ok tt
      → NotDue now schedule.workflow_name (fire_one x schedule now w s).1.db
  unfolding fire_one
  fire_one_returned s h =
      let load =
        try_load
          (import_workflow_from_file schedule.workflow_file_path >>= λ workflow.
            pure (some workflow))
          (λ e. pure none) in
      let (o, _, h1, same) = >>=-eq-ok load (λ o. fire_loaded x schedule now o) w s h in
      subst (NotDue now schedule.workflow_name) (sym (ap (λ p. p.1.db) same))
        (fire_loaded-NotDue o (load w s).1 h1)
