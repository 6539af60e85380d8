-- ===== src/Scheduler/Daemon/Fires.antt =====
-- `_fire_one` of src/scheduler/daemon.py from the workflow file to the next fire time.
use the_brain.Scheduler.Daemon.Advance.{fire_one_returned, NotDue}
use the_brain.Database.Schedules.{named, set_next_run, set_last_run}
use the_brain.Scheduler.Daemon.{
  set_next_fire, fire_loaded, advance_parsed, advance_next_fire, fire_one,
}
use the_brain.Workflow.Paths.{suffix}
use the_brain.Scheduler.Cron.{next_fire_after, valid, parse, CronExpression}
use the_brain.Messages.{
  runtime_error, no_loader, not_py, not_workflow, no_variable, load_error, exec_error, not_found,
  WorkflowLoadError,
}
use the_brain.Database.{Database, Schedule}
use the_brain.Runner.Run.Total.{run_workflow-Returns, IsTame}
use the_brain.System.Returns.{>>=-Returns, Returns, IsCalm}
use the_brain.Text.{text_eq, codes, Text}
use the_brain.Scheduler.Daemon.Survival.{IsContained}
use the_brain.Workflow.Models.{Workflow}
use the_brain.System.{
  or_raise, execute_query, pure, continue, ◌>>=◌, raise, try_load, catch_load, Exec, System, ok,
  Executed, Result, World,
}
use the_brain.Workflow.Loader.{import_resolved, import_workflow_from_file, loaded}
use the_brain.Runner.Run.{run_workflow, Executor}
use the_brain.Prelude.{
  refl, ◌∙◌, nat_eq, sym, count, ap, subst, suc, false, any, ◌==◌, some, ◌<◌, inl, inr, none, ◌≢◌,
  Option, ◌⊎◌, Bool-cases, ℕ, ◌≡◌,
}

-- Executing the file gave a workflow, or an error that the loader reports as such.
abbrev Ends : Result Workflow → Type 0
Ends r =
    ((workflow : Workflow) × (r ≡ ok workflow))
    ⊎ ((e : WorkflowLoadError) × (r ≡ raise (load_error e)))

loaded-Ends :
    (path : Text) (outcome : Executed) (w : World) (s : System)
    → outcome ≢ Executed.exited
    → Ends (loaded path outcome w s).0 × ((loaded path outcome w s).1 ≡ s)
unfolding loaded
loaded-Ends path Executed.raised w s h = (inr (exec_error path, refl), refl)
loaded-Ends path Executed.exited w s h = absurd (h refl)
loaded-Ends path Executed.no_attribute w s h = (inr (no_variable path, refl), refl)
loaded-Ends path Executed.other_object w s h = (inr (not_workflow path, refl), refl)
loaded-Ends path (Executed.defines workflow) w s h = (inl (workflow, refl), refl)

module _ (w : World) (contained : IsContained w) where
  import_resolved-Ends :
      (path : Text) (s : System)
      → Ends (import_resolved path w s).0 × ((import_resolved path w s).1.db ≡ s.db)
  unfolding import_resolved
  import_resolved-Ends path s = elim (Bool-cases (w.is_file s.calls path)) [
    | inr p ↦ rw p (inr (not_found path, refl), refl)
    | inl p ↦ elim (Bool-cases (suffix path == codes ".py")) [
      | inr q ↦ rw (p, q) (inr (not_py path, refl), refl)
      | inl q ↦ elim (Bool-cases (w.has_loader (suc s.calls) path)) [
        | inr o ↦ rw (p, q, o) (inr (no_loader path, refl), refl)
        | inl o ↦
            let outcome = w.exec_module (suc (suc s.calls)) path in
            let (ends, same) = loaded-Ends path outcome w _ (contained (suc (suc s.calls)) path) in
            rw (p, q, o) (ends, ap (λ t. t.db) same)
      ]
    ]
  ]

  -- What `_fire_one` makes of the workflow file.
  abbrev load : Text → Exec (Option Workflow)
  load path =
      try_load (import_workflow_from_file path >>= λ workflow. pure (some workflow))
        (λ e. pure none)

  Ends-returns :
      (r : Result Workflow) (s : System)
      → Ends r
      → (o : Option Workflow) × (catch_load
            (continue r (λ workflow. pure (some workflow)) w s).0
            (λ e. pure none)
            w
            (continue r (λ workflow. pure (some workflow)) w s).1
          ≡ (ok o, s))
  Ends-returns r s (inl (workflow, e)) = (some workflow, rw e)
  Ends-returns r s (inr (e, h)) = (none, rw h)

  resolved_returns :
      (o : Option Text) (s : System)
      → o ≢ none
      → let m =
          try_load
            ((or_raise o runtime_error >>= λ p. import_resolved p) >>= λ workflow.
              pure (some workflow))
            (λ e. pure none) in
        Returns m w s × ((m w s).1.db ≡ s.db)
  resolved_returns none s known = absurd (known refl)
  resolved_returns (some p) s known =
      let (r, s1) = import_resolved p w s in
      let (ends, same) = import_resolved-Ends p s in
      let (o, e) = Ends-returns (import_resolved p w s).0 (import_resolved p w s).1 ends in
      ((o, ap (λ p. p.0) e), ap (λ p. p.1.db) e ∙ same)

  load-Returns :
      (path : Text) (s : System)
      → w.resolve_path s.calls path ≢ none
      → Returns (load path) w s × ((load path w s).1.db ≡ s.db)
  unfolding import_workflow_from_file
  load-Returns path s known =
      resolved_returns (w.resolve_path s.calls path) (record s { calls = suc s.calls }) known

module _ (x : Executor) (w : World) (calm : IsCalm w) (tame : IsTame x w)
    (contained : IsContained w) (schedule : Schedule) (now : ℕ) (c : CronExpression)
    (parsed : parse w schedule.cron_expression ≡ valid c) (next : ℕ)
    (found : next_fire_after w c now ≡ some next) (later : now < next) where
  advance-Returns :
      (s : System)
      → Returns (advance_next_fire schedule.workflow_name schedule.cron_expression now) w s
  unfolding advance_next_fire advance_parsed set_next_fire execute_query set_next_run
  advance-Returns s = (tt, rw (parsed, found, calm s.calls))

  link-Returns :
      (id : ℕ) (s : System) → Returns (execute_query (set_last_run schedule.workflow_name id)) w s
  unfolding execute_query set_last_run
  link-Returns id s = (count (named schedule.workflow_name) s.db.schedules, rw (calm s.calls))

  fire_loaded-Returns :
      (o : Option Workflow) (s : System)
      → any (λ r. r.id == w.uuid4 s.calls) s.db.runs ≡ false
      → Returns (fire_loaded x schedule now o) w s
  unfolding fire_loaded
  fire_loaded-Returns none s fresh = advance-Returns s
  fire_loaded-Returns (some workflow) s fresh =
      >>=-Returns (run_workflow x none workflow schedule.workflow_file_path none) _ w s
        (run_workflow-Returns x none (λ r. record { at = λ w s. refl }) w calm tame
          (λ r s. (tt, refl)) workflow schedule.workflow_file_path none s fresh)
        λ run _.
          let s1 = (run_workflow x none workflow schedule.workflow_file_path none w s).1 in
          >>=-Returns (execute_query (set_last_run schedule.workflow_name run.id)) _ w s1
            (link-Returns run.id s1) λ _ _. advance-Returns _

  -- Where no statement fails, the file's path can be resolved, no executor and no workflow file raises
  -- a BaseException and the ids are new, a fire returns and leaves no row of its schedule due at the
  -- moment of the tick, however far behind the schedule was, if its expression is valid and croniter
  -- finds a next time, after that moment. So it fires once, also where the workflow file could not be loaded
  -- or a step of it fails.
  pub fire_one-NotDue :
      (s : System)
      → w.resolve_path s.calls schedule.workflow_file_path ≢ none
      → ((n : ℕ) → any (λ r. r.id == w.uuid4 n) s.db.runs ≡ false)
      → ((fire_one x schedule now w s).0 ≡ ok tt)
        × NotDue now schedule.workflow_name (fire_one x schedule now w s).1.db
  unfolding fire_one
  fire_one-NotDue s known fresh =
      let path = schedule.workflow_file_path in
      let (loads, same) = load-Returns w contained path s known in
      let s1 = (load w contained path w s).1 in
      let (u, returns) =
        >>=-Returns (load w contained path) (λ o. fire_loaded x schedule now o) w s loads
          λ o _. fire_loaded-Returns o s1 (
            subst (λ (d : Database). any (λ r. r.id == w.uuid4 s1.calls) d.runs ≡ false) (sym same)
              (fresh s1.calls)) in
      (returns, fire_one_returned x schedule now w c parsed next found later s returns)
