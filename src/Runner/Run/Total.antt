-- ===== src/Runner/Run/Total.antt =====
-- When `run_workflow` of src/runner/runner.py comes to its end.
use the_brain.System.Quiet.{Quiet}
use the_brain.Workflow.Models.{step_name, Step, Workflow}
use the_brain.Runner.Resolve.{resolve_step}
use the_brain.Runner.Placeholder.{Attempt, value}
use the_brain.Runner.Models.{StepResult, TriggerContext, success, failure, WorkflowRun}
use the_brain.Dict.{Dict, insert}
use the_brain.Database.{Database}
use the_brain.Text.{text_eq}
use the_brain.Runner.Run.Steps.{lookup_previous_run-Quiet}
use the_brain.Messages.{unexpected, unresolved, base_exception}
use the_brain.Runner.Run.{
  previous_of, entry, halted, Outcome, error, execute_resolved, run_steps, run_step, started_run,
  lookup_previous_run, Text, run_workflow, complete, notify, Callback, Executor,
}
use the_brain.Prelude.{
  subst, sym, nat_eq, map, [], ◌∷◌, none, ◌==◌, List, any, ◌≡◌, ◌≢◌, refl, false, Option, ℕ, suc,
}
use the_brain.System.Returns.{
  Returns-if, Returns, IsCalm, >>=-Returns, try_except-Returns, fetch-Returns,
}
use the_brain.Database.Runs.{finish_run, insert_run, last_success, finished}
use the_brain.System.{execute_query, fetch, World, System, raise}

-- The executors raise no BaseException.
abbrev pub IsTame : Executor → World → Type 0
IsTame x w = (step : Step) (s : System) → (x.execute step w s).0 ≢ raise base_exception

module _ (x : Executor) (call : Callback) (leaves_tables : (r : StepResult) → Quiet (notify call r))
    (w : World) (calm : IsCalm w) (tame : IsTame x w)
    (heard : (r : StepResult) (s : System) → Returns (notify call r) w s) where
  module _ (previous : Option (Dict Text Text)) (trigger : Option TriggerContext) where
    execute_resolved-Returns :
        (name : Text) (a : Attempt Step) (s : System)
        → Returns (execute_resolved x call previous trigger name a) w s
    unfolding execute_resolved
    execute_resolved-Returns name (error e) s = (failure name (unresolved e), refl)
    execute_resolved-Returns name (value step) s =
        try_except-Returns (x.execute step) (λ e. failure name (unexpected e)) w s (tame step s)

    run_step-Returns :
        (results : Dict Text StepResult) (step : Step) (s : System)
        → Returns (run_step x call previous trigger results step) w s
    unfolding run_step
    run_step-Returns results step s =
        execute_resolved-Returns (step_name step) (resolve_step w results previous trigger step) s

    run_steps-Returns :
        (steps : List Step) (results : Dict Text StepResult) (s : System)
        → Returns (run_steps x call previous trigger results steps) w s
    unfolding run_steps
    run_steps-Returns [] results s =
        (record { results = results; status = success; error = none }, refl)
    run_steps-Returns (step ∷ steps) results s =
        >>=-Returns (run_step x call previous trigger results step) _ w s
          (run_step-Returns results step s)
          λ r _. >>=-Returns (notify call r) _ w _ (heard r _) λ _ _.
            Returns-if r.success _ _ (run_steps-Returns steps (insert (step_name step) r results) _)
              (halted x call previous trigger step r (insert (step_name step) r results), refl)

  lookup_previous_run-Returns : (name : Text) (s : System) → Returns (lookup_previous_run name) w s
  unfolding lookup_previous_run
  lookup_previous_run-Returns name s =
      >>=-Returns (fetch (last_success name)) _ w s (fetch-Returns (last_success name) w s calm)
        λ row _. (previous_of row, refl)

  insert_run-Returns :
      (row : WorkflowRun) (s : System)
      → any (λ r. r.id == row.id) s.db.runs ≡ false
      → Returns (execute_query (insert_run row)) w s
  unfolding execute_query insert_run
  insert_run-Returns row s fresh = (1, rw (calm s.calls, fresh))

  complete-Returns :
      (row : WorkflowRun) (out : Outcome) (s : System) → Returns (complete row out) w s
  unfolding complete execute_query finish_run
  complete-Returns row out s = (
    finished (w.now s.calls) out.status (map entry out.results) out.error row,
    rw (calm (suc s.calls)),
  )

  -- Where no statement fails, no executor raises a BaseException, the callback raises nothing and the
  -- new id is not in use, `run_workflow` returns a run: also where a placeholder has no value, and
  -- where an executor raises an Exception.
  pub run_workflow-Returns :
      (workflow : Workflow) (file_path : Text) (trigger : Option TriggerContext) (s : System)
      → any (λ r. r.id == w.uuid4 s.calls) s.db.runs ≡ false
      → Returns (run_workflow x call workflow file_path trigger) w s
  unfolding run_workflow started_run
  run_workflow-Returns workflow file_path trigger s fresh =
      let s2 : System = record s { calls = suc (suc s.calls) } in
      let s3 = (lookup_previous_run workflow.name w s2).1 in
      let row = λ (previous : Option ℕ).
        started_run workflow file_path trigger (w.uuid4 s.calls) (w.now (suc s.calls)) previous in
      let untouched = (lookup_previous_run-Quiet workflow.name).at w s2 in
      let unused : any (λ r. r.id == w.uuid4 s.calls) s3.db.runs ≡ false =
        subst (λ (d : Database). any (λ r. r.id == w.uuid4 s.calls) d.runs ≡ false) (sym untouched)
          fresh in
      >>=-Returns (lookup_previous_run workflow.name) _ w s2
        (lookup_previous_run-Returns workflow.name s2)
        λ previous _.
          let insert = execute_query (insert_run (row previous.0)) in
          let steps = run_steps x call previous.1 trigger [] workflow.steps in
          let s4 = (insert w s3).1 in
          >>=-Returns insert _ w s3 (insert_run-Returns (row previous.0) s3 unused) λ _ _.
            >>=-Returns steps _ w s4 (run_steps-Returns previous.1 trigger workflow.steps [] s4)
              λ out _. complete-Returns (row previous.0) out _
