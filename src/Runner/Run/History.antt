-- ===== src/Runner/Run/History.antt =====
-- What a run of src/runner/runner.py makes of the state of the process, as far as its executors decide.
use the_brain.Workflow.Models.{step_name, Workflow, Step}
use the_brain.Dict.{Dict, insert}
use the_brain.Runner.Resolve.{resolve_step}
use the_brain.Runner.Models.{TriggerContext, StepResult, WorkflowRun}
use the_brain.Database.Runs.{last_success, finish_run, insert_run, finished}
use the_brain.Text.{text_eq}
use the_brain.Prelude.{map, suc, ℕ, List, [], ◌∷◌, Option}
use the_brain.System.{pure, ◌>>=◌, fetch, execute_query, World, System}
use the_brain.System.Relates.{
  IsHistory, Relates, Relates-pure, Relates-bind, Relates-if, Relates-fetch, Relates-execute_query,
  Relates-try_except,
}
use the_brain.Runner.Run.{
  Callback, entry, previous_of, Outcome, started_run, halted, Text, Executor, execute_resolved,
  run_step, run_steps, run_workflow, lookup_previous_run, complete, notify,
}
use the_brain.Runner.Placeholder.{Attempt, value, error}

module _ (R : System → System → Type 0) (laws : IsHistory R) (x : Executor) (call : Callback)
    (w : World) (executes : (step : Step) → Relates R w (x.execute step))
    (calls : (r : StepResult) → Relates R w (notify call r)) where
  execute_resolved-Relates :
      (previous : Option (Dict Text Text)) (trigger : Option TriggerContext) (name : Text)
      (a : Attempt Step)
      → Relates R w (execute_resolved x call previous trigger name a)
  unfolding execute_resolved
  execute_resolved-Relates previous trigger name (error e) = Relates-pure R laws w _
  execute_resolved-Relates previous trigger name (value step) =
      Relates-try_except R laws w (x.execute step) _ (executes step) (λ e. Relates-pure R laws w _)

  run_step-Relates :
      (previous : Option (Dict Text Text)) (trigger : Option TriggerContext)
      (results : Dict Text StepResult) (step : Step)
      → Relates R w (run_step x call previous trigger results step)
  unfolding run_step
  run_step-Relates previous trigger results step = record {
    at =
        (execute_resolved-Relates previous trigger (step_name step)
          (resolve_step w results previous trigger step)).at;
  }

  run_steps-Relates :
      (previous : Option (Dict Text Text)) (trigger : Option TriggerContext) (steps : List Step)
      (results : Dict Text StepResult)
      → Relates R w (run_steps x call previous trigger results steps)
  unfolding run_steps
  run_steps-Relates previous trigger [] results = Relates-pure R laws w _
  run_steps-Relates previous trigger (step ∷ steps) results =
      Relates-bind R laws w (run_step x call previous trigger results step) _
        (run_step-Relates previous trigger results step)
        λ r. Relates-bind R laws w (notify call r) _ (calls r) λ _.
          Relates-if R laws w r.success _ _
            (run_steps-Relates previous trigger steps (insert (step_name step) r results))
            (Relates-pure R laws w
              (halted x call previous trigger step r (insert (step_name step) r results)))

  lookup_previous_run-Relates : (name : Text) → Relates R w (lookup_previous_run name)
  unfolding lookup_previous_run
  lookup_previous_run-Relates name =
      Relates-bind R laws w (fetch (last_success name)) (λ row. pure (previous_of row))
        (Relates-fetch R laws w _) (λ row. Relates-pure R laws w (previous_of row))

  complete-Relates : (row : WorkflowRun) (out : Outcome) → Relates R w (complete row out)
  unfolding complete
  complete-Relates row out = record {
    at = λ s.
        let s1 : System = record s { calls = suc s.calls } in
        laws.go_on s s1 _ (laws.asked s s.db) (
          (Relates-bind R laws w
              (execute_query
                (finish_run row.id (w.now s.calls) out.status (map entry out.results) out.error))
              (λ _.
                pure (finished (w.now s.calls) out.status (map entry out.results) out.error row))
              (Relates-execute_query R laws w _) (λ _. Relates-pure R laws w _)).at
            s1);
  }

  pub run_workflow-Relates :
      (workflow : Workflow) (path : Text) (trigger : Option TriggerContext)
      → Relates R w (run_workflow x call workflow path trigger)
  unfolding run_workflow
  run_workflow-Relates workflow path trigger = record {
    at = λ s.
        let s1 : System = record s { calls = suc s.calls } in
        let s2 : System = record s { calls = suc (suc s.calls) } in
        let row = λ (previous : Option ℕ).
          started_run workflow path trigger (w.uuid4 s.calls) (w.now (suc s.calls)) previous in
        laws.go_on s s2 _ (laws.go_on s s1 s2 (laws.asked s s.db) (laws.asked s1 s.db)) (
          (Relates-bind R laws w (lookup_previous_run workflow.name)
              (λ previous. execute_query (insert_run (row previous.0)) >>= λ _.
                run_steps x call previous.1 trigger [] workflow.steps >>= λ out.
                complete (row previous.0) out)
              (lookup_previous_run-Relates workflow.name)
              (λ previous.
                Relates-bind R laws w (execute_query (insert_run (row previous.0)))
                  (λ _. run_steps x call previous.1 trigger [] workflow.steps >>= λ out.
                    complete (row previous.0) out)
                  (Relates-execute_query R laws w _)
                  (λ _.
                    Relates-bind R laws w (run_steps x call previous.1 trigger [] workflow.steps)
                      (λ out. complete (row previous.0) out)
                      (run_steps-Relates previous.1 trigger workflow.steps [])
                      (λ out. complete-Relates (row previous.0) out)))).at
            s2);
  }
