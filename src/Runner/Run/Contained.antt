-- ===== src/Runner/Run/Contained.antt =====
-- What a run may raise.
use the_brain.Workflow.Models.{step_name, Workflow, Step}
use the_brain.Dict.{Dict, insert}
use the_brain.Runner.Resolve.{resolve_step}
use the_brain.Runner.Models.{TriggerContext, StepResult, WorkflowRun}
use the_brain.Database.Runs.{last_success, finish_run, insert_run, finished}
use the_brain.Text.{text_eq}
use the_brain.Prelude.{map, suc, ℕ, List, [], ◌∷◌, Option, none}
use the_brain.System.{pure, ◌>>=◌, fetch, execute_query, World}
use the_brain.System.Tame.{
  Tame, Tame-pure, Tame-bind, Tame-if, Tame-fetch, Tame-execute_query, Tame-try_except,
}
use the_brain.Runner.Run.{
  entry, previous_of, Outcome, started_run, halted, Text, Executor, execute_resolved, run_step,
  run_steps, run_workflow, lookup_previous_run, complete, notify,
}
use the_brain.Runner.Run.Total.{IsTame}
use the_brain.Runner.Placeholder.{Attempt, value, error}

module _ (x : Executor) (w : World) (tame : IsTame x w) where
  execute_resolved-Tame :
      (previous : Option (Dict Text Text)) (trigger : Option TriggerContext) (name : Text)
      (a : Attempt Step)
      → Tame w (execute_resolved x none previous trigger name a)
  unfolding execute_resolved
  execute_resolved-Tame previous trigger name (error e) = Tame-pure w _
  execute_resolved-Tame previous trigger name (value step) =
      Tame-try_except w (x.execute step) _ (record { at = tame step }) (λ e. Tame-pure w _)

  run_step-Tame :
      (previous : Option (Dict Text Text)) (trigger : Option TriggerContext)
      (results : Dict Text StepResult) (step : Step)
      → Tame w (run_step x none previous trigger results step)
  unfolding run_step
  run_step-Tame previous trigger results step = record {
    at = λ s.
        (execute_resolved-Tame previous trigger (step_name step)
            (resolve_step w results previous trigger step)).at
          s;
  }

  run_steps-Tame :
      (previous : Option (Dict Text Text)) (trigger : Option TriggerContext) (steps : List Step)
      (results : Dict Text StepResult)
      → Tame w (run_steps x none previous trigger results steps)
  unfolding run_steps
  run_steps-Tame previous trigger [] results = Tame-pure w _
  run_steps-Tame previous trigger (step ∷ steps) results =
      Tame-bind w (run_step x none previous trigger results step) _
        (run_step-Tame previous trigger results step)
        λ r. Tame-bind w (notify none r) _ (Tame-pure w tt) λ _.
          Tame-if w r.success _ _
            (run_steps-Tame previous trigger steps (insert (step_name step) r results))
            (Tame-pure w
              (halted x none previous trigger step r (insert (step_name step) r results)))

  lookup_previous_run-Tame : (name : Text) → Tame w (lookup_previous_run name)
  unfolding lookup_previous_run
  lookup_previous_run-Tame name =
      Tame-bind w (fetch (last_success name)) (λ row. pure (previous_of row)) (Tame-fetch w _)
        (λ row. Tame-pure w (previous_of row))

  complete-Tame : (row : WorkflowRun) (out : Outcome) → Tame w (complete row out)
  unfolding complete
  complete-Tame row out = record {
    at = λ s.
        (Tame-bind w
            (execute_query
              (finish_run row.id (w.now s.calls) out.status (map entry out.results) out.error))
            (λ _. pure (finished (w.now s.calls) out.status (map entry out.results) out.error row))
            (Tame-execute_query w _) (λ _. Tame-pure w _)).at
          (record s { calls = suc s.calls });
  }

  -- Whatever fails, a run raises no BaseException of its own.
  pub run_workflow-Tame :
      (workflow : Workflow) (path : Text) (trigger : Option TriggerContext)
      → Tame w (run_workflow x none workflow path trigger)
  unfolding run_workflow
  run_workflow-Tame workflow path trigger = record {
    at = λ s.
        let row = λ (previous : Option ℕ).
          started_run workflow path trigger (w.uuid4 s.calls) (w.now (suc s.calls)) previous in
        (Tame-bind w (lookup_previous_run workflow.name)
            (λ previous. execute_query (insert_run (row previous.0)) >>= λ _.
              run_steps x none previous.1 trigger [] workflow.steps >>= λ out.
              complete (row previous.0) out)
            (lookup_previous_run-Tame workflow.name)
            (λ previous.
              Tame-bind w (execute_query (insert_run (row previous.0)))
                (λ _. run_steps x none previous.1 trigger [] workflow.steps >>= λ out.
                  complete (row previous.0) out)
                (Tame-execute_query w _)
                (λ _.
                  Tame-bind w (run_steps x none previous.1 trigger [] workflow.steps)
                    (λ out. complete (row previous.0) out)
                    (run_steps-Tame previous.1 trigger workflow.steps [])
                    (λ out. complete-Tame (row previous.0) out)))).at
          (record s { calls = suc (suc s.calls) });
  }
