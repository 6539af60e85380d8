-- ===== src/Runner/Run/Steps.antt =====
-- The loop over the steps: what it leaves in the results, whatever the executors answer.
use the_brain.Prelude.{
  ◌≡◌, sym, ap, true, false, Option, none, some, List, [], ◌∷◌, ◌++◌, append-nil, append_assoc, ◌∙◌,
  subst, arith, inl, inr, Bool-cases, any, All-append, ◌==◌, if◌then◌else◌,
}
use the_brain.Text.{Text, text_eq}
use the_brain.Dict.{Dict, insert, Absent, insert-Absent}
use the_brain.Workflow.Models.{Step, step_name, names_unique_from}
use the_brain.System.{World, System, >>=-eq-ok, Exec, ok, ok-injective, pure, ◌>>◌}
use the_brain.System.Quiet.{quiet_rules, Quiet, Quiet-pure, Quiet-try_except, Quiet-bind, Quiet-if}
use the_brain.Runner.Models.{
  StepResult, Status, success, failed, RunError, step_failed, TriggerContext,
}
use the_brain.Runner.Placeholder.{Attempt, value, error}
use the_brain.Runner.Resolve.{resolve_step}
use the_brain.Runner.Run.{
  lookup_previous_run, Executor, Callback, Outcome, run_step, run_steps, notify, execute_resolved,
  halted,
}

module _ (x : Executor) (call : Callback) (loud : (r : StepResult) → Quiet (notify call r))
    (previous : Option (Dict Text Text)) (trigger : Option TriggerContext) where
  execute_resolved-Quiet :
      (name : Text) (a : Attempt Step) → Quiet (execute_resolved x call previous trigger name a)
  unfolding execute_resolved
  execute_resolved-Quiet name (error e) = Quiet-pure _
  execute_resolved-Quiet name (value step) =
      Quiet-try_except (x.execute step) _ (x.quiet step) (λ e. Quiet-pure _)

  run_step-Quiet :
      (results : Dict Text StepResult) (step : Step)
      → Quiet (run_step x call previous trigger results step)
  unfolding run_step
  run_step-Quiet results step = record {
    at = λ w.
        (execute_resolved-Quiet (step_name step) (resolve_step w results previous trigger step)).at
          w;
  }

  -- The steps, whatever they answer, leave the database alone.
  pub run_steps-Quiet :
      (results : Dict Text StepResult) (steps : List Step)
      → Quiet (run_steps x call previous trigger results steps)
  unfolding run_steps
  run_steps-Quiet results [] = Quiet-pure _
  run_steps-Quiet results (step ∷ steps) =
      Quiet-bind (run_step x call previous trigger results step) _ (run_step-Quiet results step)
        λ result. Quiet-bind (notify call result) _ (loud result) λ _.
          Quiet-if result.success _ _
            (run_steps-Quiet (insert (step_name step) result results) steps) (Quiet-pure _)

pub lookup_previous_run-Quiet : (name : Text) → Quiet (lookup_previous_run name)
unfolding lookup_previous_run
lookup_previous_run-Quiet name = search quiet_rules

-- What the results of a list of steps are: one for each step up to the first that is no success, in
-- order and under the step's name. The status is that of the run, and the error names that step.
pub data Ran : List Step → Dict Text StepResult → Status → Option RunError → Type 0 where
  all : Ran [] [] success none
  halt :
      (step : Step) (steps : List Step) (r : StepResult)
      → r.success ≡ false
      → Ran
          (step ∷ steps)
          ((step_name step, r) ∷ [])
          failed
          (some (step_failed (step_name step) r.error))
  next :
      (step : Step) {steps : List Step} (r : StepResult) {rs : Dict Text StepResult}
      {status : Status} {error : Option RunError}
      → r.success ≡ true
      → Ran steps rs status error
      → Ran (step ∷ steps) ((step_name step, r) ∷ rs) status error

-- A name that was not seen has no result.
abbrev Covers : List Text → Dict Text StepResult → Type 0
Covers seen results = (n : Text) → any (λ m. m == n) seen ≡ false → Absent n results

Covers-insert :
    (seen : List Text) (results : Dict Text StepResult) (name : Text) (r : StepResult)
    → Covers seen results
    → Covers (name ∷ seen) (results ++ (name, r) ∷ [])
unfolding any
Covers-insert seen results name r h n k =
    All-append (λ x. (x.0 == n) ≡ false) results ((name, r) ∷ []) (h n (ground arith))
      (ground arith, tt)

names_unique_step :
    (seen : List Text) (step : Step) (steps : List Step)
    → names_unique_from seen (step ∷ steps) ≡ true
    → (any (λ n. n == step_name step) seen ≡ false)
      × (names_unique_from (step_name step ∷ seen) steps ≡ true)
unfolding names_unique_from
names_unique_step seen step steps h = ground arith

module _ (x : Executor) (call : Callback) (previous : Option (Dict Text Text))
    (trigger : Option TriggerContext) where
  abbrev Goal : Dict Text StepResult → List Step → Outcome → Type 0
  Goal results steps out =
      (rs : Dict Text StepResult) × (out.results ≡ results ++ rs)
      × Ran steps rs out.status out.error

  -- What is left of a round behind the step.
  abbrev rest_of_round : Dict Text StepResult → Step → List Step → StepResult → Exec Outcome
  rest_of_round results step steps result =
      let seen = insert (step_name step) result results in
      if result.success
      then run_steps x call previous trigger seen steps
      else pure (halted x call previous trigger step result seen)

  Goal-halted :
      (results : Dict Text StepResult) (step : Step) (steps : List Step) (r : StepResult)
      → Absent (step_name step) results
      → r.success ≡ false
      → Goal results
          (step ∷ steps)
          (halted x call previous trigger step r (insert (step_name step) r results))
  unfolding halted
  Goal-halted results step steps r absent bad = (
    (step_name step, r) ∷ [],
    insert-Absent (step_name step) r results absent,
    halt step steps r bad,
  )

  Goal-next :
      (results : Dict Text StepResult) (step : Step) (steps : List Step) (r : StepResult)
      (out : Outcome)
      → Absent (step_name step) results
      → r.success ≡ true
      → Goal (insert (step_name step) r results) steps out
      → Goal results (step ∷ steps) out
  Goal-next results step steps r out absent good (rs, e, ran) = (
    (step_name step, r) ∷ rs,
    e
        ∙ ap (λ d. d ++ rs) (insert-Absent (step_name step) r results absent)
        ∙ append_assoc results ((step_name step, r) ∷ []) rs,
    next step r good ran,
  )

  -- Whatever the executors and the callback answer: a loop over steps with names of their own that
  -- returns has appended the results of a run of these steps, and nothing else.
  pub run_steps-Ran :
      (steps : List Step) (results : Dict Text StepResult) (seen : List Text) (w : World)
      (s : System) (out : Outcome)
      → Covers seen results
      → names_unique_from seen steps ≡ true
      → (run_steps x call previous trigger results steps w s).0 ≡ ok out
      → Goal results steps out
  unfolding run_steps
  run_steps-Ran [] results seen w s out c u h =
      subst (Goal results []) (ok-injective h) ([], sym (append-nil results), all)
  run_steps-Ran (step ∷ steps) results seen w s out c u h =
      let (r, ran, h', _) =
        >>=-eq-ok (run_step x call previous trigger results step)
          (λ r. notify call r >> rest_of_round results step steps r) w s h in
      let s' = (run_step x call previous trigger results step w s).1 in
      let (_, told, h'', _) =
        >>=-eq-ok (notify call r) (λ _. rest_of_round results step steps r) w s' h' in
      let s'' = (notify call r w s').1 in
      let (new, u') = names_unique_step seen step steps u in
      let absent = c (step_name step) new in
      elim (Bool-cases r.success) [
        | inl good ↦ Goal-next results step steps r out absent good (
            run_steps-Ran steps (insert (step_name step) r results) (step_name step ∷ seen) w s''
              out
              (rw (insert-Absent (step_name step) r results absent)
                (Covers-insert seen results (step_name step) r c))
              u' (rw good at h''))
        | inr bad ↦
            subst (Goal results (step ∷ steps)) (ok-injective (rw bad at h''))
              (Goal-halted results step steps r absent bad)
      ]
