-- ===== src/Api/Described.antt =====
-- The answers of the endpoint `/run` of src/api/app.py.
use the_brain.System.Keeps.{Keeps-Quiet, Keeps-try_load}
use the_brain.Cli.Commands.{import_workflow-Quiet}
use the_brain.Workflow.Loader.{import_workflow_from_file}
use the_brain.Cli.Run.Success.{caught-inr, imported_unique, IsValidated}
use the_brain.System.Quiet.{Quiet-bind, Quiet, Quiet-pure}
use the_brain.Runner.Run.Record.{run_workflow-Recorded}
use the_brain.Messages.{load_error, other_exception, is_exception}
use the_brain.Database.{Database}
use the_brain.Prelude.Int.{difference}
use the_brain.Text.{Text}
use the_brain.Workflow.Models.{step_names_unique, Workflow}
use the_brain.Runner.Run.{started_run, run_workflow, Executor}
use the_brain.Runner.Models.{TriggerContext, WorkflowRun}
use the_brain.Prelude.{
  ◌≢◌, ◌⊎◌, subst, ◌∙◌, ap, sym, Bool-cases, ℕ, true, ◌++◌, Option, ◌≡◌, [], none, some, inl, inr,
  refl, ◌∷◌,
}
use the_brain.System.{
  >>=-eq-ok, catch_load, pure, continue, or_raise, ok-injective, Result, System, World, ok, raise,
  ◌>>=◌,
}
use the_brain.Api.{
  answer_loaded, not_loaded, run_authorized, require_token, load, Credentials, run_endpoint,
  run_response, tried, respond_or, runner_error, Response, run_and_respond, RunResponse, respond,
  answered, rejected, Auth,
}

-- What an answer says of a run.
abbrev pub Describes : WorkflowRun → RunResponse → Type 0
Describes run r =
    (r.run_id ≡ run.id)
    × (r.status ≡ run.status)
    × (r.started_at ≡ run.started_at)
    × (some r.ended_at ≡ run.ended_at)
    × (r.duration ≡ difference r.ended_at run.started_at)
    × (r.error ≡ run.error)

answered-injective : {a b : RunResponse} → answered a ≡ answered b → a ≡ b
answered-injective h = cc

describes :
    (run : WorkflowRun) (o : Option ℕ) (w : World) (s : System) (r : RunResponse)
    → run.ended_at ≡ o
    → ((or_raise o other_exception >>= λ ended. pure (answered (run_response run ended))) w s).0
      ≡ ok (answered r)
    → Describes run r
describes run none w s r e h = cc
describes run (some t) w s r e h =
    let same = answered-injective (ok-injective h) in
    (
      sym (ap (λ (a : RunResponse). a.run_id) same),
      sym (ap (λ (a : RunResponse). a.status) same),
      sym (ap (λ (a : RunResponse). a.started_at) same),
      sym (e ∙ ap (λ (a : RunResponse). some a.ended_at) same),
      subst (λ (a : RunResponse). a.duration ≡ difference a.ended_at run.started_at) same refl,
      sym (ap (λ (a : RunResponse). a.error) same),
    )

respond-db :
    (run : WorkflowRun) (o : Option ℕ) (w : World) (s : System)
    → ((or_raise o other_exception >>= λ ended. pure (answered (run_response run ended))) w s).1 ≡ s
respond-db run none w s = refl
respond-db run (some t) w s = refl

-- The end of the handlers, on what the runner came to.
tried-Describes :
    (r : Result WorkflowRun) (w : World) (s : System) (a : RunResponse)
    → ((tried (λ w t. (r, s)) >>= respond_or) w s).0 ≡ ok (answered a)
    → (run : WorkflowRun) × (r ≡ ok run)
      × Describes run a
      × (((tried (λ w t. (r, s)) >>= respond_or) w s).1 ≡ s)
unfolding respond_or respond
tried-Describes (ok run) w s a h =
    (run, refl, describes run run.ended_at w s a refl h, respond-db run run.ended_at w s)
tried-Describes (raise e) w s a h = elim (Bool-cases (is_exception e)) [
  | inl caught ↦ absurd (
      let h' = rw caught at h in
      let bad : rejected 500 (runner_error e) ≡ answered a = ok-injective h' in cc)
  | inr other ↦ absurd (let h' = rw other at h in cc)
]

not_answered :
    (o : Result Workflow) (w : World) (s t : System) (response : Response) (r : RunResponse)
    → (catch_load
        (continue o (λ v. pure (inr v)) w s).0
        (λ e. pure (inl (rejected 400 (not_loaded e))))
        w
        t).0
      ≡ ok (inl response)
    → response ≢ answered r
not_answered (ok v) w s t response r h =
    λ k. let bad : inr v ≡ inl response = ok-injective h in absurd cc
not_answered (raise (load_error e)) w s t response r h =
    λ k. let same : inl (rejected 400 (not_loaded e)) ≡ inl response = ok-injective h in absurd cc
not_answered (raise e) w s t response r h = λ k. cc

module _ (x : Executor) (w : World) where
  -- The row of the run of a workflow is the one new row of the tables.
  abbrev pub Appended : Workflow → RunResponse → Database → Database → Type 0
  Appended workflow r before after =
      (run : WorkflowRun) × Describes run r
      × (run.workflow_name ≡ workflow.name)
      × (after ≡ record before { runs = before.runs ++ run ∷ [] })

  run_and_respond-Appended :
      (workflow : Workflow) (path : Text) (trigger : Option TriggerContext) (s : System)
      (r : RunResponse)
      → step_names_unique workflow.steps ≡ true
      → (run_and_respond x workflow path trigger w s).0 ≡ ok (answered r)
      → Appended workflow r s.db (run_and_respond x workflow path trigger w s).1.db
  unfolding run_and_respond started_run
  run_and_respond-Appended workflow path trigger s r unique h =
      let recorded =
        run_workflow-Recorded x none (λ r. Quiet-pure tt) workflow path trigger unique w s in
      let (o, t) = run_workflow x none workflow path trigger w s in
      let (run, returned, described, same) = tried-Describes o w t r h in
      let record_of = recorded run returned in
      (
        run,
        described,
        ap (λ (q : WorkflowRun). q.workflow_name) record_of.start.3,
        ap (λ (u : System). u.db) same ∙ record_of.row,
      )

  load-db : (path : Text) (s : System) → (load x path w s).1.db ≡ s.db
  unfolding load
  load-db path s =
      let quiet : Quiet (import_workflow_from_file path >>= λ v. pure (inr v)) =
        Quiet-bind (import_workflow_from_file path) (λ v. pure (inr v)) (import_workflow-Quiet path)
          λ v. Quiet-pure (inr v) in
      let P = λ (d : Database). d ≡ s.db in
      (Keeps-try_load P (import_workflow_from_file path >>= λ v. pure (inr v))
          (λ e. inl (rejected 400 (not_loaded e)))
          (Keeps-Quiet P (import_workflow_from_file path >>= λ v. pure (inr v)) quiet)).at
        w s refl

  load_unique :
      (path : Text) (s : System) (workflow : Workflow)
      → IsValidated w
      → (load x path w s).0 ≡ ok (inr workflow)
      → step_names_unique workflow.steps ≡ true
  unfolding load
  load_unique path s workflow valid h =
      let imported = imported_unique path w s workflow valid in
      let (r, t) = import_workflow_from_file path w s in
      imported (
        caught-inr (λ e. rejected 400 (not_loaded e)) r w t (continue r (λ v. pure (inr v)) w t).1
          workflow h)

  load_refused :
      (path : Text) (s : System) (r : RunResponse) (response : Response)
      → (load x path w s).0 ≡ ok (inl response)
      → response ≢ answered r
  unfolding load
  load_refused path s r response h =
      let (o, t) = import_workflow_from_file path w s in
      not_answered o w t (continue o (λ v. pure (inr v)) w t).1 response r h

  -- A file that is not loaded is answered by a rejection.
  answer_loaded-Appended :
      (o : Response ⊎ Workflow) (path : Text) (s : System) (r : RunResponse)
      → ((workflow : Workflow) → o ≡ inr workflow → step_names_unique workflow.steps ≡ true)
      → ((response : Response) → o ≡ inl response → response ≢ answered r)
      → (answer_loaded x o path w s).0 ≡ ok (answered r)
      → (workflow : Workflow) × Appended workflow r s.db (answer_loaded x o path w s).1.db
  unfolding answer_loaded
  answer_loaded-Appended (inl response) path s r unique no_answer h =
      absurd (no_answer response refl (ok-injective h))
  answer_loaded-Appended (inr workflow) path s r unique no_answer h =
      (workflow, run_and_respond-Appended workflow path none s r (unique workflow refl) h)

  run_authorized-Appended :
      (a : Auth) (path : Text) (s : System) (r : RunResponse)
      → IsValidated w
      → (run_authorized x a path w s).0 ≡ ok (answered r)
      → (workflow : Workflow) × Appended workflow r s.db (run_authorized x a path w s).1.db
  unfolding run_authorized
  run_authorized-Appended Auth.type_error path s r valid h = cc
  run_authorized-Appended (Auth.unauthorized detail) path s r valid h =
      absurd (let bad : rejected 401 detail ≡ answered r = ok-injective h in cc)
  run_authorized-Appended Auth.accepted path s r valid h =
      let (o, came, h1, same) = >>=-eq-ok (load x path) (λ o. answer_loaded x o path) w s h in
      let (workflow, (run, described, named, row)) =
        answer_loaded-Appended o path (load x path w s).1 r
          (λ workflow is. load_unique path s workflow valid (came ∙ ap ok is))
          (λ response is. load_refused path s r response (came ∙ ap ok is)) h1 in
      (workflow, (run, described, named, rw same (rw (load-db path s) at row)))

  -- Where the workflow of a file has step names that differ, a request to `/run` that is answered has
  -- appended one row to `workflow_runs` and changed nothing else in the tables; the answer has the row's
  -- id, status, start, end and error, and as duration the time between them.
  pub run_endpoint-Appended :
      (expected : Text) (credentials : Option Credentials) (path : Text) (s : System)
      (r : RunResponse)
      → IsValidated w
      → (run_endpoint x expected credentials path w s).0 ≡ ok (answered r)
      → (workflow : Workflow) × Appended workflow r s.db
          (run_endpoint x expected credentials path w s).1.db
  unfolding run_endpoint
  run_endpoint-Appended expected credentials path s r valid h =
      run_authorized-Appended (require_token expected credentials) path s r valid h
