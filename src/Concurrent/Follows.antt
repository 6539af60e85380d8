-- ===== src/Concurrent/Follows.antt =====
-- What `run_workflow` of src/runner/runner.py does to the rows, as steps of the runs that overlap.
use the_brain.Runner.Run.Steps.{lookup_previous_run-Quiet, run_steps-Quiet}
use the_brain.Workflow.Models.{step_name, Step, Workflow}
use the_brain.Text.{text_eq, Text}
use the_brain.Dict.{insert, Dict}
use the_brain.System.Quiet.{Quiet}
use the_brain.Database.Runs.{insert_run, finish_run}
use the_brain.Messages.{unique_violation, database_error, Exn}
use the_brain.Runner.Run.{
  lookup_previous_run, started_run, run_workflow, halted, run_step, run_steps, notify, Callback,
  Executor, entry, Outcome, complete,
}
use the_brain.Database.{Database}
use the_brain.Prelude.{
  false, ◌∙◌, if◌then◌else◌, Bool, Option, map, Bool-cases, ◌≢◌, true, subst, ◌⊎◌, ◌≡◌, ◌∷◌, ℕ, any,
  List, [], none, some, inl, inr, refl, eq_refl, suc,
}
use the_brain.Concurrent.{
  Reach-trans, Shared, begins, ends, breaks_off, Reach, start, later, member, without,
}
use the_brain.System.{
  pure, committed, Exec, >>=-eq-ok, continue, execute_query, System, Result, World, ok, raise,
  ◌>>=◌,
}
use the_brain.Runner.Models.{TriggerContext, StepResult, WorkflowRun, running}

abbrev shared : Database → List ℕ → List ℕ → Shared
shared d flying lost = record { db = d; in_flight = flying; lost = lost }

-- The runs that are lost behind a call: where it returned none more, else one more at most.
abbrev Left : Result WorkflowRun → List ℕ → List ℕ → Type 0
Left (ok run) lost lost' = lost' ≡ lost
Left (raise e) lost lost' = (lost' ≡ lost) ⊎ ((id : ℕ) × (lost' ≡ id ∷ lost))

-- A call takes the rows from one state to another by steps, and leaves the runs in flight as they were.
abbrev pub Traced : List ℕ → List ℕ → List ℕ → Database → Result WorkflowRun × System → Type 0
Traced before after lost d (r, t) =
    (lost' : List ℕ) × Left r lost lost' × Reach (shared d before lost) (shared t.db after lost')

without_head : (id : ℕ) (ids : List ℕ) → without id (id ∷ ids) ≡ ids
unfolding without
without_head id ids = rw (eq_refl id)

member_head : (id : ℕ) (ids : List ℕ) → member id (id ∷ ids) ≡ true
unfolding any
member_head id ids = rw (eq_refl id)

-- The first call leaves the rows alone.
Traced-quiet :
    (before after lost : List ℕ) (d : Database) (s : System) (p : Result WorkflowRun × System)
    → s.db ≡ d
    → Traced before after lost s.db p
    → Traced before after lost d p
Traced-quiet before after lost d s p same h = subst (λ e. Traced before after lost e p) same h

module _ (w : World) (flying lost : List ℕ) where
  unchanged :
      (e : Exn) (d : Database) (s : System) → s.db ≡ d → Traced flying flying lost d (raise e, s)
  unchanged e d s same = (lost, inl refl, rw same start)

  gone :
      (id : ℕ) (e : Exn) (d : Database) (s : System)
      → s.db ≡ d
      → Traced (id ∷ flying) flying lost d (raise e, s)
  gone id e d s same = (
    id ∷ lost,
    inr (id, refl),
    rw same (
        subst (λ ids. Reach (shared d (id ∷ flying) lost) (shared d ids (id ∷ lost)))
          (without_head id flying) (later start (breaks_off id (member_head id flying)))),
  )

  complete-Traced :
      (row : WorkflowRun) (out : Outcome) (s : System)
      → out.status ≢ running
      → Traced (row.id ∷ flying) flying lost s.db (complete row out w s)
  unfolding complete execute_query finish_run
  complete-Traced row out s over = elim (Bool-cases (w.db_raises (suc s.calls))) [
    | inl fails ↦
        rw fails (gone row.id database_error s.db (record s { calls = suc (suc s.calls) }) refl)
    | inr works ↦ rw works (
      lost,
      refl,
      subst (λ ids. Reach (shared s.db (row.id ∷ flying) lost) (shared _ ids lost))
          (without_head row.id flying)
          (later start (
            ends row.id (w.now s.calls) out.status (map entry out.results) out.error _ _ over
              (member_head row.id flying) refl)),
    )
  ]

branch_over :
    (b : Bool) (m n : Exec Outcome) (w : World) (s : System) (out : Outcome)
    → ((m w s).0 ≡ ok out → out.status ≢ running)
    → ((n w s).0 ≡ ok out → out.status ≢ running)
    → ((if b then m else n) w s).0 ≡ ok out
    → out.status ≢ running
branch_over true m n w s out h k = h
branch_over false m n w s out h k = k

module _ (x : Executor) (call : Callback) (leaves_tables : (r : StepResult) → Quiet (notify call r))
    (w : World) where
  run_steps_over :
      (previous : Option (Dict Text Text)) (trigger : Option TriggerContext) (steps : List Step)
      (results : Dict Text StepResult) (s : System) (out : Outcome)
      → (run_steps x call previous trigger results steps w s).0 ≡ ok out
      → out.status ≢ running
  unfolding run_steps halted
  run_steps_over previous trigger [] results s out h = λ k. cc
  run_steps_over previous trigger (step ∷ steps) results s out h =
      let (r, _, h1, _) = >>=-eq-ok (run_step x call previous trigger results step) _ w s h in
      let s1 = (run_step x call previous trigger results step w s).1 in
      let (_, _, h3, _) = >>=-eq-ok (notify call r) _ w s1 h1 in
      let s2 = (notify call r w s1).1 in
      let seen = insert (step_name step) r results in
      branch_over r.success (run_steps x call previous trigger seen steps)
        (pure (halted x call previous trigger step r seen)) w s2 out
        (run_steps_over previous trigger steps seen s2 out) (λ k j. cc) h3

  module _ (flying lost : List ℕ) where
    continue-Traced :
        (row : WorkflowRun) (r : Result Outcome) (d : Database) (s : System)
        → s.db ≡ d
        → ((out : Outcome) → r ≡ ok out → out.status ≢ running)
        → Traced (row.id ∷ flying) flying lost d (continue r (λ out. complete row out) w s)
    continue-Traced row (ok out) d s same over =
        Traced-quiet (row.id ∷ flying) flying lost d s (complete row out w s) same
          (complete-Traced w flying lost row out s (over out refl))
    continue-Traced row (raise e) d s same over = gone w flying lost row.id e d s same

    module _ (row : WorkflowRun) (previous : Option (Dict Text Text))
        (trigger : Option TriggerContext) (workflow : Workflow) (fresh : row.status ≡ running) where
      abbrev after_insert : Exec WorkflowRun
      after_insert = run_steps x call previous trigger [] workflow.steps >>= λ out. complete row out

      after_insert-Traced :
          (d : Database) (s : System)
          → s.db ≡ d
          → Traced (row.id ∷ flying) flying lost d (after_insert w s)
      after_insert-Traced d s same =
          let steps = run_steps x call previous trigger [] workflow.steps in
          let quiet =
            (run_steps-Quiet x call leaves_tables previous trigger [] workflow.steps).at w s in
          let over = run_steps_over previous trigger workflow.steps [] s in
          let (r, s') = steps w s in continue-Traced row r d s' (quiet ∙ same) over

      committed-Traced :
          (o : Option (Database × ℕ)) (s : System)
          → insert_run row s.db ≡ o
          → Traced flying flying lost s.db (
              let (r, s') = committed (insert_run row) o (record s { calls = suc s.calls }) in
              continue r (λ _. after_insert) w s')
      committed-Traced none s h =
          unchanged w flying lost unique_violation s.db (record s { calls = suc s.calls }) refl
      committed-Traced (some (d, n)) s h =
          let s1 : System = record s { calls = suc s.calls; db = d } in
          let (lost', left, reach) = after_insert-Traced d s1 refl in
          (lost', left, Reach-trans (later start (begins row d n fresh h)) reach)

      insert_run-Traced :
          (s : System)
          → Traced flying flying lost s.db
              ((execute_query (insert_run row) >>= λ _. after_insert) w s)
      unfolding execute_query
      insert_run-Traced s = elim (Bool-cases (w.db_raises s.calls)) [
        | inl fails ↦
            rw fails
              (unchanged w flying lost database_error s.db (record s { calls = suc s.calls }) refl)
        | inr works ↦ rw works (committed-Traced (insert_run row s.db) s refl)
      ]

    looked_up :
        (workflow : Workflow) (file_path : Text) (trigger : Option TriggerContext) (id time : ℕ)
        (r : Result (Option ℕ × Option (Dict Text Text))) (d : Database) (s : System)
        → s.db ≡ d
        → Traced flying flying lost d (
            continue r
              (λ previous.
                execute_query
                  (insert_run (started_run workflow file_path trigger id time previous.0))
                >>= λ _. run_steps x call previous.1 trigger [] workflow.steps >>= λ out.
                    complete (started_run workflow file_path trigger id time previous.0) out)
              w
              s)
    unfolding started_run
    looked_up workflow file_path trigger id time (ok previous) d s same =
        let row = started_run workflow file_path trigger id time previous.0 in
        subst
          (λ e. Traced flying flying lost e (
            (execute_query (insert_run row) >>= λ _.
            run_steps x call previous.1 trigger [] workflow.steps >>= λ out. complete row out)
              w s))
          same (insert_run-Traced row previous.1 trigger workflow refl s)
    looked_up workflow file_path trigger id time (raise e) d s same =
        unchanged w flying lost e d s same

    -- Beside any runs in flight and any that are lost, a call of `run_workflow` whose callback leaves the
    -- tables alone takes the rows from their state before it to their state behind it by steps of
    -- overlapping runs, and leaves the other runs in flight as they were: where it returns, no run is
    -- lost, and where it raises, at most one.
    pub run_workflow-Traced :
        (workflow : Workflow) (file_path : Text) (trigger : Option TriggerContext) (s : System)
        → Traced flying flying lost s.db (run_workflow x call workflow file_path trigger w s)
    unfolding run_workflow
    run_workflow-Traced workflow file_path trigger s =
        let s2 : System = record s { calls = suc (suc s.calls) } in
        let quiet = (lookup_previous_run-Quiet workflow.name).at w s2 in
        let (r, s3) = lookup_previous_run workflow.name w s2 in
        looked_up workflow file_path trigger (w.uuid4 s.calls) (w.now (suc s.calls)) r s.db s3 quiet
