-- ===== src/Runner/Run/Record.antt =====
-- The row that `run_workflow` leaves in `workflow_runs`.
use the_brain.Dict.{Dict}
use the_brain.System.Quiet.{Quiet}
use the_brain.Workflow.Models.{Workflow, step_names_unique}
use the_brain.Runner.Run.Steps.{lookup_previous_run-Quiet, run_steps-Ran, run_steps-Quiet, Ran}
use the_brain.Prelude.{
  refl, suc, ◌∙◌, eq_refl, sym, ap, subst, true, some, Option, ℕ, ◌≡◌, false, [], ◌∷◌, ◌++◌, map,
  arith, any, ◌==◌, nat_eq,
}
use the_brain.Database.Rows.{update_where_last, update_where}
use the_brain.Database.Runs.{insert_run, finish_run, finished}
use the_brain.Database.{Database}
use the_brain.System.{Exec, Result, >>=-eq-ok, ◌>>=◌, World, System, ok, execute_query}
use the_brain.Runner.Models.{TriggerContext, StepResult, WorkflowRun}
use the_brain.Runner.Run.{
  lookup_previous_run, run_workflow, run_steps, started_run, notify, Text, Callback, Executor,
  Outcome, entry, complete,
}

-- The database after an INSERT that returned.
insert_returned :
    (row : WorkflowRun) (w : World) (s : System) {n : ℕ}
    → (execute_query (insert_run row) w s).0 ≡ ok n
    → ((execute_query (insert_run row) w s).1.db ≡ record s.db { runs = s.db.runs ++ row ∷ [] })
      × (any (λ r. r.id == row.id) s.db.runs ≡ false)
unfolding execute_query insert_run
insert_returned row w s h = ground arith

complete_returned :
    (row : WorkflowRun) (out : Outcome) (w : World) (s : System) (run : WorkflowRun)
    → (complete row out w s).0 ≡ ok run
    → (ended : ℕ) × (run ≡ finished ended out.status (map entry out.results) out.error row)
      × ((complete row out w s).1.db ≡ record s.db {
        runs =
            update_where
              (λ r. r.id == row.id)
              (finished ended out.status (map entry out.results) out.error)
              s.db.runs;
      })
unfolding complete execute_query finish_run
complete_returned row out w s run h = (w.now s.calls, ground arith, ground arith)

-- What a run that returned has recorded.
pub record Recorded (workflow : Workflow) (file_path : Text) (trigger : Option TriggerContext)
    (before after : Database) (run : WorkflowRun) : Type 0 where
  pub results : Dict Text StepResult
  pub ran : Ran workflow.steps results run.status run.error
  pub output : run.output ≡ some (map entry results)
  pub ended : (t : ℕ) × (run.ended_at ≡ some t)
  pub start :
      (id started : ℕ) × (previous : Option ℕ) × (run
        ≡ record (started_run workflow file_path trigger id started previous) {
          ended_at = run.ended_at;
          status = run.status;
          output = run.output;
          error = run.error;
        })
  pub row : after ≡ record before { runs = before.runs ++ run ∷ [] }

-- The row that was inserted last is the one that is completed.
complete_db :
    (d d' : Database) (row : WorkflowRun) (f : WorkflowRun → WorkflowRun)
    → d' ≡ record d { runs = d.runs ++ row ∷ [] }
    → any (λ r. r.id == row.id) d.runs ≡ false
    → record d' { runs = update_where (λ r. r.id == row.id) f d'.runs }
      ≡ record d { runs = d.runs ++ f row ∷ [] }
complete_db d d' row f e fresh = rw e (
    ap (λ l. record d { runs = l })
      (update_where_last (λ r. r.id == row.id) f d.runs row fresh (eq_refl row.id)))

module _ (x : Executor) (call : Callback) (leaves_tables : (r : StepResult) → Quiet (notify call r))
    (workflow : Workflow) (file_path : Text) (trigger : Option TriggerContext)
    (unique : step_names_unique workflow.steps ≡ true) (w : World) where
  module _ (row : WorkflowRun) (previous : Option (Dict Text Text)) where
    abbrev after_insert : Exec WorkflowRun
    after_insert =
        run_steps x call previous trigger [] workflow.steps >>= λ outcome. complete row outcome

    insert_and_run :
        (s : System) (run : WorkflowRun)
        → row ≡ started_run workflow file_path trigger row.id row.started_at row.previous_run_id
        → ((execute_query (insert_run row) >>= λ _. after_insert) w s).0 ≡ ok run
        → Recorded workflow file_path trigger s.db
            ((execute_query (insert_run row) >>= λ _. after_insert) w s).1.db
            run
    unfolding finished
    insert_and_run s run start h =
        let (n, inserted, h1, same1) =
          >>=-eq-ok (execute_query (insert_run row)) (λ _. after_insert) w s h in
        let s1 = (execute_query (insert_run row) w s).1 in
        let (db1, fresh) = insert_returned row w s inserted in
        let steps = run_steps x call previous trigger [] workflow.steps in
        let (out, looped, h2, same2) = >>=-eq-ok steps (λ outcome. complete row outcome) w s1 h1 in
        let s2 = (steps w s1).1 in
        let db2 =
          (run_steps-Quiet x call leaves_tables previous trigger [] workflow.steps).at w s1 in
        let (ended, e, db3) = complete_returned row out w s2 run h2 in
        let f = finished ended out.status (map entry out.results) out.error in
        let (rs, results, ran) =
          run_steps-Ran x call previous trigger workflow.steps [] [] w s1 out (λ n h. tt)
            (unfold step_names_unique in unique) looped in
        let after : Database = ((execute_query (insert_run row) >>= λ _. after_insert) w s).1.db in
        subst (Recorded workflow file_path trigger s.db after) (sym e) (record {
          results = rs;
          ran = ran;
          output = ap (λ l. some (map entry l)) results;
          ended = (ended, refl);
          start = (
            row.id,
            row.started_at,
            row.previous_run_id,
            ap (λ (r : WorkflowRun). finished ended out.status (map entry out.results) out.error r)
                start,
          );
          row =
              ap (λ p. p.1.db) (same1 ∙ same2)
              ∙ db3
              ∙ complete_db s.db s2.db row f (db2 ∙ db1) fresh;
        })

  -- A run that returns has left one new row in `workflow_runs`, which is the run that it returns, and
  -- has changed nothing else in the database. The row has ended; its output has one entry for each step
  -- up to the first that failed, in order and under the step's name; its status and its error are those
  -- of these steps. This holds for every workflow whose step names differ, whatever the executors, the
  -- database and the surroundings answer, if the callback leaves the database alone.
  pub run_workflow-Recorded :
      (s : System) (run : WorkflowRun)
      → (run_workflow x call workflow file_path trigger w s).0 ≡ ok run
      → Recorded workflow file_path trigger s.db
          (run_workflow x call workflow file_path trigger w s).1.db
          run
  unfolding run_workflow
  run_workflow-Recorded s run h =
      let id = w.uuid4 s.calls in
      let started = w.now (suc s.calls) in
      let s2 : System = record s { calls = suc (suc s.calls) } in
      let row = λ (previous : Option ℕ × Option (Dict Text Text)).
        started_run workflow file_path trigger id started previous.0 in
      let rest = λ (previous : Option ℕ × Option (Dict Text Text)).
        execute_query (insert_run (row previous)) >>= λ _. after_insert (row previous) previous.1 in
      let (previous, found, h1, same) = >>=-eq-ok (lookup_previous_run workflow.name) rest w s2 h in
      let s3 = (lookup_previous_run workflow.name w s2).1 in
      let recorded = insert_and_run (row previous) previous.1 s3 run refl h1 in
      let untouched = (lookup_previous_run-Quiet workflow.name).at w s2 in
      subst
        (λ d.
          Recorded workflow file_path trigger d
            (run_workflow x call workflow file_path trigger w s).1.db run)
        untouched
        (subst
          (λ (p : Result WorkflowRun × System).
            Recorded workflow file_path trigger s3.db p.1.db run)
          (sym same) recorded)
