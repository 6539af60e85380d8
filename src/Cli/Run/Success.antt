-- ===== src/Cli/Run/Success.antt =====
-- The exit status of `_run` of src/cli.py.
use the_brain.Database.{Database}
use the_brain.Workflow.Paths.{suffix}
use the_brain.Prelude.{
  some, ◌==◌, Bool-cases, suc, refl, ◌≡◌, ap, ℕ, true, Option, none, List, [], ◌∷◌, ◌++◌, map, All,
  inl, inr, ◌⊎◌,
}
use the_brain.Text.{text_eq, codes, Text}
use the_brain.Dict.{Dict}
use the_brain.Messages.{load_error, runtime_error, WorkflowLoadError}
use the_brain.Workflow.Models.{Step, step_name, Workflow, step_names_unique}
use the_brain.Workflow.Loader.{import_resolved, import_workflow_from_file, loaded}
use the_brain.Runner.Models.{StepResult, WorkflowRun, success}
use the_brain.Runner.Run.{entry, Executor}
use the_brain.System.{
  raise, continue, or_raise, Result, raised, exited, no_attribute, other_object, World, System,
  Exec, Executed, defines, ok, pure, try_load, catch_load, ◌>>=◌, >>=-eq-ok, ok-injective,
}
use the_brain.Cli.Run.{RunEnd, run_ended}

-- A run of all steps: there is a successful result for each, under its name and in order.
abbrev pub AllSucceeded : List Step → Dict Text StepResult → Type 0
AllSucceeded steps results =
    (map (λ (e : Text × StepResult). e.0) results ≡ map step_name steps)
    × All (λ (e : Text × StepResult). e.1.success ≡ true) results

loaded-defines :
    (path : Text) (o : Executed) (w : World) (s : System) (workflow : Workflow)
    → (loaded path o w s).0 ≡ ok workflow
    → o ≡ defines workflow
unfolding loaded
loaded-defines path raised w s workflow h = cc
loaded-defines path exited w s workflow h = cc
loaded-defines path no_attribute w s workflow h = cc
loaded-defines path other_object w s workflow h = cc
loaded-defines path (defines v) w s workflow h = ap defines (ok-injective h)

resolved-defines :
    (path : Text) (w : World) (s : System) (workflow : Workflow)
    → (import_resolved path w s).0 ≡ ok workflow
    → w.exec_module (suc (suc s.calls)) path ≡ defines workflow
unfolding import_resolved
resolved-defines path w s workflow h = elim (Bool-cases (w.is_file s.calls path)) [
  | inr no_file ↦ absurd (let h' = rw no_file at h in cc)
  | inl file ↦ elim (Bool-cases (suffix path == codes ".py")) [
    | inr no_py ↦ absurd (let h' = rw (file, no_py) at h in cc)
    | inl py ↦ elim (Bool-cases (w.has_loader (suc s.calls) path)) [
      | inr missing ↦ absurd (let h' = rw (file, py, missing) at h in cc)
      | inl found ↦
          let h' = rw (file, py, found) at h in
          loaded-defines path (w.exec_module (suc (suc s.calls)) path) w _ workflow h'
    ]
  ]
]

-- The workflow of a file has step names that differ, as the validator of `Workflow` makes sure.
abbrev pub IsValidated : World → Type 0
IsValidated w =
    (n : ℕ) (path : Text) (workflow : Workflow)
    → w.exec_module n path ≡ defines workflow
    → step_names_unique workflow.steps ≡ true

-- The workflow that the file at a path, once resolved, defines.
abbrev pub DefinedBy : Text → World → System → Workflow → Type 0
DefinedBy path w s workflow =
    (p : Text) × (n : ℕ) × (w.resolve_path s.calls path ≡ some p)
    × (w.exec_module n p ≡ defines workflow)

resolved-some :
    (o : Option Text) (w : World) (s : System) (p : Text)
    → (or_raise o runtime_error w s).0 ≡ ok p
    → (o ≡ some p) × ((or_raise o runtime_error w s).1 ≡ s)
resolved-some none w s p h = cc
resolved-some (some q) w s p h = (ap some (ok-injective h), refl)

imported-DefinedBy :
    (path : Text) (w : World) (s : System) (workflow : Workflow)
    → (import_workflow_from_file path w s).0 ≡ ok workflow
    → DefinedBy path w s workflow
unfolding import_workflow_from_file
imported-DefinedBy path w s workflow h =
    let s1 : System = record s { calls = suc s.calls } in
    let (p, found, h1, same) =
      >>=-eq-ok (or_raise (w.resolve_path s.calls path) runtime_error) import_resolved w s1 h in
    let s2 = (or_raise (w.resolve_path s.calls path) runtime_error w s1).1 in
    (
      p,
      suc (suc s2.calls),
      (resolved-some (w.resolve_path s.calls path) w s1 p found).0,
      resolved-defines p w s2 workflow h1,
    )

pub imported_unique :
    (path : Text) (w : World) (s : System) (workflow : Workflow)
    → IsValidated w
    → (import_workflow_from_file path w s).0 ≡ ok workflow
    → step_names_unique workflow.steps ≡ true
imported_unique path w s workflow valid h =
    let (p, n, _, is) = imported-DefinedBy path w s workflow h in valid n p workflow is

-- A run of the workflow of a file in which every step succeeded; `after` are the tables behind it.
pub record Succeeded (path : Text) (w : World) (s : System) (out : RunEnd) (after : Database)
    : Type 0 where
  pub workflow : Workflow
  pub run : WorkflowRun
  pub results : Dict Text StepResult
  pub defined : DefinedBy path w s workflow
  pub ended : out ≡ run_ended run
  pub status : run.status ≡ success
  pub name : run.workflow_name ≡ workflow.name
  pub output : run.output ≡ some (map entry results)
  pub steps : AllSucceeded workflow.steps results
  pub row : after ≡ record s.db { runs = s.db.runs ++ run ∷ [] }

inr-injective :
    {E : Type 0} {v u : Workflow} {o p : E ⊎ Workflow} → o ≡ inr v → p ≡ inr u → o ≡ p → v ≡ u
inr-injective a b c = cc

abbrev Loaded : Type 0
Loaded = WorkflowLoadError ⊎ Workflow

abbrev as_loaded : Workflow → Exec Loaded
as_loaded workflow = pure (inr workflow)

abbrev as_error : WorkflowLoadError → Exec Loaded
as_error e = pure (inl e)

pub caught-inr :
    {E : Type 0} (f : WorkflowLoadError → E) (r : Result Workflow) (w : World) (s t : System)
    (workflow : Workflow)
    → (catch_load (continue r (λ v. pure (inr v)) w s).0 (λ e. pure (inl (f e))) w t).0
      ≡ ok (inr workflow)
    → r ≡ ok workflow
caught-inr f (ok v) w s t workflow h = ap ok (inr-injective refl refl (ok-injective h))
caught-inr f (raise (load_error e)) w s t workflow h =
    let bad : inl (f e) ≡ inr workflow = ok-injective h in absurd cc
caught-inr f (raise e) w s t workflow h = cc

module _ (x : Executor) (path : Text) (w : World) where
  load_workflow : Exec Loaded
  load_workflow = try_load (import_workflow_from_file path >>= as_loaded) as_error
