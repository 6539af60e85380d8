-- ===== src/Cli/Run/Released.antt =====
-- The connection pool of `_run` of src/cli.py.
use the_brain.Database.Pool.{pooled}
use the_brain.Runner.Run.History.{run_workflow-Relates}
use the_brain.Runner.Models.{WorkflowRun}
use the_brain.Cli.Run.{run_ended, show_step, run_loaded, run_file}
use the_brain.Messages.{WorkflowLoadError}
use the_brain.Database.Pool.Released.{SamePools-IsHistory, pooled-Released, SamePools}
use the_brain.Workflow.Models.{Workflow, Step}
use the_brain.System.Relates.{Relates-pure, Relates-bind, IsHistory, Relates-try_load, Relates}
use the_brain.Text.{Text}
use the_brain.Workflow.Loader.{loaded, import_resolved, import_workflow_from_file}
use the_brain.Runner.Run.{run_workflow, Executor}
use the_brain.Prelude.{
  Numbered-fresh, Numbered-mono, sym, subst, nat_eq, ap, ◌∙◌, Numbered, ◌≤◌, ◌==◌, any, ◌⊎◌, false,
  ◌≡◌, ℕ, arith, none, inl, inr, refl,
}
use the_brain.System.{continue, pure, try_load, Exec, Result, System, World, ok, raise, ◌>>=◌}

-- A call that leaves the pools alone and does not count calls back.
abbrev Onward : System → System → Type 0
Onward s t = (t.pool ≡ s.pool) × (t.open_pools ≡ s.open_pools) × (s.calls ≤ t.calls)

imported-Onward :
    (path : Text) (w : World) (s : System) → Onward s (import_workflow_from_file path w s).1
unfolding import_workflow_from_file import_resolved loaded
imported-Onward path w s = ground arith

Onward-IsHistory : IsHistory Onward
Onward-IsHistory = record {
  stay = λ s. (refl, refl, omega arith);
  go_on = λ s t u (a, b, c) (d, e, f). (d ∙ a, e ∙ b, omega arith);
  asked = λ s d. (refl, refl, omega arith);
}

abbrev try_import : Text → Exec (WorkflowLoadError ⊎ Workflow)
try_import path =
    try_load (import_workflow_from_file path >>= λ workflow. pure (inr workflow))
      (λ e. pure (inl e))

tried-Onward : (path : Text) (w : World) → Relates Onward w (try_import path)
tried-Onward path w =
    Relates-try_load Onward Onward-IsHistory w
      (import_workflow_from_file path >>= λ workflow. pure (inr workflow)) (λ e. pure (inl e))
      (Relates-bind Onward Onward-IsHistory w (import_workflow_from_file path)
        (λ workflow. pure (inr workflow)) (record { at = imported-Onward path w })
        (λ workflow. Relates-pure Onward Onward-IsHistory w (inr workflow)))
      (λ e. Relates-pure Onward Onward-IsHistory w (inl e))

ended-pools :
    (r : Result WorkflowRun) (w : World) (s : System)
    → (continue r (λ run. pure (run_ended run)) w s).1 ≡ s
ended-pools (ok run) w s = refl
ended-pools (raise e) w s = refl

module _ (x : Executor) (path : Text) (w : World)
    (keeps : (step : Step) → Relates SamePools w (x.execute step))
    (opens : (n : ℕ) → w.open_raises n ≡ false) (closes : (n : ℕ) → w.close_raises n ≡ false) where
  loaded-Released :
      (o : WorkflowLoadError ⊎ Workflow) (s : System)
      → s.pool ≡ none
      → any (λ q. q == s.calls) s.open_pools ≡ false
      → ((run_loaded x path o w s).1.pool ≡ none)
        × ((run_loaded x path o w s).1.open_pools ≡ s.open_pools)
  loaded-Released (inl e) s idle fresh = (idle, refl)
  loaded-Released (inr workflow) s idle fresh =
      let work = run_workflow x show_step workflow path none in
      let (_, _, none_left, rest) =
        pooled-Released work w s
          (run_workflow-Relates SamePools SamePools-IsHistory x show_step w keeps
            (λ r. Relates-pure SamePools SamePools-IsHistory w tt) workflow path none)
          opens closes idle fresh in
      let (r, t) = pooled work w s in
      let same = ended-pools r w t in
      (ap (λ (u : System). u.pool) same ∙ none_left, ap (λ (u : System). u.open_pools) same ∙ rest)

  tried-Released :
      (r : Result (WorkflowLoadError ⊎ Workflow)) (s : System)
      → s.pool ≡ none
      → any (λ q. q == s.calls) s.open_pools ≡ false
      → ((continue r (run_loaded x path) w s).1.pool ≡ none)
        × ((continue r (run_loaded x path) w s).1.open_pools ≡ s.open_pools)
  tried-Released (ok o) s idle fresh = loaded-Released o s idle fresh
  tried-Released (raise e) s idle fresh = (idle, refl)

  -- Where opening and closing a pool do not fail, the executors leave the pools alone, `_pool` is None
  -- and the numbers of the open pools are numbers of calls that were made, `brain run` closes the pool
  -- that it opens and leaves the others open, however it ends: with a run, with a file that is not
  -- loaded, or with an exception.
  pub run_file-Released :
      (s : System)
      → s.pool ≡ none
      → Numbered s.calls s.open_pools
      → ((run_file x path w s).1.pool ≡ none) × ((run_file x path w s).1.open_pools ≡ s.open_pools)
  unfolding run_file
  run_file-Released s idle numbered =
      let (same, kept, more) = (tried-Onward path w).at s in
      let (r, t) = try_import path w s in
      let below : Numbered t.calls t.open_pools =
        subst (λ ps. Numbered t.calls ps) (sym kept)
          (Numbered-mono s.calls t.calls s.open_pools more numbered) in
      let (none_left, rest) =
        tried-Released r t (same ∙ idle) (Numbered-fresh t.calls t.open_pools below) in
      (none_left, rest ∙ kept)
