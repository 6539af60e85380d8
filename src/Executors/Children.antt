-- ===== src/Executors/Children.antt =====
-- The subprocess of a step of src/executors/shell.py.
use the_brain.Executors.Results.{failure-Plain, exited-Plain, IsResultOf}
use the_brain.Runner.Models.{StepResult}
use the_brain.Prelude.Int.{ℤ}
use the_brain.Executors.Shell.{
  wait, communicate, kill, execute_shell, after_communicate, after_spawn,
}
use the_brain.Workflow.Models.{ShellStep}
use the_brain.Prelude.{
  eq_refl, keep_fresh, Bool-cases, nat_eq, ◌++◌, suc, arith, ◌≤◌, ◌==◌, ◌⊎◌, any, ◌≡◌, List, ℕ, [],
  ◌∷◌, inl, inr, refl, true, false,
}
use the_brain.System.{>>=-eq-ok, Result, System, World, ok, raise}
use the_brain.Outside.{
  Spawned, started, os_error, spawn_error, spawn_interrupted, Communicated, exited,
}
use the_brain.Messages.{base_exception, Exn, command_timed_out, not_started}

-- What keeps a shell step from waiting for its process: a `CancelledError` while it runs, or while the
-- process that was killed is waited for.
pub data ShellCut (w : World) : Type 0 where
  cut_communicate :
      (n : ℕ) (t : ℤ) → w.shell_communicate n t ≡ Communicated.interrupted → ShellCut w
  cut_wait : (n : ℕ) → w.wait_interrupted n ≡ true → ShellCut w

-- How a step leaves the child processes `ps`: as they were, or it was cut and raises.
abbrev pub LeavesChildren : World → List ℕ → Result StepResult × System → Type 0
LeavesChildren w ps (r, t) = (t.processes ≡ ps) ⊎ (ShellCut w × ((e : Exn) × (r ≡ raise e)))

module _ (step : ShellStep) (p : ℕ) (ps : List ℕ) (w : World) (t : System)
    (fresh : any (λ q. q == p) ps ≡ false) (held : t.processes ≡ ps ++ p ∷ []) where
  timed_out-LeavesChildren :
      LeavesChildren w ps (after_communicate step p Communicated.timed_out w t)
  unfolding after_communicate kill wait any
  timed_out-LeavesChildren = elim (Bool-cases (w.shell_gone t.calls)) [
    | inl gone ↦ rw (gone, held) (inl (keep_fresh p ps fresh))
    | inr runs ↦ elim (Bool-cases (w.wait_interrupted (suc t.calls))) [
      | inl cut ↦
          rw (runs, eq_refl p, cut) (inr (cut_wait (suc t.calls) cut, (base_exception, refl)))
      | inr ends ↦ rw (runs, eq_refl p, ends, held) (inl (keep_fresh p ps fresh))
    ]
  ]

  after_communicate-LeavesChildren :
      (n : ℕ) (o : Communicated)
      → w.shell_communicate n step.timeout ≡ o
      → LeavesChildren w ps (after_communicate step p o w t)
  unfolding after_communicate
  after_communicate-LeavesChildren n (exited code out err) h = inl (rw held (keep_fresh p ps fresh))
  after_communicate-LeavesChildren n Communicated.timed_out h = timed_out-LeavesChildren
  after_communicate-LeavesChildren n Communicated.interrupted h =
      inr (cut_communicate n step.timeout h, (base_exception, refl))

module _ (step : ShellStep) (w : World) where
  after_spawn-LeavesChildren :
      (p : ℕ) (o : Spawned) (s : System)
      → any (λ q. q == p) s.processes ≡ false
      → LeavesChildren w s.processes (after_spawn step p o w s)
  unfolding after_spawn communicate
  after_spawn-LeavesChildren p started s fresh =
      after_communicate-LeavesChildren step p s.processes w
        (record s { calls = suc s.calls; processes = s.processes ++ p ∷ [] }) fresh refl s.calls
        (w.shell_communicate s.calls step.timeout) refl
  after_spawn-LeavesChildren p os_error s fresh = inl refl
  after_spawn-LeavesChildren p spawn_error s fresh = inl refl
  after_spawn-LeavesChildren p spawn_interrupted s fresh = inl refl

  pub execute_shell-LeavesChildren :
      (s : System)
      → any (λ q. q == s.calls) s.processes ≡ false
      → LeavesChildren w s.processes (execute_shell step w s)
  unfolding execute_shell
  execute_shell-LeavesChildren s fresh =
      after_spawn-LeavesChildren s.calls (w.shell_spawn s.calls step.command)
        (record s { calls = suc s.calls }) fresh

  pub execute_shell-Onward :
      (s : System)
      → ((execute_shell step w s).1.db ≡ s.db) × (s.calls ≤ (execute_shell step w s).1.calls)
  unfolding execute_shell after_spawn communicate after_communicate kill wait
  execute_shell-Onward s = ground arith

  after_communicate-IsResultOf :
      (p : ℕ) (o : Communicated) (s : System) (r : StepResult)
      → (after_communicate step p o w s).0 ≡ ok r
      → IsResultOf step.name r
  unfolding after_communicate kill wait
  after_communicate-IsResultOf p (exited code out err) s r h =
      (exited-Plain step.name code out err).yields w s r h
  after_communicate-IsResultOf p Communicated.timed_out s r h =
      let s1 = (kill p w s).1 in
      let (_, _, h1, _) = >>=-eq-ok (kill p) _ w s h in
      let (_, _, h2, _) = >>=-eq-ok (wait p) _ w s1 h1 in
      (failure-Plain step.name (command_timed_out step.timeout)).yields w s r h2
  after_communicate-IsResultOf p Communicated.interrupted s r h = cc

  after_spawn-IsResultOf :
      (p : ℕ) (o : Spawned) (s : System) (r : StepResult)
      → (after_spawn step p o w s).0 ≡ ok r
      → IsResultOf step.name r
  unfolding after_spawn communicate
  after_spawn-IsResultOf p started s r h =
      after_communicate-IsResultOf p (w.shell_communicate s.calls step.timeout)
        (record s { calls = suc s.calls; processes = s.processes ++ p ∷ [] }) r h
  after_spawn-IsResultOf p os_error s r h = (failure-Plain step.name not_started).yields w s r h
  after_spawn-IsResultOf p spawn_error s r h = cc
  after_spawn-IsResultOf p spawn_interrupted s r h = cc

  pub execute_shell-IsResultOf :
      (s : System) (r : StepResult) → (execute_shell step w s).0 ≡ ok r → IsResultOf step.name r
  unfolding execute_shell
  execute_shell-IsResultOf s r h =
      after_spawn-IsResultOf s.calls (w.shell_spawn s.calls step.command)
        (record s { calls = suc s.calls }) r h
