-- ===== src/Executors/Shell.antt =====
-- `ShellExecutor` of src/executors/shell.py.
use the_brain.Prelude.{
  ℕ, keep, any, not, ◌&&◌, nat_eq, ◌==◌, ◌++◌, if◌then◌else◌, zero, suc, [], ◌∷◌,
}
use the_brain.Prelude.Int.{ℤ, pos, negsuc}
use the_brain.Text.{Text, codes, strip}
use the_brain.Messages.{not_started, command_timed_out, exit_code, other_exception, base_exception}
use the_brain.Outside.{
  Spawned, started, os_error, spawn_error, spawn_interrupted, Communicated, exited,
}
use the_brain.System.{ok, raise, System, ◌>>◌, Exec, pure, throw}
use the_brain.Workflow.Models.{ShellStep}
use the_brain.Runner.Models.{StepResult, failure, succeeded}

-- `a or b`
abbrev pub or_text : Text → Text → Text
or_text [] b = b
or_text (c ∷ a) b = c ∷ a

unfoldable pub failed_detail : Text → Text → Text
unfolding strip
failed_detail out err = or_text (strip err) (or_text (strip out) (codes "(no output)"))

unfoldable pub exited_result : Text → ℤ → Text → Text → StepResult
unfolding failed_detail failure succeeded
exited_result name (pos zero) out err = succeeded name (strip out)
exited_result name (pos (suc n)) out err =
    failure name (exit_code (pos (suc n)) (failed_detail out err))
exited_result name (negsuc n) out err = failure name (exit_code (negsuc n) (failed_detail out err))

-- A process that has ended and was waited for.
abbrev pub reap : ℕ → System → System
reap p s = record s { processes = keep (λ q. not (q == p)) s.processes }

-- `proc.kill()`: of a process that has ended meanwhile it raises a `ProcessLookupError`.
unfoldable pub kill : ℕ → Exec (Unit {0})
kill p w s =
    let s' : System = record s { calls = suc s.calls } in
    if w.shell_gone s.calls
    then (raise other_exception, reap p s')
    else (ok tt, record s' { killed = p ∷ s.killed })

-- `await proc.wait()`: it ends soon where the process was killed, and else only when it is cancelled.
unfoldable pub wait : ℕ → Exec (Unit {0})
wait p w s =
    let s' : System = record s { calls = suc s.calls } in
    if any (λ q. q == p) s.killed && not (w.wait_interrupted s.calls)
    then (ok tt, reap p s')
    else (raise base_exception, s')

-- `ShellExecutor.execute` behind `communicate`, on the process `p`.
unfoldable pub after_communicate : ShellStep → ℕ → Communicated → Exec StepResult
unfolding exited_result kill wait
after_communicate step p (exited code out err) w s =
    (ok (exited_result step.name code out err), reap p s)
after_communicate step p Communicated.timed_out w s =
    (do kill p; wait p; pure (failure step.name (command_timed_out step.timeout))) w s
after_communicate step p Communicated.interrupted w s = (raise base_exception, s)

unfoldable pub communicate : ShellStep → ℕ → Exec StepResult
unfolding after_communicate
communicate step p w s =
    after_communicate step p (w.shell_communicate s.calls step.timeout) w
      (record s { calls = suc s.calls; processes = s.processes ++ p ∷ [] })

unfoldable pub after_spawn : ShellStep → ℕ → Spawned → Exec StepResult
unfolding communicate
after_spawn step p started = communicate step p
after_spawn step p os_error = pure (failure step.name not_started)
after_spawn step p spawn_error = throw other_exception
after_spawn step p spawn_interrupted = throw base_exception

-- `ShellExecutor.execute`
unfoldable pub execute_shell : ShellStep → Exec StepResult
unfolding after_spawn
execute_shell step w s =
    after_spawn step s.calls (w.shell_spawn s.calls step.command) w
      (record s { calls = suc s.calls })
