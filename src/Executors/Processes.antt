-- ===== src/Executors/Processes.antt =====
-- A step that is executed, and the child processes and tables it leaves.
use the_brain.Executors.Shell.{execute_shell}
use the_brain.Executors.Children.{
  execute_shell-LeavesChildren, LeavesChildren, ShellCut, execute_shell-IsResultOf,
  execute_shell-Onward,
}
use the_brain.Mcp.Escapes.{Cut}
use the_brain.Messages.{Exn, mcp_protocol}
use the_brain.Mcp.Still.{call_tool-Still}
use the_brain.Mcp.Life.{connect-Onward, closes, connect-Ended, Ended}
use the_brain.Executors.Results.{
  after_tool-Plain, failure-Plain, execute_llm-Plain, IsResultOf, execute_vault-Plain,
}
use the_brain.Runner.Models.{StepResult}
use the_brain.Prelude.{
  inr, arith, inl, ◌≤◌, some, [], nat_eq, ◌∷◌, ◌++◌, ◌∙◌, false, ◌==◌, any, ◌≡◌, List, ℕ,
}
use the_brain.System.{Result, System, ok, World}
use the_brain.Workflow.Models.{step_name, Step, McpToolStep}
use the_brain.Mcp.Session.{connect, call_tool, close}
use the_brain.Runner.Run.{Executor}
use the_brain.Executors.Dispatch.{execute}
use the_brain.Config.{Settings}
use the_brain.Executors.Tool.{fields_of, after_connect, execute_tool, use_tool}
use the_brain.Prelude.{refl}
use the_brain.Mcp.Client.{done, timeout, new_client, Reply, raises, protocol, escaped, State}

-- A tool that is used on a client with a process leaves no process of it.
use_tool-processes :
    (step : McpToolStep) (p : ℕ) (ps : List ℕ) (w : World) (t : State)
    → any (λ q. q == p) ps ≡ false
    → t.0.processes ≡ ps ++ p ∷ []
    → t.1.process ≡ some p
    → (use_tool step w t).1.processes ≡ ps
unfolding use_tool
use_tool-processes step p ps w t fresh started held =
    let args = fields_of step.args in
    let (r, t') = call_tool step.tool args w t in
    let still = call_tool-Still step.tool args in
    let s = (close w t').1.0 in
    (after_tool-Plain step.name r).processes w s
    ∙ closes p ps w t' fresh (still.processes w t ∙ started) (still.process w t ∙ held)

use_tool-Onward :
    (step : McpToolStep) (w : World) (t : State)
    → ((use_tool step w t).1.db ≡ t.0.db) × (t.0.calls ≤ (use_tool step w t).1.calls)
unfolding use_tool close
use_tool-Onward step w t =
    let args = fields_of step.args in
    let counted = (call_tool-Still step.tool args).calls w t in
    let (r, t') = call_tool step.tool args w t in
    let plain = after_tool-Plain step.name r in
    let s : System = (close w t').1.0 in
    let more = plain.calls w s in
    (plain.db w s ∙ (call_tool-Still step.tool args).db w t, omega arith)

use_tool-IsResultOf :
    (step : McpToolStep) (w : World) (t : State) (x : StepResult)
    → (use_tool step w t).0 ≡ ok x
    → IsResultOf step.name x
unfolding use_tool
use_tool-IsResultOf step w t x h =
    let (r, t') = call_tool step.tool (fields_of step.args) w t in
    (after_tool-Plain step.name r).yields w (close w t').1.0 x h

module _ (step : McpToolStep) (w : World) where
  after_connect-IsResultOf :
      (r : Reply (Unit {0})) (t : State) (x : StepResult)
      → (after_connect step r w t).0 ≡ ok x
      → IsResultOf step.name x
  unfolding after_connect
  after_connect-IsResultOf (done u) t x h = use_tool-IsResultOf step w t x h
  after_connect-IsResultOf (raises (protocol e)) (s, c) x h =
      (failure-Plain step.name (mcp_protocol e)).yields w s x h
  after_connect-IsResultOf (raises timeout) t x h = cc
  after_connect-IsResultOf (raises (escaped e)) t x h = cc

  after_connect-Onward :
      (r : Reply (Unit {0})) (t : State)
      → ((after_connect step r w t).1.db ≡ t.0.db)
        × (t.0.calls ≤ (after_connect step r w t).1.calls)
  unfolding after_connect
  after_connect-Onward (done u) t = use_tool-Onward step w t
  after_connect-Onward (raises (protocol e)) t = (refl, omega arith)
  after_connect-Onward (raises timeout) t = (refl, omega arith)
  after_connect-Onward (raises (escaped e)) t = (refl, omega arith)

  after_connect-processes :
      (r : Reply (Unit {0})) (t : State) (p : ℕ) (ps : List ℕ)
      → any (λ q. q == p) ps ≡ false
      → Ended w p ps (r, t)
      → ((e : Exn) → r ≡ raises (escaped e) → Cut w → ⊥)
      → (after_connect step r w t).1.processes ≡ ps
  unfolding after_connect
  after_connect-processes (done u) t p ps fresh (started, held, _) uncut =
      use_tool-processes step p ps w t fresh started held
  after_connect-processes (raises (protocol e)) t p ps fresh (left, _) uncut = left
  after_connect-processes (raises timeout) t p ps fresh ended uncut = absurd ended
  after_connect-processes (raises (escaped e)) t p ps fresh (inl left) uncut = left
  after_connect-processes (raises (escaped e)) t p ps fresh (inr cut) uncut =
      absurd (uncut e refl cut)

  -- A call that returned let no exception of `connect` through.
  after_connect-returned :
      (r : Reply (Unit {0})) (t : State) (x : StepResult) (e : Exn)
      → (after_connect step r w t).0 ≡ ok x
      → r ≡ raises (escaped e)
      → ⊥
  unfolding after_connect
  after_connect-returned (done u) t x e h k = cc
  after_connect-returned (raises (protocol f)) t x e h k = cc
  after_connect-returned (raises timeout) t x e h k = cc
  after_connect-returned (raises (escaped f)) t x e h k = cc

pub execute-Onward :
    (settings : Settings) (step : Step) (w : World) (s : System)
    → ((execute settings step w s).1.db ≡ s.db) × (s.calls ≤ (execute settings step w s).1.calls)
unfolding execute execute_tool
execute-Onward settings (Step.memory_vault step) w s =
    let plain = execute_vault-Plain settings step in (plain.db w s, plain.calls w s)
execute-Onward settings (Step.llm step) w s =
    let plain = execute_llm-Plain settings step in (plain.db w s, plain.calls w s)
execute-Onward settings (Step.shell step) w s = execute_shell-Onward step w s
execute-Onward settings (Step.mcp_tool step) w s =
    let (kept, counted) = connect-Onward step.server_command w (s, new_client) in
    let (r, t) = connect step.server_command w (s, new_client) in
    let (same, more) = after_connect-Onward step w r t in (same ∙ kept, omega arith)

whole_children :
    {w : World} {ps : List ℕ} (p : Result StepResult × System)
    → LeavesChildren w ps p
    → (ShellCut w → ⊥)
    → p.1.processes ≡ ps
whole_children p (inl same) whole = same
whole_children p (inr (cut, _)) whole = absurd (whole cut)

returned_children :
    {w : World} {ps : List ℕ} {r : StepResult} (p : Result StepResult × System)
    → LeavesChildren w ps p
    → p.0 ≡ ok r
    → p.1.processes ≡ ps
returned_children p (inl same) h = same
returned_children p (inr (_, (e, raised))) h = cc

-- A step leaves the child processes as they were, unless the handshake or a shell step was cut.
pub execute-processes :
    (settings : Settings) (step : Step) (w : World) (s : System)
    → any (λ q. q == s.calls) s.processes ≡ false
    → (Cut w → ⊥)
    → (ShellCut w → ⊥)
    → (execute settings step w s).1.processes ≡ s.processes
unfolding execute execute_tool
execute-processes settings (Step.memory_vault step) w s fresh uncut whole =
    (execute_vault-Plain settings step).processes w s
execute-processes settings (Step.llm step) w s fresh uncut whole =
    (execute_llm-Plain settings step).processes w s
execute-processes settings (Step.shell step) w s fresh uncut whole =
    whole_children (execute_shell step w s) (execute_shell-LeavesChildren step w s fresh) whole
execute-processes settings (Step.mcp_tool step) w s fresh uncut whole =
    let ended = connect-Ended w s new_client refl fresh step.server_command in
    let (r, t) = connect step.server_command w (s, new_client) in
    after_connect-processes step w r t s.calls s.processes fresh ended (λ e h. uncut)

-- The executors, as the runner takes them.
abbrev pub brain_executor : Settings → Executor
brain_executor settings = record {
  execute = execute settings;
  quiet = λ step. record { at = λ w s. (execute-Onward settings step w s).0 };
}

-- A result that executing a step returns has the name of the step, and is a success without an error or
-- a failure with an error and no output; the tables are as before, and where the number of the next call
-- is not the number of a running child process, every process that was started is reaped.
pub execute-IsResultOf :
    (settings : Settings) (step : Step) (w : World) (s : System) (r : StepResult)
    → any (λ q. q == s.calls) s.processes ≡ false
    → (execute settings step w s).0 ≡ ok r
    → IsResultOf (step_name step) r
      × ((execute settings step w s).1.db ≡ s.db)
      × ((execute settings step w s).1.processes ≡ s.processes)
unfolding execute execute_tool step_name
execute-IsResultOf settings (Step.memory_vault step) w s r fresh h =
    let plain = execute_vault-Plain settings step in
    (plain.yields w s r h, plain.db w s, plain.processes w s)
execute-IsResultOf settings (Step.llm step) w s r fresh h =
    let plain = execute_llm-Plain settings step in
    (plain.yields w s r h, plain.db w s, plain.processes w s)
execute-IsResultOf settings (Step.shell step) w s r fresh h = (
  execute_shell-IsResultOf step w s r h,
  (execute_shell-Onward step w s).0,
  returned_children (execute_shell step w s) (execute_shell-LeavesChildren step w s fresh) h,
)
execute-IsResultOf settings (Step.mcp_tool step) w s r fresh h =
    let (reply, t) = connect step.server_command w (s, new_client) in
    let ended = connect-Ended w s new_client refl fresh step.server_command in
    (
      after_connect-IsResultOf step w reply t r h,
      (execute-Onward settings (Step.mcp_tool step) w s).0,
      after_connect-processes step w reply t s.calls s.processes fresh ended
          (λ e k _. after_connect-returned step w reply t r e h k),
    )
