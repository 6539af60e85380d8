-- ===== src/Executors/Tame.antt =====
-- The executors where nothing is cancelled: what they raise a handler for `Exception` catches.
use the_brain.System.Quiet.{Quiet-pure}
use the_brain.Runner.Run.Total.{run_workflow-Returns}
use the_brain.Executors.Processes.{brain_executor}
use the_brain.System.Returns.{Returns, IsCalm}
use the_brain.Mcp.Session.{close, call_tool, connect}
use the_brain.Runner.Run.{run_workflow}
use the_brain.Executors.Dispatch.{execute}
use the_brain.Executors.Processes.{brain_executor}
use the_brain.Mcp.Tame.{call_tool-TameCall, connect-TameCall, Uninterrupted}
use the_brain.Prelude.{
  ◌++◌, eq_refl, ℕ, suc, nat_eq, ◌≡◌, ◌==◌, any, [], ◌∷◌, none, some, refl, false,
}
use the_brain.Outside.{http_error, other_error, response}
use the_brain.System.{System, raise, too_deep, parsed}
use the_brain.Runner.Models.{TriggerContext, succeeded, failure}
use the_brain.System.Tame.{Tame-ask_bind, Tame-throw, Tame-pure, Tame-if, Tame}
use the_brain.Json.{get_field, Fields}
use the_brain.Outside.{response, HttpOutcome}
use the_brain.Workflow.Models.{MemoryVaultStep, McpToolStep, Step, Workflow, ShellStep, LlmStep}
use the_brain.Prelude.{inr, inl, Bool-cases, ◌∷◌, some, arith, List, take, Option, ◌≢◌}
use the_brain.Executors.Tool.{
  after_connect, use_tool, execute_tool, after_tool, serialize_content, content_field,
  summarize_error, is_error, summarized, fields_of, tool_result,
}
use the_brain.Config.{Settings}
use the_brain.Executors.Vault.{
  search_request, vault_url, search_vault, execute_vault, vault_error, hit_texts, joined_result,
  hits, escapes, Hits, results_of, search_outcome, vault_result,
}
use the_brain.Messages.{
  llm_unreachable, llm_status, llm_shape, no_model, other_exception, Failure, base_exception,
  is_exception,
}
use the_brain.Executors.Shell.{
  execute_shell, after_communicate, after_spawn, kill, wait, communicate,
}
use the_brain.Outside.{
  Spawned, started, os_error, spawn_error, spawn_interrupted, Communicated, exited,
}
use the_brain.Text.{codes, Text}
use the_brain.System.{parsed, Loads, World}
use the_brain.Executors.Llm.{
  or_default, execute_llm, llm_url, llm_request, is_success_status, llm_content, Picked, llm_result,
  content_result, decoded_result, call_model,
}
use the_brain.Mcp.Client.{new_client, State, Reply, done, raises, protocol, timeout, escaped}

module _ (name : Text) (w : World) where
  content-Tame : (p : Picked) → Tame w (content_result name p)
  unfolding content_result is_exception
  content-Tame p = record { at = λ s h. ground arith }

  decoded-Tame : (l : Loads) → Tame w (decoded_result name l)
  unfolding decoded_result is_exception
  decoded-Tame (parsed j) = content-Tame (llm_content j)
  decoded-Tame Loads.not_json = Tame-pure w (failure name llm_shape)
  decoded-Tame too_deep = Tame-throw w other_exception refl

  llm-Tame :
      (url : Text) (o : HttpOutcome) → o ≢ HttpOutcome.interrupted → Tame w (llm_result name url o)
  unfolding llm_result is_exception
  llm-Tame url (response status text) h = record {
    at =
        (Tame-if w (is_success_status status) _ _ (decoded-Tame (w.loads text))
          (Tame-pure w (failure name (llm_status status (take 300 text))))).at;
  }
  llm-Tame url http_error h = Tame-pure w (failure name (llm_unreachable url))
  llm-Tame url other_error h = Tame-throw w other_exception refl
  llm-Tame url HttpOutcome.interrupted h = absurd (h refl)

  joined-Tame : (o : Option (List Text)) → Tame w (joined_result name o)
  unfolding is_exception
  joined-Tame (some texts) = Tame-pure w _
  joined-Tame none = Tame-throw w other_exception refl

  vault-Tame : (h : Hits) → h ≢ escapes base_exception → Tame w (vault_result name h)
  unfolding vault_result
  vault-Tame (hits j) k = joined-Tame (hit_texts j)
  vault-Tame (vault_error e) k = Tame-pure w (failure name e)
  vault-Tame (escapes e) k = record { at = λ s h. k cc }

  summarized-Tame : (o : Option Failure) → Tame w (summarized name o)
  unfolding is_exception
  summarized-Tame (some e) = Tame-pure w (failure name e)
  summarized-Tame none = Tame-throw w other_exception refl

  tool_result-Tame : (fs : Fields) → Tame w (tool_result name fs)
  unfolding tool_result
  tool_result-Tame fs = record {
    at =
        (Tame-if w (is_error (get_field (codes "isError") fs)) _ _
          (summarized-Tame (summarize_error w (content_field fs)))
          (Tame-pure w (succeeded name (serialize_content w fs)))).at;
  }

results-NoBase : (l : Loads) → results_of l ≢ escapes base_exception
unfolding results_of
results-NoBase l h = ground arith

outcome-NoBase :
    (w : World) (url : Text) (o : HttpOutcome)
    → o ≢ HttpOutcome.interrupted
    → search_outcome w url o ≢ escapes base_exception
unfolding search_outcome
outcome-NoBase w url (response status text) h k = elim (Bool-cases (is_success_status status)) [
  | inl good ↦ results-NoBase (w.loads text) (rw good at k)
  | inr bad ↦ let k' = rw bad at k in cc
]
outcome-NoBase w url http_error h k = cc
outcome-NoBase w url other_error h k = cc
outcome-NoBase w url HttpOutcome.interrupted h k = h refl

after_communicate-Tame :
    (step : ShellStep) (p : ℕ) (w : World) (o : Communicated)
    → o ≢ Communicated.interrupted
    → ((n : ℕ) → w.wait_interrupted n ≡ false)
    → Tame w (after_communicate step p o)
unfolding after_communicate kill wait is_exception any
after_communicate-Tame step p w (exited code out err) h k = record { at = λ s j. cc }
after_communicate-Tame step p w Communicated.timed_out h k = record {
  at = λ s j. elim (Bool-cases (w.shell_gone s.calls)) [
    | inl gone ↦ let j' = rw gone at j in cc
    | inr runs ↦ let j' = rw (runs, eq_refl p, k (suc s.calls)) at j in cc
  ];
}
after_communicate-Tame step p w Communicated.interrupted h k = absurd (h refl)

after_spawn-Tame :
    (step : ShellStep) (p : ℕ) (w : World) (o : Spawned)
    → o ≢ spawn_interrupted
    → Uninterrupted w
    → Tame w (after_spawn step p o)
unfolding after_spawn communicate is_exception
after_spawn-Tame step p w started h u = record {
  at = λ s.
      (after_communicate-Tame step p w (w.shell_communicate s.calls step.timeout)
          (u.shell_communicate s.calls step.timeout) u.shell_wait).at
        (record s { calls = suc s.calls; processes = s.processes ++ p ∷ [] });
}
after_spawn-Tame step p w os_error h u = Tame-pure w _
after_spawn-Tame step p w spawn_error h u = Tame-throw w other_exception refl
after_spawn-Tame step p w spawn_interrupted h u = absurd (h refl)

call_model-Tame :
    (settings : Settings) (step : LlmStep) (w : World) (model : Text)
    → Uninterrupted w
    → Tame w (call_model settings step model)
unfolding call_model
call_model-Tame settings step w [] u = Tame-pure w (failure step.name no_model)
call_model-Tame settings step w (c ∷ model) u =
    Tame-ask_bind w (λ w n. w.post n (llm_request settings step (c ∷ model)))
      (llm_result step.name (llm_url settings step))
      λ n. llm-Tame step.name w (llm_url settings step) _ (u.post n _)

after_tool-Tame :
    (name : Text) (w : World) (r : Reply Fields)
    → r ≢ raises (escaped base_exception)
    → Tame w (after_tool name r)
unfolding after_tool is_exception
after_tool-Tame name w (done fs) h = tool_result-Tame name w fs
after_tool-Tame name w (raises (protocol e)) h = Tame-pure w _
after_tool-Tame name w (raises timeout) h = Tame-throw w other_exception refl
after_tool-Tame name w (raises (escaped e)) h = record { at = λ s k. h cc }

module _ (settings : Settings) (w : World) (u : Uninterrupted w) where
  use_tool-Tame : (step : McpToolStep) (t : State) → (use_tool step w t).0 ≢ raise base_exception
  unfolding use_tool
  use_tool-Tame step t =
      let args = fields_of step.args in
      let (r, t') = call_tool step.tool args w t in
      (after_tool-Tame step.name w r ((call_tool-TameCall w u step.tool args).at t)).at
        (close w t').1.0

  after_connect-Tame :
      (step : McpToolStep) (r : Reply (Unit {0})) (t : State)
      → r ≢ raises (escaped base_exception)
      → (after_connect step r w t).0 ≢ raise base_exception
  unfolding after_connect
  after_connect-Tame step (done _) t h = use_tool-Tame step t
  after_connect-Tame step (raises (protocol e)) (s, c) h = λ k. cc
  after_connect-Tame step (raises timeout) t h = λ k. cc
  after_connect-Tame step (raises (escaped e)) t h = λ k. h cc

  execute_tool-Tame : (step : McpToolStep) → Tame w (execute_tool step)
  unfolding execute_tool
  execute_tool-Tame step = record {
    at = λ s.
        let (r, t) = connect step.server_command w (s, new_client) in
        after_connect-Tame step r t ((connect-TameCall w u step.server_command).at (s, new_client));
  }

  execute_vault-Tame : (step : MemoryVaultStep) → Tame w (execute_vault settings step)
  unfolding execute_vault search_vault
  execute_vault-Tame step =
      Tame-ask_bind w
        (λ w n. search_outcome w (vault_url settings) (w.post n (search_request settings step)))
        (vault_result step.name)
        λ n. vault-Tame step.name w _ (outcome-NoBase w (vault_url settings) _ (u.post n _))

  execute_shell-Tame : (step : ShellStep) → Tame w (execute_shell step)
  unfolding execute_shell
  execute_shell-Tame step = record {
    at = λ s.
        (after_spawn-Tame step s.calls w (w.shell_spawn s.calls step.command)
            (u.shell_spawn s.calls step.command) u).at
          (record s { calls = suc s.calls });
  }

  execute_llm-Tame : (step : LlmStep) → Tame w (execute_llm settings step)
  unfolding execute_llm
  execute_llm-Tame step =
      call_model-Tame settings step w (or_default step.model settings.llm_model) u

  pub execute-Tame : (step : Step) → Tame w (execute settings step)
  unfolding execute
  execute-Tame (Step.memory_vault step) = execute_vault-Tame step
  execute-Tame (Step.llm step) = execute_llm-Tame step
  execute-Tame (Step.shell step) = execute_shell-Tame step
  execute-Tame (Step.mcp_tool step) = execute_tool-Tame step

  -- Where no statement fails, no call is cancelled and the id of the run is new, a workflow that the four
  -- executors execute always ends with a run, whatever its steps do and whatever the commands, endpoints
  -- and servers answer.
  pub run_executors-Returns :
      (workflow : Workflow) (file_path : Text) (trigger : Option TriggerContext) (s : System)
      → IsCalm w
      → any (λ r. r.id == w.uuid4 s.calls) s.db.runs ≡ false
      → Returns (run_workflow (brain_executor settings) none workflow file_path trigger) w s
  run_executors-Returns workflow file_path trigger s calm fresh =
      run_workflow-Returns (brain_executor settings) none (λ r. Quiet-pure tt) w calm
        (λ step t. (execute-Tame step).at t) (λ r t. (tt, refl)) workflow file_path trigger s fresh
