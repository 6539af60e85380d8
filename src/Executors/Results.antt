-- ===== src/Executors/Results.antt =====
-- The results of the executors of src/executors.
use the_brain.Mcp.Client.{escaped, protocol, raises, Reply}
use the_brain.Executors.Shell.{failed_detail, or_text, exited_result}
use the_brain.Executors.Tool.{
  serialize_content, content_field, summarize_error, is_error, tool_result, after_tool, summarized,
}
use the_brain.Executors.Llm.{
  llm_url, picked, llm_request, or_default, llm_content, Picked, call_model, content_result,
  llm_result, execute_llm, decoded_result,
}
use the_brain.Executors.Vault.{
  escapes, vault_error, search_request, vault_url, hit_texts, search_outcome, hits, Hits,
  search_vault, vault_result, execute_vault, joined_result,
}
use the_brain.Prelude.{
  ◌≤◌, arith, take, refl, ◌≡◌, ℕ, zero, suc, Bool, true, false, Option, none, some, List, [], ◌∷◌,
  inl, inr, ◌⊎◌, if◌then◌else◌,
}
use the_brain.Prelude.Int.{ℤ, pos, negsuc}
use the_brain.Text.{join, codes, strip, Text}
use the_brain.Json.{Json, null, int, arr, str, obj, Fields, get_field}
use the_brain.Messages.{
  mcp_protocol, llm_unreachable, exit_code, base_exception, llm_shape, llm_status, no_model,
  other_exception, Failure, Exn,
}
use the_brain.Outside.{HttpOutcome, response, http_error, other_error}
use the_brain.System.{World, System, Exec, ok, Loads, parsed, too_deep, pure, throw, ask, ◌>>=◌}
use the_brain.Workflow.Models.{LlmStep, MemoryVaultStep}
use the_brain.Runner.Models.{StepResult, failure, succeeded}
use the_brain.Config.{Settings}
use the_brain.Executors.Llm.{missing, type_error, is_success_status}
use the_brain.Mcp.Client.{done, timeout}

-- A result of the step with this name: it succeeded without an error, or failed with an error and no
-- output.
abbrev pub IsResultOf : Text → StepResult → Type 0
IsResultOf name r =
    (r.step_name ≡ name)
    × (((r.success ≡ true) × (r.error ≡ none))
        ⊎ ((r.success ≡ false) × (r.output ≡ []) × ((e : Failure) × (r.error ≡ some e))))

-- A call that leaves the tables and the child processes alone, does not count calls back, and whose result, when it returns one,
-- is of this step.
pub record Plain (name : Text) (m : Exec StepResult) : Type 0 where
  pub yields : (w : World) (s : System) (r : StepResult) → (m w s).0 ≡ ok r → IsResultOf name r
  pub db : (w : World) (s : System) → (m w s).1.db ≡ s.db
  pub processes : (w : World) (s : System) → (m w s).1.processes ≡ s.processes
  pub calls : (w : World) (s : System) → s.calls ≤ (m w s).1.calls

module _ (name : Text) where
  succeeded-Plain : (out : Text) → Plain name (pure (succeeded name out))
  unfolding succeeded
  succeeded-Plain out = record {
    yields = λ w s r h. (cc, inl (cc, cc));
    db = λ w s. refl;
    processes = λ w s. refl;
    calls = λ w s. omega arith;
  }

  pub failure-Plain : (e : Failure) → Plain name (pure (failure name e))
  unfolding failure
  failure-Plain e = record {
    yields = λ w s r h. (cc, inr (cc, cc, (e, cc)));
    db = λ w s. refl;
    processes = λ w s. refl;
    calls = λ w s. omega arith;
  }

  throw-Plain : (e : Exn) → Plain name (throw e)
  throw-Plain e = record {
    yields = λ w s r h. cc;
    db = λ w s. refl;
    processes = λ w s. refl;
    calls = λ w s. omega arith;
  }

  ask-Plain :
      {A : Type 0} (f : World → ℕ → A) (k : A → Exec StepResult)
      → ((a : A) → Plain name (k a))
      → Plain name (ask f >>= k)
  ask-Plain f k y = record {
    yields = λ w s. (y (f w s.calls)).yields w (record s { calls = suc s.calls });
    db = λ w s. (y (f w s.calls)).db w (record s { calls = suc s.calls });
    processes = λ w s. (y (f w s.calls)).processes w (record s { calls = suc s.calls });
    calls = λ w s.
        let later = (y (f w s.calls)).calls w (record s { calls = suc s.calls }) in omega arith;
  }

  -- A call that depends on the surroundings.
  at-Plain :
      (m : World → Exec StepResult) → ((w : World) → Plain name (m w)) → Plain name (λ w. m w w)
  at-Plain m y = record {
    yields = λ w. (y w).yields w;
    db = λ w. (y w).db w;
    processes = λ w. (y w).processes w;
    calls = λ w. (y w).calls w;
  }

  if-Plain :
      (b : Bool) (m n : Exec StepResult)
      → Plain name m
      → Plain name n
      → Plain name (if b then m else n)
  if-Plain true m n y z = y
  if-Plain false m n y z = z

  pub exited-Plain :
      (code : ℤ) (out err : Text) → Plain name (pure (exited_result name code out err))
  unfolding exited_result
  exited-Plain (pos zero) out err = succeeded-Plain (strip out)
  exited-Plain (pos (suc n)) out err =
      failure-Plain (exit_code (pos (suc n)) (failed_detail out err))
  exited-Plain (negsuc n) out err = failure-Plain (exit_code (negsuc n) (failed_detail out err))

  content-Plain : (p : Picked) → Plain name (content_result name p)
  unfolding content_result
  content-Plain (picked (str s)) = succeeded-Plain s
  content-Plain (picked null) = throw-Plain other_exception
  content-Plain (picked (Json.bool b)) = throw-Plain other_exception
  content-Plain (picked (int n)) = throw-Plain other_exception
  content-Plain (picked (Json.real x)) = throw-Plain other_exception
  content-Plain (picked (arr xs)) = throw-Plain other_exception
  content-Plain (picked (obj fs)) = throw-Plain other_exception
  content-Plain missing = failure-Plain llm_shape
  content-Plain type_error = throw-Plain other_exception

  decoded-Plain : (l : Loads) → Plain name (decoded_result name l)
  unfolding decoded_result
  decoded-Plain (parsed j) = content-Plain (llm_content j)
  decoded-Plain Loads.not_json = failure-Plain llm_shape
  decoded-Plain too_deep = throw-Plain other_exception

  llm-Plain : (url : Text) (o : HttpOutcome) → Plain name (llm_result name url o)
  unfolding llm_result
  llm-Plain url (response status text) = at-Plain _ λ w.
      if-Plain (is_success_status status) _ _ (decoded-Plain (w.loads text))
        (failure-Plain (llm_status status (take 300 text)))
  llm-Plain url http_error = failure-Plain (llm_unreachable url)
  llm-Plain url other_error = throw-Plain other_exception
  llm-Plain url HttpOutcome.interrupted = throw-Plain base_exception

  joined-Plain : (o : Option (List Text)) → Plain name (joined_result name o)
  joined-Plain (some texts) =
      succeeded-Plain (or_text (join (codes "\n\n") texts) (codes "(no results)"))
  joined-Plain none = throw-Plain other_exception

  vault-Plain : (h : Hits) → Plain name (vault_result name h)
  unfolding vault_result
  vault-Plain (hits j) = joined-Plain (hit_texts j)
  vault-Plain (vault_error e) = failure-Plain e
  vault-Plain (escapes e) = throw-Plain e

  summarized-Plain : (o : Option Failure) → Plain name (summarized name o)
  summarized-Plain (some e) = failure-Plain e
  summarized-Plain none = throw-Plain other_exception

  tool_result-Plain : (fs : Fields) → Plain name (tool_result name fs)
  unfolding tool_result
  tool_result-Plain fs = at-Plain _ λ w.
      if-Plain (is_error (get_field (codes "isError") fs)) _ _
        (summarized-Plain (summarize_error w (content_field fs)))
        (succeeded-Plain (serialize_content w fs))

  pub after_tool-Plain : (r : Reply Fields) → Plain name (after_tool name r)
  unfolding after_tool
  after_tool-Plain (done fs) = tool_result-Plain fs
  after_tool-Plain (raises (protocol e)) = failure-Plain (mcp_protocol e)
  after_tool-Plain (raises timeout) = throw-Plain other_exception
  after_tool-Plain (raises (escaped e)) = throw-Plain e

call_model-Plain :
    (settings : Settings) (step : LlmStep) (model : Text)
    → Plain step.name (call_model settings step model)
unfolding call_model
call_model-Plain settings step [] = failure-Plain step.name no_model
call_model-Plain settings step (c ∷ model) =
    ask-Plain step.name (λ w n. w.post n (llm_request settings step (c ∷ model)))
      (llm_result step.name (llm_url settings step)) (llm-Plain step.name (llm_url settings step))

pub execute_llm-Plain :
    (settings : Settings) (step : LlmStep) → Plain step.name (execute_llm settings step)
unfolding execute_llm
execute_llm-Plain settings step =
    call_model-Plain settings step (or_default step.model settings.llm_model)

pub execute_vault-Plain :
    (settings : Settings) (step : MemoryVaultStep) → Plain step.name (execute_vault settings step)
unfolding execute_vault search_vault
execute_vault-Plain settings step =
    ask-Plain step.name
      (λ w n. search_outcome w (vault_url settings) (w.post n (search_request settings step)))
      (vault_result step.name) (vault-Plain step.name)
