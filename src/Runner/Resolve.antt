-- ===== src/Runner/Resolve.antt =====
-- `_resolve_step` of src/runner/runner.py.
pub mod Same
use the_brain.Prelude.{Bool, false, not, ◌||◌, Option, none, some, [], ◌∷◌, ◌==◌, if◌then◌else◌}
use the_brain.Text.{Text, text_eq}
use the_brain.Json.{Json, str}
use the_brain.Dict.{Dict}
use the_brain.System.{World}
use the_brain.Workflow.Models.{Step, memory_vault, llm, shell, mcp_tool}
use the_brain.Runner.Models.{StepResult, TriggerContext}
use the_brain.Runner.Placeholder.{◌>>=◌, Attempt, value, substitute}

module _ (w : World) (results : Dict Text StepResult) (previous : Option (Dict Text Text))
    (trigger : Option TriggerContext) where
  -- A field that is `None` stays `None`.
  resolve_optional : Option Text → Attempt (Option Text)
  resolve_optional none = value none
  resolve_optional (some text) = substitute w results previous trigger text >>= λ t. value (some t)

  -- One value of `args`, and whether it changed; only texts are substituted.
  resolve_arg : Json → Attempt (Json × Bool)
  resolve_arg (str text) =
      substitute w results previous trigger text >>= λ t. value (str t, not (t == text))
  resolve_arg Json.null = value (Json.null, false)
  resolve_arg (Json.bool b) = value (Json.bool b, false)
  resolve_arg (Json.int n) = value (Json.int n, false)
  resolve_arg (Json.real x) = value (Json.real x, false)
  resolve_arg (Json.arr xs) = value (Json.arr xs, false)
  resolve_arg (Json.obj fs) = value (Json.obj fs, false)

  -- The loop over `args`: the resolved arguments, and `changed`.
  resolve_args : Dict Text Json → Attempt (Dict Text Json × Bool)
  unfolding resolve_arg
  resolve_args [] = value ([], false)
  resolve_args ((key, v) ∷ args) = resolve_arg v >>= λ a.
      resolve_args args >>= λ rest. value ((key, a.0) ∷ rest.0, a.1 || rest.1)

  unfoldable pub resolve_step : Step → Attempt Step
  unfolding resolve_optional resolve_args substitute
  resolve_step (memory_vault s) = substitute w results previous trigger s.query >>= λ query.
      value (memory_vault (record s { query = query }))
  resolve_step (llm s) = substitute w results previous trigger s.prompt >>= λ prompt.
      resolve_optional s.system >>= λ system.
      value (llm (record s { prompt = prompt; system = system }))
  resolve_step (shell s) = substitute w results previous trigger s.command >>= λ command.
      value (shell (record s { command = command }))
  resolve_step (mcp_tool s) = substitute w results previous trigger s.server_command >>= λ command.
      resolve_args s.args >>= λ args.
      value
        (mcp_tool (record s { server_command = command; args = if args.1 then args.0 else s.args }))
