-- ===== src/Api.antt =====
-- src/api/app.py: the handlers of the two routes. A request is what FastAPI hands to them.
pub mod Guards
pub mod Disabled
pub mod Described
use the_brain.Prelude.{◌⊎◌, inl, inr}
use the_brain.Prelude.{
  refl, ℕ, ◌≡◌, Bool, true, false, not, Option, none, some, List, [], ◌∷◌, ◌==◌, find, leb,
  is_empty, if◌then◌else◌,
}
use the_brain.Prelude.Int.{ℤ, difference}
use the_brain.Text.{Text, text_beq, text_eq, codes, strip, lower}
use the_brain.Json.{Json, null, str}
use the_brain.Dict.{Dict, lookup}
use the_brain.Messages.{WorkflowLoadError, Exn, other_exception}
use the_brain.Database.{Database, Webhook}
use the_brain.System.{
  World, System, Exec, Loads, parsed, not_json, too_deep, pure, throw, try_except, try_load,
  or_raise, fetch, ◌>>=◌,
}
use the_brain.Workflow.Models.{Workflow}
use the_brain.Workflow.Loader.{import_workflow_from_file}
use the_brain.Runner.Models.{TriggerContext, Status, RunError, WorkflowRun}
use the_brain.Runner.Run.{Executor, run_workflow}
use the_brain.Triggers.Hmac.{verify_signature}

-- `_TRIGGER_HEADER_ALLOWLIST`
abbrev pub allowlist : List Text
allowlist =
    codes "content-type"
    ∷ codes "user-agent"
    ∷ codes "x-github-event"
    ∷ codes "x-github-delivery"
    ∷ codes "x-stripe-event"
    ∷ codes "x-event-key"
    ∷ []

abbrev pub with_header : Text → Option Text → Dict Text Text → Dict Text Text
with_header name none headers = headers
with_header name (some v) headers = (name, v) ∷ headers

-- `safe_headers`. The headers of a request have lower-case names.
unfoldable pub safe_headers : List Text → Dict Text Text → Dict Text Text
safe_headers [] headers = []
safe_headers (name ∷ names) headers =
    with_header name (lookup name headers) (safe_headers names headers)

abbrev pub decoded_or_empty : Option Text → Text
decoded_or_empty none = []
decoded_or_empty (some t) = t

abbrev loaded_or_text : Text → Loads → Option Json
loaded_or_text t (parsed j) = some j
loaded_or_text t not_json = some (str t)
loaded_or_text t too_deep = none

-- The `body` of a trigger context: `none` where `json.loads` raises a RecursionError.
unfoldable pub context_body : World → List ℕ → Option Json
context_body w raw =
    let text = decoded_or_empty (w.decode_utf8 raw) in
    if is_empty text then some null else loaded_or_text text (w.loads text)

-- `_build_webhook_trigger_context`
unfoldable pub build_webhook_trigger_context : List ℕ → Dict Text Text → Exec TriggerContext
unfolding context_body safe_headers
build_webhook_trigger_context raw headers w =
    (do
      body ← or_raise (context_body w raw) other_exception
      pure (record {
        event = some (codes "webhook");
        body = body;
        headers = some (safe_headers allowlist headers);
        path = none;
      }))
      w

-- The detail of an `HTTPException`.
pub data Detail : Type 0 where
  missing_token : Detail
  invalid_token : Detail
  not_found : Detail
  invalid_signature : Detail
  not_loaded : WorkflowLoadError → Detail
  runner_error : Exn → Detail

pub record RunResponse : Type 0 where
  pub run_id : ℕ
  pub status : Status
  pub started_at : ℕ
  pub ended_at : ℕ
  pub duration : ℤ
  pub error : Option RunError

pub data Response : Type 0 where
  answered : RunResponse → Response
  rejected : ℕ → Detail → Response

abbrev run_response : WorkflowRun → ℕ → RunResponse
run_response run ended = record {
  run_id = run.id;
  status = run.status;
  started_at = run.started_at;
  ended_at = ended;
  duration = difference ended run.started_at;
  error = run.error;
}

-- The `RunResponse` of a run; the `assert` raises for a run that has no `ended_at`.
unfoldable pub respond : WorkflowRun → Exec Response
respond run = do
  ended ← or_raise run.ended_at other_exception
  pure (answered (run_response run ended))

-- The token that `create_app` binds; `none` where it raises a RuntimeError.
unfoldable pub expected_token : Option Text → Option Text
expected_token none = none
expected_token (some value) = if is_empty (strip value) then none else some (strip value)

-- `HTTPAuthorizationCredentials`
pub record Credentials : Type 0 where
  pub scheme : Text
  pub credentials : Text

unfoldable pub is_ascii : Text → Bool
is_ascii [] = true
is_ascii (c ∷ s) = let rest = is_ascii s in if leb c 127 then rest else false

-- How `require_token` ends: `secrets.compare_digest` raises a TypeError for a text that is not ASCII.
pub data Auth : Type 0 where
  accepted : Auth
  unauthorized : Detail → Auth
  type_error : Auth

unfoldable pub compare_tokens : Text → Text → Auth
unfolding is_ascii
compare_tokens given expected =
    if is_ascii given
    then (if is_ascii expected
        then (if given == expected then accepted else unauthorized invalid_token)
        else type_error)
    else type_error

unfoldable pub require_token : Text → Option Credentials → Auth
unfolding compare_tokens
require_token expected none = unauthorized missing_token
require_token expected (some c) =
    if lower c.scheme == codes "bearer"
    then compare_tokens c.credentials expected
    else unauthorized missing_token

-- The `try` around a run.
abbrev tried : Exec WorkflowRun → Exec (Response ⊎ WorkflowRun)
tried run =
    try_except (run >>= λ row. pure (inr row)) (λ e. pure (inl (rejected 500 (runner_error e))))

abbrev respond_or : Response ⊎ WorkflowRun → Exec Response
unfolding respond
respond_or (inl response) = pure response
respond_or (inr run) = respond run

abbrev pub webhook_of : Text → Database → Option Webhook
webhook_of name d = find (λ r. r.workflow_name == name) d.webhooks

module _ (x : Executor) where
  abbrev tried_run : Workflow → Text → Option TriggerContext → Exec (Response ⊎ WorkflowRun)
  tried_run workflow file_path trigger = tried (run_workflow x none workflow file_path trigger)

  -- The part that both handlers end with.
  unfoldable pub run_and_respond : Workflow → Text → Option TriggerContext → Exec Response
  unfolding respond
  run_and_respond workflow file_path trigger = tried_run workflow file_path trigger >>= respond_or

  load : Text → Exec (Response ⊎ Workflow)
  load path =
      try_load (do workflow ← import_workflow_from_file path; pure (inr workflow))
        (λ e. pure (inl (rejected 400 (not_loaded e))))

  abbrev answer_loaded : Response ⊎ Workflow → Text → Exec Response
  unfolding run_and_respond
  answer_loaded (inl response) workflow_path = pure response
  answer_loaded (inr workflow) workflow_path = run_and_respond workflow workflow_path none

  -- `run_endpoint` once `require_token` is through.
  run_authorized : Auth → Text → Exec Response
  unfolding answer_loaded load
  run_authorized type_error workflow_path = throw other_exception
  run_authorized (unauthorized detail) workflow_path = pure (rejected 401 detail)
  run_authorized accepted workflow_path = do
    loaded ← load workflow_path
    answer_loaded loaded workflow_path

  -- `run_endpoint` with its dependency.
  unfoldable pub run_endpoint : Text → Option Credentials → Text → Exec Response
  unfolding run_authorized
  run_endpoint expected credentials workflow_path =
      run_authorized (require_token expected credentials) workflow_path

  -- `webhook_endpoint` behind the two checks.
  unfoldable pub run_webhook : Text → List ℕ → Dict Text Text → Exec Response
  unfolding run_and_respond load build_webhook_trigger_context
  run_webhook path raw_body headers = do
    loaded ← load path
    elim loaded [
      | inl response ↦ pure response
      | inr workflow ↦ do
        context ← build_webhook_trigger_context raw_body headers
        run_and_respond workflow path (some context)
    ]

  -- A column that is NULL makes `import_workflow_from_file` raise a TypeError.
  check_signature : Webhook → List ℕ → Dict Text Text → Exec Response
  unfolding run_webhook
  check_signature row raw_body headers w =
      (if verify_signature w row.hmac_secret raw_body
            (some (decoded_or_empty (lookup (codes "x-brain-signature") headers)))
          then (do
            path ← or_raise row.workflow_file_path other_exception
            run_webhook path raw_body headers)
          else pure (rejected 401 invalid_signature))
        w

  -- `webhook_endpoint`
  unfoldable pub webhook_endpoint : Text → List ℕ → Dict Text Text → Exec Response
  unfolding check_signature
  webhook_endpoint name raw_body headers = do
    row ← fetch (webhook_of name)
    elim row [
      | none ↦ pure (rejected 404 not_found)
      | some row ↦
          if row.enabled
          then check_signature row raw_body headers
          else pure (rejected 404 not_found)
    ]
