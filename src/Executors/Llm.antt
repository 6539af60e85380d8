-- ===== src/Executors/Llm.antt =====
-- `LLMExecutor` of src/executors/llm.py. The seconds of a timeout are carried in thousandths.
use the_brain.Prelude.{
  ℕ, Bool, ◌&&◌, leb, Option, none, some, List, [], ◌∷◌, ◌++◌, take, ◌==◌, nat_eq, if◌then◌else◌,
}
use the_brain.Prelude.Int.{pos}
use the_brain.Text.{Text, codes}
use the_brain.Json.{Json, null, int, arr, nil, cons, str, obj, get_field}
use the_brain.Messages.{
  no_model, llm_status, llm_unreachable, llm_shape, other_exception, base_exception,
}
use the_brain.Outside.{HttpRequest, HttpOutcome, response, http_error, other_error, chat}
use the_brain.System.{Exec, Loads, parsed, too_deep, pure, throw, ask, ◌>>=◌}
use the_brain.Workflow.Models.{LlmStep}
use the_brain.Runner.Models.{StepResult, failure, succeeded}
use the_brain.Config.{Settings}
use the_brain.Executors.Shell.{or_text}

-- `a or b` of an optional text.
abbrev pub or_default : Option Text → Text → Text
or_default none b = b
or_default (some a) b = or_text a b

abbrev filled_text : Text → Option Text
filled_text [] = none
filled_text (c ∷ s) = some (c ∷ s)

-- The `Authorization` header of a key or token: none of an empty one.
abbrev pub bearer_of : Text → Option Text
bearer_of key = filled_text key

-- `s.rstrip("/")`
abbrev drop_slash : ℕ → Text → Text
drop_slash c [] = if c == 47 then [] else c ∷ []
drop_slash c (d ∷ s) = c ∷ d ∷ s

unfoldable pub rstrip_slash : Text → Text
rstrip_slash [] = []
rstrip_slash (c ∷ s) = drop_slash c (rstrip_slash s)

-- `response.is_success_status` of httpx.
abbrev pub is_success_status : ℕ → Bool
is_success_status status = leb 200 status && leb status 299

abbrev system_message : Option Text → List (Text × Text)
system_message none = []
system_message (some []) = []
system_message (some (c ∷ s)) = (codes "system", c ∷ s) ∷ []

abbrev or_value {ℓ} : {A : Type ℓ} → Option A → A → A
or_value none b = b
or_value (some a) b = a

unfoldable pub llm_url : Settings → LlmStep → Text
unfolding rstrip_slash
llm_url settings step =
    rstrip_slash (or_default step.provider_url settings.llm_base_url) ++ codes "/chat/completions"

unfoldable pub llm_request : Settings → LlmStep → Text → HttpRequest
unfolding llm_url
llm_request settings step model = record {
  url = llm_url settings step;
  payload =
      chat model (system_message step.system ++ (codes "user", step.prompt) ∷ []) step.temperature
        step.max_tokens;
  bearer = bearer_of (or_value step.api_key settings.llm_api_key);
  timeout = or_value step.timeout_seconds (pos 120000);
}

-- What subscripting a JSON value gives: a value, a `KeyError` or `IndexError`, or a `TypeError`.
pub data Picked : Type 0 where
  picked : Json → Picked
  missing : Picked
  type_error : Picked

abbrev or_missing : Option Json → Picked
or_missing none = missing
or_missing (some j) = picked j

-- `value[key]`
unfoldable pub pick_key : Text → Json → Picked
pick_key key (obj fs) = or_missing (get_field key fs)
pick_key key null = type_error
pick_key key (Json.bool b) = type_error
pick_key key (int n) = type_error
pick_key key (Json.real x) = type_error
pick_key key (str s) = type_error
pick_key key (arr xs) = type_error

-- `value[0]`
unfoldable pub pick_first : Json → Picked
pick_first (arr nil) = missing
pick_first (arr (cons j js)) = picked j
pick_first (str []) = missing
pick_first (str (c ∷ s)) = picked (str (c ∷ []))
pick_first (obj fs) = missing
pick_first null = type_error
pick_first (Json.bool b) = type_error
pick_first (int n) = type_error
pick_first (Json.real x) = type_error

abbrev pub then_pick : Picked → (Json → Picked) → Picked
then_pick (picked j) f = f j
then_pick missing f = missing
then_pick type_error f = type_error

-- `["choices"][0]["message"]["content"]`
unfoldable pub llm_content : Json → Picked
unfolding pick_key pick_first
llm_content j =
    then_pick
      (then_pick (then_pick (pick_key (codes "choices") j) pick_first) (pick_key (codes "message")))
      (pick_key (codes "content"))

-- Building a `StepResult` from a content that is no text raises a `ValidationError`.
unfoldable pub content_result : Text → Picked → Exec StepResult
content_result name (picked (str s)) = pure (succeeded name s)
content_result name (picked null) = throw other_exception
content_result name (picked (Json.bool b)) = throw other_exception
content_result name (picked (int n)) = throw other_exception
content_result name (picked (Json.real x)) = throw other_exception
content_result name (picked (arr xs)) = throw other_exception
content_result name (picked (obj fs)) = throw other_exception
content_result name missing = pure (failure name llm_shape)
content_result name type_error = throw other_exception

unfoldable pub decoded_result : Text → Loads → Exec StepResult
unfolding llm_content content_result
decoded_result name (parsed j) = content_result name (llm_content j)
decoded_result name Loads.not_json = pure (failure name llm_shape)
decoded_result name too_deep = throw other_exception

unfoldable pub llm_result : Text → Text → HttpOutcome → Exec StepResult
unfolding decoded_result
llm_result name url (response status text) = λ w s.
    (if is_success_status status
        then decoded_result name (w.loads text)
        else pure (failure name (llm_status status (take 300 text))))
      w s
llm_result name url http_error = pure (failure name (llm_unreachable url))
llm_result name url other_error = throw other_exception
llm_result name url HttpOutcome.interrupted = throw base_exception

unfoldable pub call_model : Settings → LlmStep → Text → Exec StepResult
unfolding llm_request llm_result llm_url
call_model settings step [] = pure (failure step.name no_model)
call_model settings step (c ∷ model) = do
  outcome ← ask (λ w n. w.post n (llm_request settings step (c ∷ model)))
  llm_result step.name (llm_url settings step) outcome

-- `LLMExecutor.execute`
unfoldable pub execute_llm : Settings → LlmStep → Exec StepResult
unfolding call_model
execute_llm settings step = call_model settings step (or_default step.model settings.llm_model)
