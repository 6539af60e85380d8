-- ===== src/Executors/Tool.antt =====
-- `McpToolExecutor` of src/executors/mcp_tool.py. The log of the server's stderr is not modelled.
use the_brain.Prelude.{
  zero, suc, suc, Bool, true, false, Option, none, some, [], ◌∷◌, if◌then◌else◌,
}
use the_brain.Prelude.Int.{pos, negsuc}
use the_brain.Text.{Text, codes}
use the_brain.Json.{Json, null, int, arr, nil, cons, str, obj, Fields, end, field, get_field}
use the_brain.Messages.{Failure, mcp_protocol, mcp_tool_error, mcp_no_content, other_exception}
use the_brain.System.{World, System, Exec, Result, pure, throw}
use the_brain.Workflow.Models.{McpToolStep}
use the_brain.Runner.Models.{StepResult, failure, succeeded}
use the_brain.Dict.{Dict}
use the_brain.Mcp.Client.{new_client, State, Reply, done, raises, protocol, timeout, escaped}
use the_brain.Mcp.Session.{connect, call_tool, close}

-- A dict of JSON values as an object.
unfoldable pub fields_of : Dict Text Json → Fields
fields_of [] = end
fields_of ((k, v) ∷ d) = field k v (fields_of d)

abbrev or_no_content : Option Json → Json
or_no_content none = arr nil
or_no_content (some j) = j

-- `result.get("content", [])`
unfoldable pub content_field : Fields → Json
content_field fs = or_no_content (get_field (codes "content") fs)

-- `_serialize_content`
unfoldable pub serialize_content : World → Fields → Text
unfolding content_field
serialize_content w fs = w.dumps (content_field fs)

abbrev text_or_none : Option Json → Failure
text_or_none (some (str (c ∷ s))) = mcp_tool_error (c ∷ s)
text_or_none (some (str [])) = mcp_no_content
text_or_none none = mcp_no_content
text_or_none (some null) = mcp_no_content
text_or_none (some (Json.bool b)) = mcp_no_content
text_or_none (some (int n)) = mcp_no_content
text_or_none (some (Json.real x)) = mcp_no_content
text_or_none (some (arr xs)) = mcp_no_content
text_or_none (some (obj fs)) = mcp_no_content

-- A first element that is an object, and its `text`.
abbrev first_text : Json → Failure
first_text (obj fs) = text_or_none (get_field (codes "text") fs)
first_text null = mcp_no_content
first_text (Json.bool b) = mcp_no_content
first_text (int n) = mcp_no_content
first_text (Json.real x) = mcp_no_content
first_text (str s) = mcp_no_content
first_text (arr xs) = mcp_no_content

-- `_summarize_error`; `none` where `content[0]` raises, as of a true value that is no sequence.
unfoldable pub summarize_error : World → Json → Option Failure
summarize_error w (arr nil) = some mcp_no_content
summarize_error w (arr (cons j js)) = some (first_text j)
summarize_error w (str s) = some mcp_no_content
summarize_error w (obj end) = some mcp_no_content
summarize_error w (obj (field k v fs)) = none
summarize_error w null = some mcp_no_content
summarize_error w (Json.bool false) = some mcp_no_content
summarize_error w (Json.bool true) = none
summarize_error w (int (pos zero)) = some mcp_no_content
summarize_error w (int (pos (suc n))) = none
summarize_error w (int (negsuc n)) = none
summarize_error w (Json.real x) = if w.real_equals x 0 then some mcp_no_content else none

abbrev pub summarized : Text → Option Failure → Exec StepResult
summarized name (some e) = pure (failure name e)
summarized name none = throw other_exception

-- `result.get("isError") is True`
abbrev pub is_error : Option Json → Bool
is_error (some (Json.bool b)) = b
is_error none = false
is_error (some null) = false
is_error (some (int n)) = false
is_error (some (Json.real x)) = false
is_error (some (str s)) = false
is_error (some (arr xs)) = false
is_error (some (obj fs)) = false

unfoldable pub tool_result : Text → Fields → Exec StepResult
unfolding serialize_content summarize_error content_field
tool_result name fs = λ w s.
    (if is_error (get_field (codes "isError") fs)
        then summarized name (summarize_error w (content_field fs))
        else pure (succeeded name (serialize_content w fs)))
      w s

-- The end of the inner `async with`: the client is closed whatever the call of the tool did.
unfoldable pub after_tool : Text → Reply Fields → Exec StepResult
unfolding tool_result
after_tool name (done fs) = tool_result name fs
after_tool name (raises (protocol e)) = pure (failure name (mcp_protocol e))
after_tool name (raises timeout) = throw other_exception
after_tool name (raises (escaped e)) = throw e

unfoldable pub use_tool : McpToolStep → World → State → Result StepResult × System
unfolding call_tool close after_tool fields_of
use_tool step w t =
    let (r, t') = call_tool step.tool (fields_of step.args) w t in
    let (_, (s, c)) = close w t' in after_tool step.name r w s

unfoldable pub after_connect :
    McpToolStep → Reply (Unit {0}) → World → State → Result StepResult × System
unfolding use_tool
after_connect step (done u) w t = use_tool step w t
after_connect step (raises (protocol e)) w (s, c) = pure (failure step.name (mcp_protocol e)) w s
after_connect step (raises timeout) w (s, c) = throw other_exception w s
after_connect step (raises (escaped e)) w (s, c) = throw e w s

-- `McpToolExecutor.execute`
unfoldable pub execute_tool : McpToolStep → Exec StepResult
unfolding connect after_connect
execute_tool step w s =
    let (r, t) = connect step.server_command w (s, new_client) in after_connect step r w t
