-- ===== src/Messages.antt =====
-- The errors of the program as data: a constructor for each message that the code builds, with the
-- values that the message shows. The wording of the messages is not modelled.
use the_brain.Prelude.{ℕ, Bool, true, false}
use the_brain.Prelude.Int.{ℤ}
use the_brain.Text.{Text}
use the_brain.Json.{Json}

-- `PlaceholderError` of src/runner/runner.py.
pub data PlaceholderError : Type 0 where
  not_triggered : Text → PlaceholderError
  dotted_header : Text → PlaceholderError
  no_header : Text → PlaceholderError
  no_field : Text → PlaceholderError
  no_previous_run : Text → PlaceholderError
  no_previous_step : Text → PlaceholderError
  no_prior_step : Text → PlaceholderError

-- `WorkflowLoadError` of src/workflow/loader.py.
pub data WorkflowLoadError : Type 0 where
  not_found : Text → WorkflowLoadError
  not_py : Text → WorkflowLoadError
  no_loader : Text → WorkflowLoadError
  exec_error : Text → WorkflowLoadError
  no_variable : Text → WorkflowLoadError
  not_workflow : Text → WorkflowLoadError

-- What a call may raise. All but `base_exception` are instances of Python's `Exception`;
-- `base_exception` stands for `SystemExit`, `KeyboardInterrupt` and `CancelledError`.
pub data Exn : Type 0 where
  database_error : Exn
  unique_violation : Exn
  load_error : WorkflowLoadError → Exn
  runtime_error : Exn
  other_exception : Exn
  base_exception : Exn

-- `isinstance(e, Exception)`
unfoldable pub is_exception : Exn → Bool
is_exception base_exception = false
is_exception database_error = true
is_exception unique_violation = true
is_exception (load_error _) = true
is_exception runtime_error = true
is_exception other_exception = true

-- `McpProtocolError` of src/mcp/stdio_client.py.
pub data McpError : Type 0 where
  already_connected : McpError
  empty_command : McpError
  spawn_failed : McpError
  handshake_timeout : McpError
  not_connected : McpError
  call_timeout : Text → McpError
  not_an_object : McpError
  wrong_id : McpError
  server_error : Json → McpError
  no_result : McpError
  stdin_closed : McpError
  stdout_closed : McpError
  unexpected_eof : McpError
  malformed_json : McpError

-- `StepResult.error`.
pub data Failure : Type 0 where
  unresolved : PlaceholderError → Failure
  unexpected : Exn → Failure
  not_started : Failure
  command_timed_out : ℤ → Failure
  exit_code : ℤ → Text → Failure
  no_model : Failure
  llm_status : ℕ → Text → Failure
  llm_unreachable : Text → Failure
  llm_shape : Failure
  vault_status : ℕ → Text → Text → Failure
  vault_unreachable : Text → Failure
  mcp_protocol : McpError → Failure
  mcp_tool_error : Text → Failure
  mcp_no_content : Failure
