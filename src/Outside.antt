-- ===== src/Outside.antt =====
-- What the calls of the outside may answer: subprocesses, HTTP requests and the lines of an MCP
-- server.
use the_brain.Prelude.{ℕ, Option, List}
use the_brain.Prelude.Int.{ℤ}
use the_brain.Text.{Text}
use the_brain.Json.{Json}

-- How starting a workflow's shell command ends: a process, an `OSError`, another exception (such as the
-- `ValueError` of a null character), or a `CancelledError` before there is a process.
pub data Spawned : Type 0 where
  started : Spawned
  os_error : Spawned
  spawn_error : Spawned
  spawn_interrupted : Spawned

-- How `wait_for(proc.communicate(), timeout)` ends: the process has ended with an exit code and its two
-- outputs, the time is over, or a `CancelledError`.
pub data Communicated : Type 0 where
  exited : ℤ → Text → Text → Communicated
  timed_out : Communicated
  interrupted : Communicated

-- The JSON bodies that the program posts.
pub data Payload : Type 0 where
  chat : Text → List (Text × Text) → ℤ → Option ℤ → Payload
  search : Text → ℤ → Option Text → Payload

pub record HttpRequest : Type 0 where
  pub url : Text
  pub payload : Payload
  pub bearer : Option Text
  pub timeout : ℤ

-- A response with its status and text, an `httpx.HTTPError`, another exception (such as
-- `httpx.InvalidURL`, which is no `HTTPError`), or a `CancelledError`.
pub data HttpOutcome : Type 0 where
  response : ℕ → Text → HttpOutcome
  http_error : HttpOutcome
  other_error : HttpOutcome
  interrupted : HttpOutcome

-- `write` and `drain` on the server's stdin. A call that takes longer than the time that is left to it
-- is `timed_out`.
pub data Written : Type 0 where
  written : Written
  broken_pipe : Written
  timed_out : Written
  interrupted : Written

-- `readline` on the server's stdout, and `json.loads` of the line.
pub data Line : Type 0 where
  message : Json → Line
  end_of_file : Line
  connection_lost : Line
  not_json : Line
  -- A line that is too long, that is not UTF-8 or that nests too deep.
  unreadable : Line
  timed_out : Line
  interrupted : Line
