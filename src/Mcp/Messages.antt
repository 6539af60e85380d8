-- ===== src/Mcp/Messages.antt =====
-- The messages of src/mcp/stdio_client.py: one line each way, the handshake and the call of a tool.
use the_brain.Prelude.{
  ℕ, Bool, true, false, Option, none, some, [], ◌∷◌, ◌++◌, ◌==◌, nat_eq, if◌then◌else◌,
}
use the_brain.Prelude.Int.{pos, negsuc}
use the_brain.Text.{Text, codes}
use the_brain.Json.{Json, null, str, int, obj, arr, Fields, end, field, get_field}
use the_brain.Messages.{
  base_exception, other_exception, not_an_object, wrong_id, server_error, no_result, stdin_closed,
  stdout_closed, unexpected_eof, malformed_json,
}
use the_brain.Outside.{
  Written, written, broken_pipe, Line, message, end_of_file, connection_lost, not_json, unreadable,
}
use the_brain.System.{World}
use the_brain.Mcp.Client.{
  Call, done, protocol, timeout, escaped, return, fail, ◌>>=◌, ◌>>◌, ask_outside, next_id,
}

abbrev note_sent : Json → Call (Unit {0})
note_sent m w (s, c) = (done tt, (s, record c { sent = c.sent ++ m ∷ [] }))

abbrev pub write_outcome : Json → Written → Call (Unit {0})
write_outcome m written = note_sent m
write_outcome m broken_pipe = fail (protocol stdin_closed)
write_outcome m Written.timed_out = fail timeout
write_outcome m Written.interrupted = fail (escaped base_exception)

-- `_write_message`
unfoldable pub write_message : Json → Call (Unit {0})
write_message m = do outcome ← ask_outside (λ w n. w.mcp_write n m); write_outcome m outcome

abbrev pub read_outcome : Line → Call Json
read_outcome (message j) = return j
read_outcome end_of_file = fail (protocol unexpected_eof)
read_outcome connection_lost = fail (protocol stdout_closed)
read_outcome not_json = fail (protocol malformed_json)
read_outcome unreadable = fail (escaped other_exception)
read_outcome Line.timed_out = fail timeout
read_outcome Line.interrupted = fail (escaped base_exception)

-- `_read_message`
unfoldable pub read_message : Call Json
read_message = do line ← ask_outside (λ w n. w.mcp_read n); read_outcome line

-- `response.get("id") == request_id`, by Python's equality.
unfoldable pub is_id : World → ℕ → Option Json → Bool
is_id w id none = false
is_id w id (some (int (pos n))) = n == id
is_id w id (some (int (negsuc n))) = false
is_id w id (some (Json.bool true)) = 1 == id
is_id w id (some (Json.bool false)) = 0 == id
is_id w id (some (Json.real x)) = w.real_equals x id
is_id w id (some null) = false
is_id w id (some (str s)) = false
is_id w id (some (arr xs)) = false
is_id w id (some (obj fs)) = false

-- The fields of the answer to a request: an object with its id and without an error.
abbrev pub no_error : Fields → Option Json → Call Fields
no_error fs none = return fs
no_error fs (some e) = fail (protocol (server_error e))

unfoldable pub check_response : ℕ → Json → Call Fields
unfolding is_id
check_response id (obj fs) = λ w s.
    (if is_id w id (get_field (codes "id") fs)
        then no_error fs (get_field (codes "error") fs)
        else fail (protocol wrong_id))
      w s
check_response id null = fail (protocol not_an_object)
check_response id (Json.bool b) = fail (protocol not_an_object)
check_response id (int n) = fail (protocol not_an_object)
check_response id (Json.real x) = fail (protocol not_an_object)
check_response id (str s) = fail (protocol not_an_object)
check_response id (arr xs) = fail (protocol not_an_object)

-- A request, with the parameters as an object.
abbrev pub request : ℕ → Text → Fields → Json
request id method params = obj (
    field (codes "jsonrpc") (str (codes "2.0")) (
      field (codes "id") (int (pos id))
        (field (codes "method") (str method) (field (codes "params") (obj params) end))))

abbrev pub initialize : ℕ → Json
initialize id = request id (codes "initialize") (
    field (codes "protocolVersion") (str (codes "2024-11-05")) (
      field (codes "capabilities") (obj end) (
        field (codes "clientInfo")
          (obj (
            field (codes "name") (str (codes "the-brain"))
              (field (codes "version") (str (codes "0.1.0")) end)))
          end)))

abbrev pub initialized : Json
initialized = obj (
    field (codes "jsonrpc") (str (codes "2.0"))
      (field (codes "method") (str (codes "notifications/initialized")) end))

abbrev pub has_result : Option Json → Call (Unit {0})
has_result none = fail (protocol no_result)
has_result (some j) = return tt

-- `_handshake`
unfoldable pub handshake : Call (Unit {0})
unfolding write_message read_message check_response
handshake = do
  id ← next_id
  write_message (initialize id)
  response ← read_message
  fields ← check_response id response
  has_result (get_field (codes "result") fields)
  write_message initialized

abbrev pub object_result : Option Json → Call Fields
object_result (some (obj fs)) = return fs
object_result none = fail (protocol no_result)
object_result (some null) = fail (protocol no_result)
object_result (some (Json.bool b)) = fail (protocol no_result)
object_result (some (int n)) = fail (protocol no_result)
object_result (some (Json.real x)) = fail (protocol no_result)
object_result (some (str s)) = fail (protocol no_result)
object_result (some (arr xs)) = fail (protocol no_result)

abbrev pub call_request : Text → Fields → ℕ → Json
call_request tool args id =
    request id (codes "tools/call")
      (field (codes "name") (str tool) (field (codes "arguments") (obj args) end))

-- `_do_call_tool`
unfoldable pub do_call_tool : Text → Fields → Call Fields
unfolding write_message read_message check_response
do_call_tool tool args = do
  id ← next_id
  write_message (call_request tool args id)
  response ← read_message
  fields ← check_response id response
  object_result (get_field (codes "result") fields)
