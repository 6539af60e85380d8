-- ===== src/Mcp/Answers.antt =====
-- What a call of a tool takes for its answer.
use the_brain.Prelude.{
  refl, ◌≡◌, ◌∙◌, ap, subst, ℕ, suc, ◌++◌, true, Bool-cases, inl, inr, Option, none, some, [], ◌∷◌,
  arith,
}
use the_brain.Text.{Text, codes}
use the_brain.Json.{Json, null, str, int, arr, Fields, obj, get_field}
use the_brain.Outside.{
  Written, written, broken_pipe, Line, message, end_of_file, connection_lost, not_json, unreadable,
}
use the_brain.System.{World, System}
use the_brain.Mcp.Client.{
  Client, State, Call, Reply, done, raises, protocol, escaped, timeout, then_call, ◌>>=◌,
}
use the_brain.Mcp.Messages.{
  write_message, read_message, check_response, do_call_tool, call_request, is_id, no_error,
  object_result, write_outcome, read_outcome,
}
use the_brain.Mcp.Session.{call_tool, is_connected, after_call, timed_call}

-- The line that the server wrote is an answer to the request `id` with this result.
abbrev pub Answers : World → ℕ → ℕ → Fields → Type 0
Answers w n id result =
    (fields : Fields) × (w.mcp_read n ≡ message (obj fields))
    × (is_id w id (get_field (codes "id") fields) ≡ true)
    × (get_field (codes "error") fields ≡ none)
    × (get_field (codes "result") fields ≡ some (obj result))

module _ {ℓ κ} {A : Type ℓ} {B : Type κ} where
  then-eq-done :
      (r : Reply A) (f : A → Call B) (w : World) (t : State) {b : B}
      → (then_call r f w t).0 ≡ done b
      → (a : A) × (r ≡ done a) × ((f a w t).0 ≡ done b)
  then-eq-done (done a) f w t h = (a, refl, h)
  then-eq-done (raises e) f w t h = cc

  -- A call that is done went through its first part.
  bind-eq-done :
      (m : Call A) (f : A → Call B) (w : World) (t : State) {b : B}
      → ((m >>= f) w t).0 ≡ done b
      → (a : A) × ((m w t).0 ≡ done a) × ((f a w (m w t).1).0 ≡ done b)
  bind-eq-done m f w t h = let (r, t') = m w t in then-eq-done r f w t' h

calls-write :
    (o : Written) (m : Json) (w : World) (t : State) → (write_outcome m o w t).1.0.calls ≡ t.0.calls
calls-write written m w t = refl
calls-write broken_pipe m w t = refl
calls-write Written.timed_out m w t = refl
calls-write Written.interrupted m w t = refl

line-read :
    (line : Line) (w : World) (t : State) {j : Json}
    → (read_outcome line w t).0 ≡ done j
    → line ≡ message j
line-read (message j) w t h = cc
line-read end_of_file w t h = cc
line-read connection_lost w t h = cc
line-read not_json w t h = cc
line-read unreadable w t h = cc
line-read Line.timed_out w t h = cc
line-read Line.interrupted w t h = cc

fields-no_error :
    (fs : Fields) (o : Option Json) (w : World) (t : State) {fields : Fields}
    → (no_error fs o w t).0 ≡ done fields
    → (fs ≡ fields) × (o ≡ none)
fields-no_error fs none w t h = (cc, refl)
fields-no_error fs (some e) w t h = cc

object-checked :
    (id : ℕ) (fs : Fields) (w : World) (t : State) {fields : Fields}
    → (check_response id (obj fs) w t).0 ≡ done fields
    → (fs ≡ fields)
      × (is_id w id (get_field (codes "id") fs) ≡ true)
      × (get_field (codes "error") fs ≡ none)
unfolding check_response
object-checked id fs w t h = elim (Bool-cases (is_id w id (get_field (codes "id") fs))) [
  | inl is ↦
      let h' = rw is at h in
      let (same, none_there) = fields-no_error fs (get_field (codes "error") fs) w t h' in
      (same, is, none_there)
  | inr isnt ↦ absurd (let h' = rw isnt at h in cc)
]

response-checked :
    (id : ℕ) (j : Json) (w : World) (t : State) {fields : Fields}
    → (check_response id j w t).0 ≡ done fields
    → (j ≡ obj fields)
      × (is_id w id (get_field (codes "id") fields) ≡ true)
      × (get_field (codes "error") fields ≡ none)
unfolding check_response
response-checked id (obj fs) w t h =
    let (same, is, none_there) = object-checked id fs w t h in
    (ap obj same, rw (← same) is, rw (← same) none_there)
response-checked id null w t h = cc
response-checked id (Json.bool b) w t h = cc
response-checked id (int n) w t h = cc
response-checked id (Json.real x) w t h = cc
response-checked id (str s) w t h = cc
response-checked id (arr xs) w t h = cc

result-object :
    (o : Option Json) (w : World) (t : State) {result : Fields}
    → (object_result o w t).0 ≡ done result
    → o ≡ some (obj result)
result-object (some (obj fs)) w t h = cc
result-object none w t h = cc
result-object (some null) w t h = cc
result-object (some (Json.bool b)) w t h = cc
result-object (some (int n)) w t h = cc
result-object (some (Json.real x)) w t h = cc
result-object (some (str s)) w t h = cc
result-object (some (arr xs)) w t h = cc

-- The rest of a call, from the line that the server wrote.
line-Answers :
    (id : ℕ) (w : World) (s : System) (c : Client) (result : Fields)
    → ((read_message >>= λ response. check_response id response >>= λ fields.
          object_result (get_field (codes "result") fields))
        w
        (s, c)).0
      ≡ done result
    → Answers w s.calls id result
unfolding read_message
line-Answers id w s c result h =
    let t : State = (record s { calls = suc s.calls }, c) in
    let (j, read, h) =
      then-eq-done ((read_outcome (w.mcp_read s.calls) w t).0) _ w
        (read_outcome (w.mcp_read s.calls) w t).1 h in
    let (fields, checked, h) =
      then-eq-done (check_response id j w _).0 _ w (check_response id j w _).1 h in
    let (is_obj, is, none_there) = response-checked id j w _ checked in
    (
      fields,
      line-read (w.mcp_read s.calls) w t read ∙ ap message is_obj,
      is,
      none_there,
      result-object (get_field (codes "result") fields) w _ h,
    )

do_call_tool-Answers :
    (tool : Text) (args : Fields) (w : World) (s : System) (c : Client) (result : Fields)
    → (do_call_tool tool args w (s, c)).0 ≡ done result
    → Answers w (suc s.calls) c.next_request_id result
unfolding do_call_tool write_message
do_call_tool-Answers tool args w s c result h =
    let id = c.next_request_id in
    let asked = call_request tool args id in
    let o = w.mcp_write s.calls asked in
    let t : State = (record s { calls = suc s.calls }, record c { next_request_id = suc id }) in
    let t' = (write_outcome asked o w t).1 in
    let (_, wrote, h) = then-eq-done (write_outcome asked o w t).0 _ w t' h in
    let answers = line-Answers id w t'.0 t'.1 result h in
    subst (λ n. Answers w n id result) (calls-write o asked w t) answers

module _ {ℓ κ} {A : Type ℓ} {B : Type κ} where
  then-client :
      (r : Reply A) (f : A → Call B) (w : World) (t : State)
      → ((a : A) → (f a w t).1.1 ≡ t.1)
      → (then_call r f w t).1.1 ≡ t.1
  then-client (done a) f w t k = k a
  then-client (raises e) f w t k = refl

client-read : (line : Line) (w : World) (t : State) → (read_outcome line w t).1.1 ≡ t.1
client-read (message j) w t = refl
client-read end_of_file w t = refl
client-read connection_lost w t = refl
client-read not_json w t = refl
client-read unreadable w t = refl
client-read Line.timed_out w t = refl
client-read Line.interrupted w t = refl

client-check : (id : ℕ) (j : Json) (w : World) (t : State) → (check_response id j w t).1.1 ≡ t.1
unfolding check_response
client-check id j w t = ground arith

client-object : (o : Option Json) (w : World) (t : State) → (object_result o w t).1.1 ≡ t.1
client-object o w t = ground arith

client-rest :
    (id : ℕ) (w : World) (t : State)
    → ((read_message >>= λ response. check_response id response >>= λ fields.
          object_result (get_field (codes "result") fields))
        w t).1.1
      ≡ t.1
unfolding read_message
client-rest id w (s, c) =
    let t : State = (record s { calls = suc s.calls }, c) in
    let line = w.mcp_read s.calls in
    let (r, t') = read_outcome line w t in
    then-client r _ w t' (λ j.
      let (checked, t'') = check_response id j w t' in
      then-client checked _ w t''
        (λ fields. client-object (get_field (codes "result") fields) w t'')
      ∙ client-check id j w t')
    ∙ client-read line w t

sent-write :
    (o : Written) (m : Json) (w : World) (t : State) {u : Unit}
    → (write_outcome m o w t).0 ≡ done u
    → (write_outcome m o w t).1.1.sent ≡ t.1.sent ++ m ∷ []
sent-write written m w t h = refl
sent-write broken_pipe m w t h = cc
sent-write Written.timed_out m w t h = cc
sent-write Written.interrupted m w t h = cc

do_call_tool-sent :
    (tool : Text) (args : Fields) (w : World) (s : System) (c : Client) (result : Fields)
    → (do_call_tool tool args w (s, c)).0 ≡ done result
    → (do_call_tool tool args w (s, c)).1.1.sent
      ≡ c.sent ++ call_request tool args c.next_request_id ∷ []
unfolding do_call_tool write_message
do_call_tool-sent tool args w s c result h =
    let id = c.next_request_id in
    let asked = call_request tool args id in
    let o = w.mcp_write s.calls asked in
    let t : State = (record s { calls = suc s.calls }, record c { next_request_id = suc id }) in
    let t' = (write_outcome asked o w t).1 in
    let (u, wrote, h) = then-eq-done (write_outcome asked o w t).0 _ w t' h in
    rw wrote (ap (λ c. c.sent) (client-rest id w t') ∙ sent-write o asked w t wrote)

timed_call-done :
    (tool : Text) (r : Reply Fields) (w : World) (t : State) {result : Fields}
    → (after_call tool r w t).0 ≡ done result
    → (r ≡ done result) × ((after_call tool r w t).1 ≡ t)
timed_call-done tool (done fs) w t h = (h, refl)
timed_call-done tool (raises timeout) w t h = cc
timed_call-done tool (raises (protocol e)) w t h = cc
timed_call-done tool (raises (escaped e)) w t h = cc

-- A call of a tool that returns a result was made on a connected client; the request was the one message
-- that it sent, and the line that it read was the answer to it: an object with the id of the request,
-- without an error, whose result is what the call returns.
pub call_tool-Answers :
    (tool : Text) (args : Fields) (w : World) (s : System) (c : Client) (result : Fields)
    → (call_tool tool args w (s, c)).0 ≡ done result
    → (is_connected c ≡ true)
      × ((call_tool tool args w (s, c)).1.1.sent
          ≡ c.sent ++ call_request tool args c.next_request_id ∷ [])
      × Answers w (suc s.calls) c.next_request_id result
unfolding call_tool timed_call
call_tool-Answers tool args w s c result h = elim (Bool-cases (is_connected c)) [
  | inl connected ↦
      let h' = rw connected at h in
      let (answered, same) =
        timed_call-done tool (do_call_tool tool args w (s, c)).0 w
          (do_call_tool tool args w (s, c)).1 h' in
      (
        connected,
        rw connected (ap (λ t. t.1.sent) same ∙ do_call_tool-sent tool args w s c result answered),
        do_call_tool-Answers tool args w s c result answered,
      )
  | inr other ↦ absurd (let h' = rw other at h in cc)
]
