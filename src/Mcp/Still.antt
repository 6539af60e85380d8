-- ===== src/Mcp/Still.antt =====
-- The calls of src/mcp/stdio_client.py that start and reap no process.
use the_brain.Messages.{not_connected}
use the_brain.Prelude.{
  ◌≤◌, refl, ◌≡◌, ◌∙◌, ℕ, Bool, true, false, Option, none, some, arith, nat_eq, if◌then◌else◌,
}
use the_brain.Text.{Text}
use the_brain.Json.{Json, Fields}
use the_brain.System.{World}
use the_brain.Mcp.Client.{
  Client, State, Call, Reply, done, raises, Raised, protocol, timeout, escaped, fail, then_call,
  ◌>>=◌, next_id,
}
use the_brain.Text.{codes}
use the_brain.Json.{get_field}
use the_brain.Mcp.Messages.{
  initialize, initialized, has_result, object_result, call_request, has_result, object_result,
  write_message, read_message, check_response, handshake, do_call_tool,
}
use the_brain.Mcp.Session.{is_connected, timed_call, after_call, call_tool}

-- A call starts and reaps no process, leaves the tables alone and does not count calls back.
pub record Still {ℓ} {A : Type ℓ} (m : Call A) : Type ℓ where
  pub processes : (w : World) (t : State) → (m w t).1.0.processes ≡ t.0.processes
  pub process : (w : World) (t : State) → (m w t).1.1.process ≡ t.1.process
  pub db : (w : World) (t : State) → (m w t).1.0.db ≡ t.0.db
  pub calls : (w : World) (t : State) → t.0.calls ≤ (m w t).1.0.calls

module _ {ℓ κ} {A : Type ℓ} {B : Type κ} where
  then-Still :
      (r : Reply A) (f : A → Call B) (w : World) (t : State)
      → ((a : A) → Still (f a))
      → ((then_call r f w t).1.0.processes ≡ t.0.processes)
        × ((then_call r f w t).1.1.process ≡ t.1.process)
        × ((then_call r f w t).1.0.db ≡ t.0.db)
        × (t.0.calls ≤ (then_call r f w t).1.0.calls)
  then-Still (done a) f w t k =
      ((k a).processes w t, (k a).process w t, (k a).db w t, (k a).calls w t)
  then-Still (raises e) f w t k = (refl, refl, refl, omega arith)

  pub Still-bind :
      (m : Call A) (f : A → Call B) → Still m → ((a : A) → Still (f a)) → Still (m >>= f)
  Still-bind m f h k = record {
    processes = λ w t. let (r, t') = m w t in (then-Still r f w t' k).0 ∙ h.processes w t;
    process = λ w t. let (r, t') = m w t in (then-Still r f w t' k).1 ∙ h.process w t;
    db = λ w t. let (r, t') = m w t in (then-Still r f w t' k).2 ∙ h.db w t;
    calls = λ w t.
        let first = h.calls w t in
        let (r, t') = m w t in let rest = (then-Still r f w t' k).3 in omega arith;
  }

pub write_message-Still : (m : Json) → Still (write_message m)
unfolding write_message
write_message-Still m = record {
  processes = λ w t. ground arith;
  process = λ w t. ground arith;
  db = λ w t. ground arith;
  calls = λ w t. ground arith;
}

read_message-Still : Still read_message
unfolding read_message
read_message-Still = record {
  processes = λ w t. ground arith;
  process = λ w t. ground arith;
  db = λ w t. ground arith;
  calls = λ w t. ground arith;
}

check_response-Still : (id : ℕ) (j : Json) → Still (check_response id j)
unfolding check_response
check_response-Still id j = record {
  processes = λ w t. ground arith;
  process = λ w t. ground arith;
  db = λ w t. ground arith;
  calls = λ w t. ground arith;
}

has_result-Still : (o : Option Json) → Still (has_result o)
has_result-Still none = record {
  processes = λ w t. refl;
  process = λ w t. refl;
  db = λ w t. refl;
  calls = λ w t. omega arith;
}
has_result-Still (some j) = record {
  processes = λ w t. refl;
  process = λ w t. refl;
  db = λ w t. refl;
  calls = λ w t. omega arith;
}

object_result-Still : (o : Option Json) → Still (object_result o)
object_result-Still o = record {
  processes = λ w t. ground arith;
  process = λ w t. ground arith;
  db = λ w t. ground arith;
  calls = λ w t. ground arith;
}

next_id-Still : Still next_id
next_id-Still = record {
  processes = λ w t. refl;
  process = λ w t. refl;
  db = λ w t. refl;
  calls = λ w t. omega arith;
}

-- A request and its answer.
exchange-Still :
    {B : Type 0} (m : ℕ → Json) (f : ℕ → Fields → Call B)
    → ((id : ℕ) (fs : Fields) → Still (f id fs))
    → Still (
        next_id >>= λ id. write_message (m id) >>= λ _.
        read_message >>= λ response. check_response id response >>= λ fs. f id fs)
exchange-Still m f k = Still-bind next_id _ next_id-Still λ id.
    Still-bind (write_message (m id)) _ (write_message-Still (m id)) λ _.
      Still-bind read_message _ read_message-Still λ response.
        Still-bind (check_response id response) _ (check_response-Still id response) (k id)

pub handshake-Still : Still handshake
unfolding handshake
handshake-Still =
    exchange-Still initialize
      (λ _ fs. has_result (get_field (codes "result") fs) >>= λ _. write_message initialized)
      λ id fs.
        Still-bind (has_result (get_field (codes "result") fs)) (λ _. write_message initialized)
          (has_result-Still (get_field (codes "result") fs)) λ _. write_message-Still initialized

pub do_call_tool-Still : (tool : Text) (args : Fields) → Still (do_call_tool tool args)
unfolding do_call_tool
do_call_tool-Still tool args =
    exchange-Still (call_request tool args) (λ _ fs. object_result (get_field (codes "result") fs))
      λ id fs. object_result-Still (get_field (codes "result") fs)

after_call-Still :
    (tool : Text) (r : Reply Fields) (w : World) (t : State)
    → ((after_call tool r w t).1.0.processes ≡ t.0.processes)
      × ((after_call tool r w t).1.1.process ≡ t.1.process)
      × ((after_call tool r w t).1.0.db ≡ t.0.db)
      × (t.0.calls ≤ (after_call tool r w t).1.0.calls)
after_call-Still tool (raises timeout) w t = (refl, refl, refl, omega arith)
after_call-Still tool (raises (protocol e)) w t = (refl, refl, refl, omega arith)
after_call-Still tool (raises (escaped e)) w t = (refl, refl, refl, omega arith)
after_call-Still tool (done fs) w t = (refl, refl, refl, omega arith)

timed_call-Still : (tool : Text) (args : Fields) → Still (timed_call tool args)
unfolding timed_call
timed_call-Still tool args =
    let still = do_call_tool-Still tool args in
    record {
      processes = λ w t.
          let (r, t') = do_call_tool tool args w t in
          (after_call-Still tool r w t').0 ∙ still.processes w t;
      process = λ w t.
          let (r, t') = do_call_tool tool args w t in
          (after_call-Still tool r w t').1 ∙ still.process w t;
      db = λ w t.
          let (r, t') = do_call_tool tool args w t in
          (after_call-Still tool r w t').2 ∙ still.db w t;
      calls = λ w t.
          let first = still.calls w t in
          let (r, t') = do_call_tool tool args w t in
          let rest = (after_call-Still tool r w t').3 in omega arith;
    }

Still-if : {A : Type 0} (b : Bool) (m n : Call A) → Still m → Still n → Still (if b then m else n)
Still-if true m n h k = h
Still-if false m n h k = k

Still-fail : {A : Type 0} (e : Raised) → Still (fail {A = A} e)
Still-fail e = record {
  processes = λ w t. refl;
  process = λ w t. refl;
  db = λ w t. refl;
  calls = λ w t. omega arith;
}

pub call_tool-Still : (tool : Text) (args : Fields) → Still (call_tool tool args)
unfolding call_tool
call_tool-Still tool args =
    let still : (c : Client)
        → Still (if is_connected c then timed_call tool args else fail (protocol not_connected)) =
      λ c.
        Still-if (is_connected c) (timed_call tool args) (fail (protocol not_connected))
          (timed_call-Still tool args) (Still-fail (protocol not_connected)) in
    record {
      processes = λ w (s, c). (still c).processes w (s, c);
      process = λ w (s, c). (still c).process w (s, c);
      db = λ w (s, c). (still c).db w (s, c);
      calls = λ w (s, c). (still c).calls w (s, c);
    }
