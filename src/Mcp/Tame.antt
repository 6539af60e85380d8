-- ===== src/Mcp/Tame.antt =====
-- The MCP client where nothing is cancelled: what it raises a handler for `Exception` catches.
use the_brain.Mcp.Session.{
  after_handshake, is_connected, set_process, spawn, call_tool, after_call, timed_call,
  connect_split, connect, connect_from, close,
}
use the_brain.Prelude.{false, ◌≡◌, [], ◌∷◌, none, some, refl}
use the_brain.Outside.{written, broken_pipe, message, end_of_file, connection_lost, unreadable}
use the_brain.Mcp.Messages.{
  initialized, initialize, call_request, read_message, check_response, has_result, do_call_tool,
  object_result, read_outcome, handshake, write_message, write_outcome,
}
use the_brain.Json.{get_field, Json, Fields}
use the_brain.Prelude.Int.{ℤ}
use the_brain.Outside.{
  message, Line, Written, HttpRequest, spawn_interrupted, Communicated, HttpOutcome,
}
use the_brain.Prelude.{inr, inl, suc, Bool-cases, ◌∷◌, some, arith, List, Option, ℕ, ◌≢◌}
use the_brain.Messages.{base_exception}
use the_brain.Text.{codes, Text}
use the_brain.System.{World}
use the_brain.Mcp.Client.{
  Call, State, Reply, done, raises, protocol, timeout, escaped, then_call, ◌>>=◌, next_id,
}

-- No `CancelledError` is raised in a call of the outside.
pub record Uninterrupted (w : World) : Type 0 where
  pub shell_spawn : (n : ℕ) (command : Text) → w.shell_spawn n command ≢ spawn_interrupted
  pub shell_communicate : (n : ℕ) (t : ℤ) → w.shell_communicate n t ≢ Communicated.interrupted
  pub shell_wait : (n : ℕ) → w.wait_interrupted n ≡ false
  pub post : (n : ℕ) (request : HttpRequest) → w.post n request ≢ HttpOutcome.interrupted
  pub write : (n : ℕ) (m : Json) → w.mcp_write n m ≢ Written.interrupted
  pub read : (n : ℕ) → w.mcp_read n ≢ Line.interrupted

-- A call of the client raises no BaseException.
pub record TameCall {ℓ} {A : Type ℓ} (w : World) (m : Call A) : Type ℓ where
  pub at : (t : State) → (m w t).0 ≢ raises (escaped base_exception)

module _ {ℓ κ} {A : Type ℓ} {B : Type κ} (w : World) where
  then-TameCall :
      (r : Reply A) (f : A → Call B) (t : State)
      → r ≢ raises (escaped base_exception)
      → ((a : A) → TameCall w (f a))
      → (then_call r f w t).0 ≢ raises (escaped base_exception)
  then-TameCall (done a) f t h k = (k a).at t
  then-TameCall (raises e) f t h k = λ j. h cc

  TameCall-bind :
      (m : Call A) (f : A → Call B)
      → TameCall w m
      → ((a : A) → TameCall w (f a))
      → TameCall w (m >>= f)
  TameCall-bind m f h k = record {
    at = λ t. let (r, t') = m w t in then-TameCall r f t' (h.at t) k;
  }

write_outcome-TameCall :
    (w : World) (m : Json) (o : Written) → o ≢ Written.interrupted → TameCall w (write_outcome m o)
write_outcome-TameCall w m written h = record { at = λ t k. cc }
write_outcome-TameCall w m broken_pipe h = record { at = λ t k. cc }
write_outcome-TameCall w m Written.timed_out h = record { at = λ t k. cc }
write_outcome-TameCall w m Written.interrupted h = absurd (h refl)

read_outcome-TameCall :
    (w : World) (line : Line) → line ≢ Line.interrupted → TameCall w (read_outcome line)
read_outcome-TameCall w (message j) h = record { at = λ t k. cc }
read_outcome-TameCall w end_of_file h = record { at = λ t k. cc }
read_outcome-TameCall w connection_lost h = record { at = λ t k. cc }
read_outcome-TameCall w Line.not_json h = record { at = λ t k. cc }
read_outcome-TameCall w unreadable h = record { at = λ t k. cc }
read_outcome-TameCall w Line.timed_out h = record { at = λ t k. cc }
read_outcome-TameCall w Line.interrupted h = absurd (h refl)

module _ (w : World) (u : Uninterrupted w) where
  write_message-TameCall : (m : Json) → TameCall w (write_message m)
  unfolding write_message
  write_message-TameCall m = record {
    at = λ (s, c).
        (write_outcome-TameCall w m (w.mcp_write s.calls m) (u.write s.calls m)).at
          (record s { calls = suc s.calls }, c);
  }

  read_message-TameCall : TameCall w read_message
  unfolding read_message
  read_message-TameCall = record {
    at = λ (s, c).
        (read_outcome-TameCall w (w.mcp_read s.calls) (u.read s.calls)).at
          (record s { calls = suc s.calls }, c);
  }

  check_response-TameCall : (id : ℕ) (j : Json) → TameCall w (check_response id j)
  unfolding check_response
  check_response-TameCall id j = record { at = λ t k. ground arith }

  has_result-TameCall : (o : Option Json) → TameCall w (has_result o)
  has_result-TameCall o = record { at = λ t k. ground arith }

  object_result-TameCall : (o : Option Json) → TameCall w (object_result o)
  object_result-TameCall o = record { at = λ t k. ground arith }

  exchange-TameCall :
      {B : Type 0} (m : ℕ → Json) (f : Fields → Call B)
      → ((fs : Fields) → TameCall w (f fs))
      → TameCall w (
          next_id >>= λ id. write_message (m id) >>= λ _.
          read_message >>= λ response. check_response id response >>= f)
  exchange-TameCall m f k =
      TameCall-bind w next_id _ (record { at = λ t j. cc })
        λ id. TameCall-bind w (write_message (m id)) _ (write_message-TameCall (m id)) λ _.
          TameCall-bind w read_message _ read_message-TameCall λ response.
            TameCall-bind w (check_response id response) f (check_response-TameCall id response) k

  handshake-TameCall : TameCall w handshake
  unfolding handshake
  handshake-TameCall =
      exchange-TameCall initialize
        (λ fs. has_result (get_field (codes "result") fs) >>= λ _. write_message initialized)
        λ fs.
          TameCall-bind w (has_result (get_field (codes "result") fs)) _ (has_result-TameCall _)
            λ _. write_message-TameCall initialized

  do_call_tool-TameCall : (tool : Text) (args : Fields) → TameCall w (do_call_tool tool args)
  unfolding do_call_tool
  do_call_tool-TameCall tool args =
      exchange-TameCall (call_request tool args)
        (λ fs. object_result (get_field (codes "result") fs))
        λ fs. object_result-TameCall (get_field (codes "result") fs)

after_handshake-TameCall :
    (w : World) (r : Reply (Unit {0}))
    → r ≢ raises (escaped base_exception)
    → TameCall w (after_handshake r)
unfolding close
after_handshake-TameCall w (done u) h = record { at = λ t k. cc }
after_handshake-TameCall w (raises timeout) h = record { at = λ t k. cc }
after_handshake-TameCall w (raises (protocol e)) h = record { at = λ t k. cc }
after_handshake-TameCall w (raises (escaped e)) h = record { at = λ t k. h cc }

after_call-TameCall :
    (w : World) (tool : Text) (r : Reply Fields)
    → r ≢ raises (escaped base_exception)
    → TameCall w (after_call tool r)
after_call-TameCall w tool (done fs) h = record { at = λ t k. cc }
after_call-TameCall w tool (raises timeout) h = record { at = λ t k. cc }
after_call-TameCall w tool (raises (protocol e)) h = record { at = λ t k. cc }
after_call-TameCall w tool (raises (escaped e)) h = record { at = λ t k. h cc }

module _ (w : World) (u : Uninterrupted w) where
  spawn-TameCall : (argv : List Text) → TameCall w (spawn argv)
  unfolding spawn
  spawn-TameCall argv = record {
    at = λ (s, c). elim (Bool-cases (w.spawn_fails s.calls argv)) [
      | inl fails ↦ rw fails (λ k. cc)
      | inr starts ↦
          let t = (set_process w (s, c)).1 in
          let (r, t') = handshake w t in
          rw starts ((after_handshake-TameCall w r ((handshake-TameCall w u).at t)).at t')
    ];
  }

  split-TameCall : (o : Option (List Text)) → TameCall w (connect_split o)
  unfolding connect_split
  split-TameCall none = record { at = λ t k. cc }
  split-TameCall (some []) = record { at = λ t k. cc }
  split-TameCall (some (a ∷ argv)) = spawn-TameCall (a ∷ argv)

  from-TameCall : (o : Option ℕ) (command : Text) → TameCall w (connect_from o command)
  unfolding connect_from
  from-TameCall (some p) command = record { at = λ t k. cc }
  from-TameCall none command = record { at = (split-TameCall (w.shlex_split command)).at }

  pub connect-TameCall : (command : Text) → TameCall w (connect command)
  unfolding connect
  connect-TameCall command = record { at = λ (s, c). (from-TameCall c.process command).at (s, c) }

  timed_call-TameCall : (tool : Text) (args : Fields) → TameCall w (timed_call tool args)
  unfolding timed_call
  timed_call-TameCall tool args = record {
    at = λ t.
        let (r, t') = do_call_tool tool args w t in
        (after_call-TameCall w tool r ((do_call_tool-TameCall w u tool args).at t)).at t';
  }

  pub call_tool-TameCall : (tool : Text) (args : Fields) → TameCall w (call_tool tool args)
  unfolding call_tool
  call_tool-TameCall tool args = record {
    at = λ (s, c). elim (Bool-cases (is_connected c)) [
      | inl connected ↦ rw connected ((timed_call-TameCall tool args).at (s, c))
      | inr other ↦ rw other (λ k. cc)
    ];
  }
