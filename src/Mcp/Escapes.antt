-- ===== src/Mcp/Escapes.antt =====
-- The exceptions of the handshake of src/mcp/stdio_client.py that `connect` does not catch.
use the_brain.Text.{codes}
use the_brain.Json.{get_field, Json}
use the_brain.Messages.{Exn}
use the_brain.Mcp.Messages.{
  initialized, has_result, read_outcome, write_outcome, initialize, check_response, read_message,
  write_message, handshake,
}
use the_brain.System.{World}
use the_brain.Prelude.{arith, ◌≡◌, suc, Option, ℕ, refl}
use the_brain.Outside.{
  Written, Line, written, broken_pipe, message, end_of_file, connection_lost, unreadable,
}
use the_brain.Mcp.Client.{Call, State, Reply, done, raises, escaped, then_call, ◌>>=◌, next_id}

-- What makes an exception of the handshake pass the `except` clauses of `connect`: a line that `readline`
-- or the decoding of it refuses, and a cancelled call.
pub data Cut (w : World) : Type 0 where
  refused_line : (n : ℕ) → w.mcp_read n ≡ unreadable → Cut w
  cut_read : (n : ℕ) → w.mcp_read n ≡ Line.interrupted → Cut w
  cut_write : (n : ℕ) (m : Json) → w.mcp_write n m ≡ Written.interrupted → Cut w

pub record Escapes {ℓ} {A : Type ℓ} (w : World) (m : Call A) : Type ℓ where
  pub at : (t : State) (e : Exn) → (m w t).0 ≡ raises (escaped e) → Cut w

module _ {ℓ κ} {A : Type ℓ} {B : Type κ} (w : World) where
  then-Escapes :
      (r : Reply A) (f : A → Call B) (t : State) (e : Exn)
      → (r ≡ raises (escaped e) → Cut w)
      → ((a : A) → Escapes w (f a))
      → (then_call r f w t).0 ≡ raises (escaped e)
      → Cut w
  then-Escapes (done a) f t e h k j = (k a).at t e j
  then-Escapes (raises x) f t e h k j = h cc

  Escapes-bind :
      (m : Call A) (f : A → Call B)
      → Escapes w m
      → ((a : A) → Escapes w (f a))
      → Escapes w (m >>= f)
  Escapes-bind m f h k = record {
    at = λ t e j. let (r, t') = m w t in then-Escapes r f t' e (h.at t e) k j;
  }

module _ (w : World) where
  write_outcome-Escapes :
      (n : ℕ) (m : Json) (o : Written) → w.mcp_write n m ≡ o → Escapes w (write_outcome m o)
  write_outcome-Escapes n m written h = record { at = λ t e j. cc }
  write_outcome-Escapes n m broken_pipe h = record { at = λ t e j. cc }
  write_outcome-Escapes n m Written.timed_out h = record { at = λ t e j. cc }
  write_outcome-Escapes n m Written.interrupted h = record { at = λ t e j. cut_write n m h }

  read_outcome-Escapes : (n : ℕ) (line : Line) → w.mcp_read n ≡ line → Escapes w (read_outcome line)
  read_outcome-Escapes n (message j) h = record { at = λ t e k. cc }
  read_outcome-Escapes n end_of_file h = record { at = λ t e k. cc }
  read_outcome-Escapes n connection_lost h = record { at = λ t e k. cc }
  read_outcome-Escapes n Line.not_json h = record { at = λ t e k. cc }
  read_outcome-Escapes n unreadable h = record { at = λ t e k. refused_line n h }
  read_outcome-Escapes n Line.timed_out h = record { at = λ t e k. cc }
  read_outcome-Escapes n Line.interrupted h = record { at = λ t e k. cut_read n h }

  write_message-Escapes : (m : Json) → Escapes w (write_message m)
  unfolding write_message
  write_message-Escapes m = record {
    at = λ (s, c) e.
        (write_outcome-Escapes s.calls m (w.mcp_write s.calls m) refl).at
          (record s { calls = suc s.calls }, c) e;
  }

  read_message-Escapes : Escapes w read_message
  unfolding read_message
  read_message-Escapes = record {
    at = λ (s, c) e.
        (read_outcome-Escapes s.calls (w.mcp_read s.calls) refl).at
          (record s { calls = suc s.calls }, c) e;
  }

  check_response-Escapes : (id : ℕ) (j : Json) → Escapes w (check_response id j)
  unfolding check_response
  check_response-Escapes id j = record { at = λ t e k. ground arith }

  has_result-Escapes : (o : Option Json) → Escapes w (has_result o)
  has_result-Escapes o = record { at = λ t e k. ground arith }

  pub handshake-Escapes : Escapes w handshake
  unfolding handshake
  handshake-Escapes =
      Escapes-bind w next_id _ (record { at = λ t e j. cc })
        λ id. Escapes-bind w (write_message (initialize id)) _ (write_message-Escapes _) λ _.
          Escapes-bind w read_message _ read_message-Escapes λ response.
            Escapes-bind w (check_response id response) _ (check_response-Escapes id response) λ fs.
              Escapes-bind w (has_result (get_field (codes "result") fs)) _ (has_result-Escapes _)
                λ _. write_message-Escapes initialized
