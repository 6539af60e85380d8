-- ===== src/Mcp/Session.antt =====
-- `connect`, `close` and `call_tool` of src/mcp/stdio_client.py. The call lock is not modelled: a
-- client makes one call at a time.
use the_brain.Prelude.{
  ℕ, suc, Bool, true, false, not, Option, none, some, List, [], ◌∷◌, ◌++◌, ◌==◌, nat_eq, keep,
  if◌then◌else◌,
}
use the_brain.Text.{Text}
use the_brain.Json.{Fields}
use the_brain.Messages.{
  other_exception, already_connected, empty_command, spawn_failed, handshake_timeout, not_connected,
  call_timeout,
}
use the_brain.Mcp.Client.{
  Client, Call, Reply, done, raises, Raised, protocol, timeout, escaped, return, fail, ◌>>◌,
}
use the_brain.Mcp.Messages.{handshake, do_call_tool}

abbrev pub reaped : Option ℕ → List ℕ → List ℕ
reaped none ps = ps
reaped (some p) ps = keep (λ q. not (q == p)) ps

-- `close`
unfoldable pub close : Call (Unit {0})
close w (s, c) =
    (done tt, (record s { processes = reaped c.process s.processes }, record c { process = none }))

abbrev pub close_and_fail : Raised → Call (Unit {0})
close_and_fail e = close >> fail e

abbrev pub mark_done : Call (Unit {0})
mark_done w (s, c) = (done tt, (s, record c { handshake_done = true }))

-- The `except` clauses of `connect`, and the line behind them.
abbrev pub after_handshake : Reply (Unit {0}) → Call (Unit {0})
after_handshake (done u) = mark_done
after_handshake (raises timeout) = close_and_fail (protocol handshake_timeout)
after_handshake (raises (protocol e)) = close_and_fail (protocol e)
after_handshake (raises (escaped e)) = fail (escaped e)

abbrev pub shake_hands : Call (Unit {0})
unfolding handshake close
shake_hands w s = let (r, s') = handshake w s in after_handshake r w s'

abbrev pub set_process : Call (Unit {0})
set_process w (s, c) = (
  done tt,
  (
    record s { calls = suc s.calls; processes = s.processes ++ s.calls ∷ [] },
    record c { process = some s.calls },
  ),
)

unfoldable pub spawn : List Text → Call (Unit {0})
unfolding shake_hands
spawn argv w (s, c) =
    (if w.spawn_fails s.calls argv
        then fail (protocol spawn_failed)
        else (set_process >> shake_hands))
      w (s, c)

unfoldable pub connect_split : Option (List Text) → Call (Unit {0})
unfolding spawn
connect_split none = fail (escaped other_exception)
connect_split (some []) = fail (protocol empty_command)
connect_split (some (a ∷ argv)) = spawn (a ∷ argv)

unfoldable pub connect_from : Option ℕ → Text → Call (Unit {0})
unfolding connect_split
connect_from (some p) command = fail (protocol already_connected)
connect_from none command = λ w s. connect_split (w.shlex_split command) w s

-- `connect`
unfoldable pub connect : Text → Call (Unit {0})
unfolding connect_from
connect command w (s, c) = connect_from c.process command w (s, c)

abbrev pub is_connected : Client → Bool
is_connected c = elim c.process [ none ↦ false | some p ↦ c.handshake_done ]

abbrev pub after_call : Text → Reply Fields → Call Fields
after_call tool (raises timeout) = fail (protocol (call_timeout tool))
after_call tool (raises (protocol e)) = fail (protocol e)
after_call tool (raises (escaped e)) = fail (escaped e)
after_call tool (done fs) = return fs

unfoldable pub timed_call : Text → Fields → Call Fields
unfolding do_call_tool
timed_call tool args w s = let (r, s') = do_call_tool tool args w s in after_call tool r w s'

-- `call_tool`
unfoldable pub call_tool : Text → Fields → Call Fields
unfolding timed_call
call_tool tool args w (s, c) =
    (if is_connected c then timed_call tool args else fail (protocol not_connected)) w (s, c)
