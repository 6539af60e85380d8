-- ===== src/Mcp/Life.antt =====
-- The child process of a client: `connect` and `close` of src/mcp/stdio_client.py.
use the_brain.Mcp.Escapes.{Cut, handshake-Escapes}
use the_brain.Messages.{Exn, handshake_timeout, McpError}
use the_brain.Prelude.{
  keep_fresh, ◌≤◌, ◌⊎◌, refl, ◌≡◌, ◌∙◌, ℕ, ◌++◌, true, false, Option, none, some, List, [], ◌∷◌,
  any, arith, ◌==◌, nat_eq, Bool-cases, inl, inr,
}
use the_brain.Text.{Text}
use the_brain.System.{World, System}
use the_brain.Mcp.Client.{Client, State, Reply, done, raises, protocol, timeout, escaped}
use the_brain.Mcp.Messages.{handshake}
use the_brain.Mcp.Session.{
  connect_split, connect_from, set_process, close_and_fail, spawn, after_handshake, connect, close,
}
use the_brain.Mcp.Still.{handshake-Still}

-- How `connect` may leave a client that had no process, and the child processes `ps`: it holds the new
-- process `p` and has shaken hands, or it has raised a `McpProtocolError` and `p` is reaped. An exception
-- of another kind may leave a process behind only where the handshake was cut.
abbrev pub Ended : World → ℕ → List ℕ → Reply (Unit {0}) × State → Type 0
Ended w p ps (done u, (s, c)) =
    (s.processes ≡ ps ++ p ∷ []) × (c.process ≡ some p) × (c.handshake_done ≡ true)
Ended w p ps (raises (protocol e), (s, c)) = (s.processes ≡ ps) × (c.process ≡ none)
Ended w p ps (raises timeout, t) = ⊥
Ended w p ps (raises (escaped e), (s, c)) = (s.processes ≡ ps) ⊎ Cut w

pub closes :
    (p : ℕ) (ps : List ℕ) (w : World) (t : State)
    → any (λ q. q == p) ps ≡ false
    → t.0.processes ≡ ps ++ p ∷ []
    → t.1.process ≡ some p
    → (close w t).1.0.processes ≡ ps
unfolding close
closes p ps w (s, c) fresh started held = rw (held, started) (keep_fresh p ps fresh)

closed :
    (p : ℕ) (ps : List ℕ) (e : McpError) (w : World) (t : State)
    → any (λ q. q == p) ps ≡ false
    → t.0.processes ≡ ps ++ p ∷ []
    → t.1.process ≡ some p
    → Ended w p ps (close_and_fail (protocol e) w t)
unfolding close
closed p ps e w t fresh started held = (closes p ps w t fresh started held, refl)

after_handshake-Ended :
    (r : Reply (Unit {0})) (p : ℕ) (ps : List ℕ) (w : World) (t : State)
    → any (λ q. q == p) ps ≡ false
    → t.0.processes ≡ ps ++ p ∷ []
    → t.1.process ≡ some p
    → ((e : Exn) → r ≡ raises (escaped e) → Cut w)
    → Ended w p ps (after_handshake r w t)
after_handshake-Ended (done u) p ps w (s, c) fresh started held cut = (started, held, refl)
after_handshake-Ended (raises timeout) p ps w t fresh started held cut =
    closed p ps handshake_timeout w t fresh started held
after_handshake-Ended (raises (protocol e)) p ps w t fresh started held cut =
    closed p ps e w t fresh started held
after_handshake-Ended (raises (escaped e)) p ps w (s, c) fresh started held cut = inr (cut e refl)

spawn-Ended :
    (argv : List Text) (w : World) (s : System) (c : Client)
    → c.process ≡ none
    → any (λ q. q == s.calls) s.processes ≡ false
    → Ended w s.calls s.processes (spawn argv w (s, c))
unfolding spawn
spawn-Ended argv w s c unconnected fresh = elim (Bool-cases (w.spawn_fails s.calls argv)) [
  | inl fails ↦ rw fails (refl, unconnected)
  | inr starts ↦
      let t = (set_process w (s, c)).1 in
      let (r, t') = handshake w t in
      rw starts (
        after_handshake-Ended r s.calls s.processes w t' fresh (handshake-Still.processes w t)
          (handshake-Still.process w t) ((handshake-Escapes w).at t))
]

module _ (w : World) (s : System) (c : Client) (unconnected : c.process ≡ none)
    (fresh : any (λ q. q == s.calls) s.processes ≡ false) where
  split-Ended : (o : Option (List Text)) → Ended w s.calls s.processes (connect_split o w (s, c))
  unfolding connect_split
  split-Ended none = inl refl
  split-Ended (some []) = (refl, unconnected)
  split-Ended (some (a ∷ argv)) = spawn-Ended (a ∷ argv) w s c unconnected fresh

  from-Ended :
      (o : Option ℕ) (command : Text)
      → o ≡ none
      → Ended w s.calls s.processes (connect_from o command w (s, c))
  unfolding connect_from
  from-Ended (some p) command h = cc
  from-Ended none command h = split-Ended (w.shlex_split command)

  pub connect-Ended : (command : Text) → Ended w s.calls s.processes (connect command w (s, c))
  unfolding connect
  connect-Ended command = from-Ended c.process command unconnected

-- Connecting leaves the tables alone and counts calls up.
abbrev Onward : State → State → Type 0
Onward t t' = (t'.0.db ≡ t.0.db) × (t.0.calls ≤ t'.0.calls)

after_handshake-Onward :
    (r : Reply (Unit {0})) (w : World) (t : State) → Onward t (after_handshake r w t).1
unfolding close
after_handshake-Onward (done u) w t = (refl, omega arith)
after_handshake-Onward (raises timeout) w t = (refl, omega arith)
after_handshake-Onward (raises (protocol e)) w t = (refl, omega arith)
after_handshake-Onward (raises (escaped e)) w t = (refl, omega arith)

spawn-Onward : (argv : List Text) (w : World) (t : State) → Onward t (spawn argv w t).1
unfolding spawn
spawn-Onward argv w (s, c) = elim (Bool-cases (w.spawn_fails s.calls argv)) [
  | inl fails ↦ rw fails (refl, omega arith)
  | inr starts ↦
      let t = (set_process w (s, c)).1 in
      let kept = handshake-Still.db w t in
      let counted = handshake-Still.calls w t in
      let (r, t') = handshake w t in
      let (same, more) = after_handshake-Onward r w t' in rw starts (same ∙ kept, omega arith)
]

split-Onward : (o : Option (List Text)) (w : World) (t : State) → Onward t (connect_split o w t).1
unfolding connect_split
split-Onward none w t = (refl, omega arith)
split-Onward (some []) w t = (refl, omega arith)
split-Onward (some (a ∷ argv)) w t = spawn-Onward (a ∷ argv) w t

from-Onward :
    (o : Option ℕ) (command : Text) (w : World) (t : State)
    → Onward t (connect_from o command w t).1
unfolding connect_from
from-Onward (some p) command w t = (refl, omega arith)
from-Onward none command w t = split-Onward (w.shlex_split command) w t

pub connect-Onward : (command : Text) (w : World) (t : State) → Onward t (connect command w t).1
unfolding connect
connect-Onward command w t = from-Onward t.1.process command w t
