-- ===== src/Mcp/Client.antt =====
-- `StdioMcpClient` of src/mcp/stdio_client.py: its attributes, and the monad of its methods.
use the_brain.Prelude.{ℕ, suc, Bool, false, Option, none, List, [], nat_eq}
use the_brain.Json.{Json}
use the_brain.Messages.{McpError, Exn}
use the_brain.System.{World, System}

-- The attributes of a client that its calls read: the child process by its number, the next request id,
-- and whether the handshake is done. `sent` are the messages that were written to the server.
pub record Client : Type 0 where
  pub process : Option ℕ
  pub next_request_id : ℕ
  pub handshake_done : Bool
  pub sent : List Json

-- `__init__`
abbrev pub new_client : Client
new_client = record { process = none; next_request_id = 1; handshake_done = false; sent = [] }

-- What a method raises: a `McpProtocolError`, the `TimeoutError` of `wait_for`, or anything else.
pub data Raised : Type 0 where
  protocol : McpError → Raised
  timeout : Raised
  escaped : Exn → Raised

pub data Reply {ℓ} (A : Type ℓ) : Type ℓ where
  done : A → Reply A
  raises : Raised → Reply A

abbrev pub State : Type 0
State = System × Client

abbrev pub Call {ℓ} : Type ℓ → Type ℓ
Call A = World → State → Reply A × State

module _ {ℓ} {A : Type ℓ} where
  abbrev pub return : A → Call A
  return a w s = (done a, s)

  abbrev pub fail : Raised → Call A
  fail e w s = (raises e, s)

module _ {ℓ κ} {A : Type ℓ} {B : Type κ} where
  abbrev pub then_call : Reply A → (A → Call B) → World → State → Reply B × State
  then_call (done a) f w s = f a w s
  then_call (raises e) f w s = (raises e, s)

  infixl 5 ◌>>=◌
  abbrev pub ◌>>=◌ : Call A → (A → Call B) → Call B
  ◌>>=◌ m f w s = let (r, s') = m w s in then_call r f w s'

infixl 5 ◌>>◌
abbrev pub ◌>>◌ {ℓ κ} : {A : Type ℓ} {B : Type κ} → Call A → Call B → Call B
m >> k = m >>= λ _. k

-- A call of the outside.
abbrev pub ask_outside {ℓ} : {A : Type ℓ} → (World → ℕ → A) → Call A
ask_outside f w (s, c) = (done (f w s.calls), (record s { calls = suc s.calls }, c))

-- `_next_id`
abbrev pub next_id : Call ℕ
next_id w (s, c) =
    (done c.next_request_id, (s, record c { next_request_id = suc c.next_request_id }))
