-- ===== src/System.antt =====
-- The state of a process of the program, what surrounds it, and the monad of calls that change the
-- state and may raise.
pub mod Quiet
pub mod Keeps
pub mod Returns
pub mod Tame
pub mod Relates
use the_brain.Prelude.{
  ◌≡◌, refl, ℕ, suc, Bool, true, false, Option, none, some, List, if◌then◌else◌,
}
use the_brain.Text.{Text}
use the_brain.Json.{Json}
use the_brain.Messages.{
  WorkflowLoadError, load_error, Exn, database_error, unique_violation, is_exception,
}
use the_brain.Workflow.Models.{Workflow}
use the_brain.Prelude.Int.{ℤ}
use the_brain.Outside.{Spawned, Communicated, HttpRequest, HttpOutcome, Written, Line}
use the_brain.Database.{Database}
use the_brain.Dict.{Dict}

-- How executing a workflow file ends, and what its `workflow` variable is.
pub data Executed : Type 0 where
  raised : Executed
  exited : Executed
  no_attribute : Executed
  other_object : Executed
  defines : Workflow → Executed

-- How `json.loads` ends: with a value, a `JSONDecodeError`, or the `RecursionError` of deep nesting.
pub data Loads : Type 0 where
  parsed : Json → Loads
  not_json : Loads
  too_deep : Loads

-- A started watchdog observer: the events its handler was made for.
pub record Observer : Type 0 where
  pub number : ℕ
  pub watched_events : List Text

-- The surroundings. Calls of the outside are numbered: a function of the number says what the call
-- with this number answers.
pub record World : Type 0 where
  -- psycopg: whether the statement fails (connection lost, ...).
  pub db_raises : ℕ → Bool
  -- The collation of the database: whether the first text does not come behind the second.
  pub collates : Text → Text → Bool
  -- `datetime.now(UTC)`
  pub now : ℕ → ℕ
  -- `uuid4()`
  pub uuid4 : ℕ → ℕ
  -- `socket.gethostname()`
  pub hostname : Text
  -- `Path(p).expanduser().resolve()`: `none` where that raises `RuntimeError`.
  pub resolve_path : ℕ → Text → Option Text
  pub is_file : ℕ → Text → Bool
  pub is_dir : ℕ → Text → Bool
  pub path_exists : ℕ → Text → Bool
  -- `secrets.token_urlsafe(32)`
  pub token_urlsafe : ℕ → Text
  -- importlib: whether there is a spec with a loader, and what executing the module does.
  pub has_loader : ℕ → Text → Bool
  pub exec_module : ℕ → Text → Executed
  -- croniter: whether it accepts the expression, and the first fire time after a moment.
  pub cron_accepts : Text → Bool
  pub cron_next : Text → ℕ → Option ℕ
  -- `json.dumps(body, sort_keys=True, separators=(",", ":"))`
  pub dumps_sorted : Json → Text
  -- `json.loads`
  pub loads : Text → Loads
  -- `bytes.decode("utf-8")`: `none` where that raises `UnicodeDecodeError`.
  pub decode_utf8 : List ℕ → Option Text
  -- `hmac.new(secret.encode("utf-8"), body, hashlib.sha256).digest()`
  pub hmac_sha256 : Text → List ℕ → List ℕ
  -- `time.monotonic()`, in milliseconds.
  pub monotonic : ℕ → ℕ
  -- `str(Path(p).resolve())`
  pub absolute : ℕ → Text → Text
  -- `create_subprocess_shell`, `communicate` with the timeout in seconds, whether `kill` finds that the
  -- process has ended, and whether `wait` is cancelled.
  pub shell_spawn : ℕ → Text → Spawned
  pub shell_communicate : ℕ → ℤ → Communicated
  pub shell_gone : ℕ → Bool
  pub wait_interrupted : ℕ → Bool
  -- httpx: a POST.
  pub post : ℕ → HttpRequest → HttpOutcome
  -- `shlex.split`: `none` where that raises a `ValueError`.
  pub shlex_split : Text → Option (List Text)
  -- `create_subprocess_exec`: whether it raises an `OSError`.
  pub spawn_fails : ℕ → List Text → Bool
  pub mcp_write : ℕ → Json → Written
  pub mcp_read : ℕ → Line
  -- `json.dumps(value, separators=(",", ":"))`
  pub dumps : Json → Text
  -- Whether a literal that is no integer equals a number in Python.
  pub real_equals : Text → ℕ → Bool
  -- The names of `MIGRATIONS_DIR.glob("*.sql")`, sorted, and whether a script fails.
  pub migration_files : ℕ → List Text
  pub migration_fails : ℕ → Text → Bool
  -- watchdog: whether scheduling or starting an observer raises.
  pub observer_fails : ℕ → Bool
  -- psycopg_pool: whether opening or closing a pool raises.
  pub open_raises : ℕ → Bool
  pub close_raises : ℕ → Bool

-- `calls` counts the calls of the outside, `modules` is `sys.modules`; `last_fire` and `live` are the
-- dictionaries of the watcher daemon. An observer runs as long as it is in `live`.
-- `processes` holds the child processes that were started and not yet reaped.
pub record System : Type 0 where
  pub db : Database
  pub calls : ℕ
  pub modules : List Text
  pub last_fire : Dict (Text × Text) ℕ
  pub live : Dict (Text × Text) Observer
  pub processes : List ℕ
  -- The processes that were sent a SIGKILL.
  pub killed : List ℕ
  -- `_pool` of src/db.py by its number, and the pools that are open.
  pub pool : Option ℕ
  pub open_pools : List ℕ

pub data Result {ℓ} (A : Type ℓ) : Type ℓ where
  ok : A → Result A
  raise : Exn → Result A

abbrev pub Exec {ℓ} : Type ℓ → Type ℓ
Exec A = World → System → Result A × System

module _ {ℓ} {A : Type ℓ} where
  abbrev pub pure : A → Exec A
  pure a w s = (ok a, s)

  abbrev pub throw : Exn → Exec A
  throw e w s = (raise e, s)

  -- A call of the outside.
  abbrev pub ask : (World → ℕ → A) → Exec A
  ask f w s = (ok (f w s.calls), record s { calls = suc s.calls })

  abbrev pub catch_result : Result A → (Exn → Exec A) → World → System → Result A × System
  catch_result (ok a) h w s = (ok a, s)
  catch_result (raise e) h w s = if is_exception e then h e w s else (raise e, s)

  -- `try: m except Exception as e: h(e)`
  abbrev pub try_except : Exec A → (Exn → Exec A) → Exec A
  try_except m h w s = let (r, s') = m w s in catch_result r h w s'

  abbrev pub catch_load :
      Result A → (WorkflowLoadError → Exec A) → World → System → Result A × System
  catch_load (raise (load_error e)) h w s = h e w s
  catch_load r h w s = (r, s)

  -- `try: m except WorkflowLoadError as e: h(e)`
  abbrev pub try_load : Exec A → (WorkflowLoadError → Exec A) → Exec A
  try_load m h w s = let (r, s') = m w s in catch_load r h w s'

module _ {ℓ κ} {A : Type ℓ} {B : Type κ} where
  abbrev pub continue : Result A → (A → Exec B) → World → System → Result B × System
  continue (ok a) f w s = f a w s
  continue (raise e) f w s = (raise e, s)

  infixl 5 ◌>>=◌
  abbrev pub ◌>>=◌ : Exec A → (A → Exec B) → Exec B
  ◌>>=◌ m f w s = let (r, s') = m w s in continue r f w s'

pub ok-injective {ℓ} : {A : Type ℓ} {a b : A} → ok a ≡ ok b → a ≡ b
ok-injective h = cc

module _ {ℓ κ} {A : Type ℓ} {B : Type κ} where
  -- A call that returned went through its first part, and ended as the rest did.
  abbrev pub WentOn : Exec A → (A → Exec B) → World → System → B → Type (ℓ ⊔ κ)
  WentOn m f w s b =
      (a : A) × ((m w s).0 ≡ ok a)
      × ((f a w (m w s).1).0 ≡ ok b)
      × ((m >>= f) w s ≡ f a w (m w s).1)

  continue-eq-ok :
      (r : Result A) (f : A → Exec B) (w : World) (s : System) {b : B}
      → (continue r f w s).0 ≡ ok b
      → (a : A) × (r ≡ ok a) × ((f a w s).0 ≡ ok b) × (continue r f w s ≡ f a w s)
  continue-eq-ok (ok a) f w s h = (a, refl, h, refl)
  continue-eq-ok (raise e) f w s h = cc

  pub >>=-eq-ok :
      (m : Exec A) (f : A → Exec B) (w : World) (s : System) {b : B}
      → ((m >>= f) w s).0 ≡ ok b
      → WentOn m f w s b
  >>=-eq-ok m f w s h = let (r, s') = m w s in continue-eq-ok r f w s' h

infixl 5 ◌>>◌
abbrev pub ◌>>◌ {ℓ κ} : {A : Type ℓ} {B : Type κ} → Exec A → Exec B → Exec B
m >> k = m >>= λ _. k

abbrev pub raise_unless : Bool → Exn → Exec (Unit {0})
raise_unless true e = pure tt
raise_unless false e = throw e

abbrev pub or_raise {ℓ} : {A : Type ℓ} → Option A → Exn → Exec A
or_raise (some a) e = pure a
or_raise none e = throw e

-- `execute_query` of src/db.py: the statement is committed and its row count returned, or nothing
-- is changed and the call raises. A statement that breaks a UNIQUE constraint is `none`.
module _ (statement : Database → Option (Database × ℕ)) where
  abbrev pub committed : Option (Database × ℕ) → System → Result ℕ × System
  committed none s = (raise unique_violation, s)
  committed (some (d, n)) s = (ok n, record s { db = d })

  unfoldable pub execute_query : Exec ℕ
  execute_query w s =
      let s' : System = record s { calls = suc s.calls } in
      if w.db_raises s.calls then (raise database_error, s') else committed (statement s.db) s'

-- `fetch_one` and `fetch_all` of src/db.py.
unfoldable pub fetch {ℓ} : {A : Type ℓ} → (Database → A) → Exec A
fetch query w s =
    let s' : System = record s { calls = suc s.calls } in
    if w.db_raises s.calls then (raise database_error, s') else (ok (query s.db), s')
