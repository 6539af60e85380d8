-- ===== src/Diagnose.antt =====
-- src/diagnose.py: the diagnostic bundle. The wording of its fixed texts is not modelled.
pub mod Redaction
pub mod Bundle
pub mod Texts
use the_brain.Prelude.{
  ℕ, Bool, true, false, not, is_empty, Option, none, some, List, [], ◌∷◌, ◌++◌, if◌then◌else◌,
}
use the_brain.Text.{Text, text_eq, codes}
use the_brain.Dict.{Dict, lookup}
use the_brain.Messages.{Exn}
use the_brain.System.{World, System, Exec, Result, ok, raise, pure, try_except, ◌>>=◌}
use the_brain.Cli.Reports.{StatusReport, status}

-- `_ENV_ALLOWLIST`
abbrev pub env_allowlist : List Text
env_allowlist =
    codes "DB_HOST"
    ∷ codes "DB_PORT"
    ∷ codes "DB_USER"
    ∷ codes "DB_NAME"
    ∷ codes "LOG_LEVEL"
    ∷ codes "LOG_FORMAT"
    ∷ codes "LLM_BASE_URL"
    ∷ codes "LLM_MODEL"
    ∷ codes "MEMORY_VAULT_URL"
    ∷ []

-- `_ENV_PRESENCE_ONLY`
abbrev pub env_presence_only : List Text
env_presence_only =
    codes "DB_PASSWORD"
    ∷ codes "LLM_API_KEY"
    ∷ codes "MEMORY_VAULT_TOKEN"
    ∷ codes "THE_BRAIN_API_TOKEN"
    ∷ []

abbrev pub Environ : Type 0
Environ = Dict Text Text

abbrev pub captured_as : Text → Option Text → Dict Text Text → Dict Text Text
captured_as name none rest = rest
captured_as name (some value) rest = (name, value) ∷ rest

-- The first loop of `_env_snapshot`.
unfoldable pub captured_values : Environ → List Text → Dict Text Text
captured_values environ [] = []
captured_values environ (name ∷ names) =
    captured_as name (lookup name environ) (captured_values environ names)

-- `os.environ.get(name)` as a condition.
abbrev pub is_truthy : Option Text → Bool
is_truthy none = false
is_truthy (some value) = not (is_empty value)

-- The second loop of `_env_snapshot`.
unfoldable pub redacted_fields : Environ → List Text → List Text
redacted_fields environ [] = []
redacted_fields environ (name ∷ names) =
    let rest = redacted_fields environ names in
    if is_truthy (lookup name environ) then name ∷ rest else rest

-- `_env_snapshot`
unfoldable pub env_snapshot : Environ → Dict Text Text × List Text
unfolding captured_values redacted_fields
env_snapshot environ =
    (captured_values environ env_allowlist, redacted_fields environ env_presence_only)

-- How `subprocess.run` of a command ends: `FileNotFoundError`, `TimeoutExpired`, another exception (such
-- as the `UnicodeDecodeError` of its output), or the exit code and the two outputs.
pub data Captured : Type 0 where
  not_found : Captured
  timed_out : Captured
  raised : Exn → Captured
  completed : ℕ → Text → Text → Captured

-- What the bundle takes from the machine: the environment, whether there is a docker on the PATH, how the
-- commands end, `platform.uname()`, `importlib.metadata`, and what opening the zip, writing a file of it
-- and closing it raise.
pub record Machine : Type 0 where
  pub environ : Environ
  pub docker_available : Bool
  pub run_capture : List Text → Captured
  pub os_info : Text
  pub brain_version : Option Text
  pub zip_open : Option Exn
  pub zip_write : Text → Option Exn
  pub zip_close : Option Exn

-- The content of a file of the bundle.
pub data Content : Type 0 where
  mode : Bool → Content
  redacted_doc : List Text → Content
  environment : Dict Text Text → List Text → Content
  os : Text → Content
  version : Option Text → Content
  status_shown : StatusReport → Content
  status_raised : Exn → Content
  command : Captured → Content
  docker_skipped : Content

abbrev pub File : Type 0
File = Text × Content

-- A file that the bundle is to have: its name, and its content or what making the content raises.
abbrev pub Entry : Type 0
Entry = Text × Result Content

-- `_run_capture`: any other exception goes through.
abbrev pub captured : Captured → Result Content
captured not_found = ok (command Captured.not_found)
captured timed_out = ok (command Captured.timed_out)
captured (raised e) = raise e
captured (completed code out err) = ok (command (completed code out err))

-- `_brain_status_output`: `except Exception` does not take the `SystemExit` of `_status`.
unfoldable pub brain_status_output : Exec Content
unfolding status
brain_status_output =
    try_except (status >>= λ report. pure (status_shown report)) (λ e. pure (status_raised e))

-- The files before `brain_status.txt`.
unfoldable pub first_files : Machine → List Entry
unfolding env_snapshot
first_files m =
    let (values, redacted) = env_snapshot m.environ in
    (codes "MODE.txt", ok (mode m.docker_available))
    ∷ (codes "REDACTED_FIELDS.txt", ok (redacted_doc env_presence_only))
    ∷ (codes "environment.txt", ok (environment values redacted))
    ∷ (codes "os_info.txt", ok (os m.os_info))
    ∷ (codes "brain_version.txt", ok (version m.brain_version))
    ∷ []

abbrev compose : List Text → List Text
compose rest = codes "docker" ∷ codes "compose" ∷ rest

-- The files behind `brain_status.txt`.
unfoldable pub docker_files : Machine → List Entry
docker_files m =
    if m.docker_available
    then (codes "docker_compose_ps.txt", captured (m.run_capture (compose (codes "ps" ∷ []))))
      ∷ (
        codes "docker_logs_brain.txt",
        captured
            (m.run_capture (compose (codes "logs" ∷ codes "brain" ∷ codes "--tail=1000" ∷ []))),
      )
      ∷ (
        codes "docker_logs_db.txt",
        captured (m.run_capture (compose (codes "logs" ∷ codes "db" ∷ codes "--tail=500" ∷ []))),
      )
      ∷ []
    else (codes "docker_skipped.txt", ok docker_skipped) ∷ []

-- The files that are in the zip, and whether the code that writes them returned.
abbrev pub Written : Type 0
Written = List File × Result (Unit {0})

abbrev pub then_file : File → Written → Written
then_file f (files, r) = (f ∷ files, r)

abbrev pub unless_raised : Option Exn → Written → Written
unless_raised none u = u
unless_raised (some e) u = ([], raise e)

-- `zf.writestr` of the files, one behind the other, up to the first exception.
unfoldable pub write_entries : (Text → Option Exn) → List Entry → Written
write_entries raises [] = ([], ok tt)
write_entries raises ((name, raise e) ∷ rest) = ([], raise e)
write_entries raises ((name, ok content) ∷ rest) =
    let later = write_entries raises rest in
    unless_raised (raises name) (then_file (name, content) later)

abbrev pub behind : List File → Written → Written
behind before (files, r) = (before ++ files, r)

-- `brain_status.txt` and the files behind it, where the files before it could be written.
unfoldable pub write_status : Machine → Written → World → System → Written × System
unfolding write_entries brain_status_output docker_files
write_status m (before, raise e) w s = ((before, raise e), s)
write_status m (before, ok u) w s =
    let (r, s') = brain_status_output w s in
    (behind before (write_entries m.zip_write ((codes "brain_status.txt", r) ∷ docker_files m)), s')

-- `__exit__` of the zip: an exception of the close goes before one of the block.
abbrev pub closed : Option Exn → Written → Written
closed none u = u
closed (some e) (files, r) = (files, raise e)

abbrev pub opened : Machine → Option Exn → World → System → Written × System
unfolding write_status first_files write_entries
opened m none w s =
    let (u, s') = write_status m (write_entries m.zip_write (first_files m)) w s in
    (closed m.zip_close u, s')
opened m (some e) w s = (([], raise e), s)

-- `build_bundle`
unfoldable pub build_bundle : Machine → World → System → Written × System
build_bundle m w s = opened m m.zip_open w s
