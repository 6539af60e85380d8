-- ===== src/Logging.antt =====
-- `configure_logging` of src/logging_config.py.
use the_brain.Text.{lower, text_eq, codes, Text}
use the_brain.Dict.{lookup, Dict}
use the_brain.Prelude.{
  ◌-◌, ◌&&◌, ◌==◌, any, ◌++◌, leb, if◌then◌else◌, map, Bool, ◌≡◌, Option, ℕ, List, inl, inr, refl,
  Bool-cases, [], ◌∷◌, none, some, true, false,
}

pub data Renderer : Type 0 where
  json_renderer : Renderer
  console_renderer : Renderer

-- `os.environ.get(name, default)`
abbrev pub env_or : Dict Text Text → Text → Text → Text
env_or environ name default = elim (lookup name environ) [ none ↦ default | some v ↦ v ]

-- `_resolve_renderer`
unfoldable pub resolve_renderer : Dict Text Text → Renderer
resolve_renderer environ =
    if lower (env_or environ (codes "LOG_FORMAT") (codes "keyvalue")) == codes "json"
    then json_renderer
    else console_renderer

pub data Processor : Type 0 where
  merge_contextvars : Processor
  add_log_level : Processor
  time_stamper : Processor
  stack_info_renderer : Processor
  format_exc_info : Processor
  wrap_for_formatter : Processor
  remove_processors_meta : Processor
  rendered : Renderer → Processor

-- A `StreamHandler` by its formatter: what runs for events of stdlib loggers, and for all.
pub record Handler : Type 0 where
  pub foreign_pre_chain : List Processor
  pub processors : List Processor

-- The configuration of structlog and the root logger; `none` is the level that it has at first.
pub record Logs : Type 0 where
  pub processors : List Processor
  pub handlers : List Handler
  pub level : Option Text

abbrev pub shared_processors : List Processor
shared_processors =
    merge_contextvars ∷ add_log_level ∷ time_stamper ∷ stack_info_renderer ∷ format_exc_info ∷ []

-- The level names that `logging` knows.
abbrev pub level_names : List Text
level_names =
    codes "CRITICAL"
    ∷ codes "FATAL"
    ∷ codes "ERROR"
    ∷ codes "WARN"
    ∷ codes "WARNING"
    ∷ codes "INFO"
    ∷ codes "DEBUG"
    ∷ codes "NOTSET"
    ∷ []

abbrev upper_char : ℕ → ℕ
upper_char c = if leb b'a' c && leb c b'z' then c - 32 else c

-- Of the letters in the names of levels only the ASCII ones have another case.
abbrev pub upper : Text → Text
upper t = map upper_char t

-- `configure_logging`: `setLevel` raises a ValueError for a name that it does not know, when all but the
-- level is set.
unfoldable pub configure_logging : Dict Text Text → Logs → Bool × Logs
unfolding resolve_renderer
configure_logging environ logs =
    let level = upper (env_or environ (codes "LOG_LEVEL") (codes "INFO")) in
    let handler : Handler = record {
      foreign_pre_chain = shared_processors;
      processors = remove_processors_meta ∷ rendered (resolve_renderer environ) ∷ [];
    } in
    let logs' : Logs = record {
      processors = shared_processors ++ wrap_for_formatter ∷ [];
      handlers = handler ∷ [];
      level = logs.level;
    } in
    if any (λ n. n == level) level_names
    then (true, record logs' { level = some level })
    else (false, logs')

-- Configured again in the same environment, logging stays as it is, with its one handler.
configure_logging-again :
    (environ : Dict Text Text) (logs : Logs)
    → configure_logging environ (configure_logging environ logs).1 ≡ configure_logging environ logs
unfolding configure_logging
configure_logging-again environ logs =
    elim (Bool-cases
      (any (λ n. n == upper (env_or environ (codes "LOG_LEVEL") (codes "INFO"))) level_names)) [
        | inl known ↦ rw known refl
        | inr unknown ↦ rw unknown refl
      ]
