-- ===== src/Runner/Placeholder.antt =====
-- src/runner/runner.py: the tokens `{name}` in a text, and the values that stand for them.
pub mod Regex
use the_brain.Prelude.{
  ℕ, Bool, true, false, Option, none, some, List, [], ◌∷◌, ◌++◌, map, ◌==◌, nat_eq, find, not,
  if◌then◌else◌,
}
use the_brain.Text.{Text, text_eq, codes, strip_prefix, contains, lower}
use the_brain.Json.{Json, null, str}
use the_brain.Dict.{Dict, lookup}
use the_brain.Messages.{
  PlaceholderError, not_triggered, dotted_header, no_header, no_field, no_previous_run,
  no_previous_step, no_prior_step,
}
use the_brain.System.{World}
use the_brain.Runner.Models.{StepResult, TriggerContext}

-- A text as the matches of `_PLACEHOLDER` and the characters between them.
pub data Piece : Type 0 where
  lit : ℕ → Piece
  token : Text → Piece

abbrev close : Text → List Piece → List Piece
close [] rest = lit b'{' ∷ lit b'}' ∷ rest
close (c ∷ name) rest = token (c ∷ name) ∷ rest

-- `_PLACEHOLDER`, `\{([^{}]+)\}`, as one pass; `some name` means that a brace is open and `name`
-- stands behind it.
scan : Option Text → Text → List Piece
scan none [] = []
scan none (c ∷ s) =
    let opened = scan (some []) s in
    let plain = lit c ∷ scan none s in if c == b'{' then opened else plain
scan (some name) [] = lit b'{' ∷ map lit name
scan (some name) (c ∷ s) =
    let reopened = lit b'{' ∷ (map lit name ++ scan (some []) s) in
    let closed = close name (scan none s) in
    let longer = scan (some (name ++ c ∷ [])) s in
    if c == b'{' then reopened else if c == b'}' then closed else longer

unfoldable pub pieces : Text → List Piece
unfolding scan
pieces = scan none

pub data Attempt {ℓ} (A : Type ℓ) : Type ℓ where
  value : A → Attempt A
  error : PlaceholderError → Attempt A

infixl 5 ◌>>=◌
abbrev pub ◌>>=◌ {ℓ κ} : {A : Type ℓ} {B : Type κ} → Attempt A → (A → Attempt B) → Attempt B
value a >>= f = f a
error e >>= f = error e

abbrev pub or_error {ℓ} : {A : Type ℓ} → Option A → PlaceholderError → Attempt A
or_error (some a) e = value a
or_error none e = error e

abbrev or_empty : Option Text → Text
or_empty (some s) = s
or_empty none = []

abbrev entries {ℓ} : {A : Type ℓ} → Option (List A) → List A
entries (some l) = l
entries none = []

-- The first header whose name is `name` up to case.
abbrev header_of : Option (Text × Text) → Option Text
header_of none = none
header_of (some (k, v)) = some v

unfoldable pub header_value : Text → Dict Text Text → Option Text
unfolding find
header_value name headers = header_of (find (λ e. lower e.0 == lower name) headers)

module _ (w : World) where
  -- `{trigger.body}`: a text as it is, any other JSON value by `json.dumps`.
  unfoldable pub body_text : Json → Text
  body_text null = []
  body_text (str s) = s
  body_text (Json.bool b) = w.dumps_sorted (Json.bool b)
  body_text (Json.int n) = w.dumps_sorted (Json.int n)
  body_text (Json.real x) = w.dumps_sorted (Json.real x)
  body_text (Json.arr xs) = w.dumps_sorted (Json.arr xs)
  body_text (Json.obj fs) = w.dumps_sorted (Json.obj fs)

  resolve_header : Text → Text → TriggerContext → Attempt Text
  resolve_header name header_name ctx =
      if contains header_name b'.'
      then error (dotted_header name)
      else or_error (header_value header_name (entries ctx.headers)) (no_header header_name)

  resolve_other : Text → Option Text → TriggerContext → Attempt Text
  unfolding resolve_header
  resolve_other name none ctx = error (no_field name)
  resolve_other name (some header_name) ctx = resolve_header name header_name ctx

  -- `_resolve_trigger_token`
  unfoldable pub resolve_trigger_token : Text → Option TriggerContext → Attempt Text
  unfolding resolve_other body_text
  resolve_trigger_token name none = error (not_triggered name)
  resolve_trigger_token name (some ctx) =
      if name == codes "event"
      then value (or_empty ctx.event)
      else if name == codes "path"
      then value (or_empty ctx.path)
      else if name == codes "body"
      then value (body_text ctx.body)
      else resolve_other name (strip_prefix (codes "headers.") name) ctx

  module _ (results : Dict Text StepResult) (previous : Option (Dict Text Text))
      (trigger : Option TriggerContext) where
    resolve_previous : Text → Text → Option (Dict Text Text) → Attempt Text
    resolve_previous name step_name none = error (no_previous_run name)
    resolve_previous name step_name (some steps) =
        or_error (lookup step_name steps) (no_previous_step name)

    abbrev output_of : Option StepResult → Option Text
    output_of none = none
    output_of (some r) = some r.output

    resolve_rest : Text → Option Text → Attempt Text
    resolve_rest name (some field) = resolve_trigger_token field trigger
    resolve_rest name none = or_error (output_of (lookup name results)) (no_prior_step name)

    resolve_prefixed : Text → Option Text → Attempt Text
    unfolding resolve_previous resolve_rest
    resolve_prefixed name (some step_name) = resolve_previous name step_name previous
    resolve_prefixed name none = resolve_rest name (strip_prefix (codes "trigger.") name)

    -- `replace` in `_substitute`
    unfoldable pub replace : Text → Attempt Text
    unfolding resolve_prefixed
    replace name = resolve_prefixed name (strip_prefix (codes "previous.") name)

    -- The substitution, piece by piece: the first token without a value raises.
    unfoldable pub replace_all : List Piece → Attempt Text
    replace_all [] = value []
    replace_all (lit c ∷ ps) = replace_all ps >>= λ t. value (c ∷ t)
    replace_all (token name ∷ ps) = replace name >>= λ v. replace_all ps >>= λ t. value (v ++ t)

    -- `_substitute`
    unfoldable pub substitute : Text → Attempt Text
    unfolding pieces replace_all
    substitute text = replace_all (pieces text)
