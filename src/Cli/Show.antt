-- ===== src/Cli/Show.antt =====
-- `_show` of src/cli.py.
pub mod Prefix
use the_brain.Prelude.{
  ℕ, Bool, true, false, ◌&&◌, ◌||◌, Option, none, some, List, [], ◌∷◌, ◌++◌, keep, leb, ◌==◌,
  nat_eq, if◌then◌else◌,
}
use the_brain.Text.{Text}
use the_brain.Database.{Database}
use the_brain.Runner.Models.{WorkflowRun}
use the_brain.System.{World, System, Exec, pure, fetch, ◌>>=◌}
use the_brain.Cli.Reports.{order_by}

-- `[0-9a-f-]`
unfoldable pub is_id_char : ℕ → Bool
is_id_char c = (leb 48 c && leb c 57) || (leb 97 c && leb c 102) || c == 45

-- The rest of a run id: `$` also stands before a line feed at the end.
unfoldable pub valid_rest : Text → Bool
unfolding is_id_char
valid_rest [] = true
valid_rest (c ∷ []) = is_id_char c || c == 10
valid_rest (c ∷ d ∷ s) = is_id_char c && valid_rest (d ∷ s)

-- `_RUN_ID_RE.match`
unfoldable pub valid_run_id : Text → Bool
unfolding is_id_char valid_rest
valid_run_id [] = false
valid_run_id (c ∷ s) = is_id_char c && valid_rest s

-- A test that a text or one of its ends passes.
unfoldable pub some_end : (Text → Bool) → Text → Bool
some_end f [] = f []
some_end f (c ∷ s) = f (c ∷ s) || some_end f s

abbrev pub is_nil : Text → Bool
is_nil [] = true
is_nil (c ∷ s) = false

abbrev pub one_char : (Text → Bool) → Text → Bool
one_char f [] = false
one_char f (c ∷ s) = f s

abbrev pub literal : ℕ → (Text → Bool) → Text → Bool
literal p f [] = false
literal p f (c ∷ s) = p == c && f s

-- SQL's `text LIKE pattern`: "%" is 37, "_" is 95, and "\" is 92, which makes the next character
-- literal. A pattern that ends with "\" is an error of the database; here it matches nothing.
unfoldable pub like : Text → Text → Bool
unfolding some_end
like [] = is_nil
like (p ∷ []) =
    if p == 37
    then some_end is_nil
    else if p == 95
    then one_char is_nil
    else if p == 92
    then (λ s. false)
    else literal p is_nil
like (p ∷ q ∷ ps) =
    let rest = like (q ∷ ps) in
    let after = like ps in
    if p == 37
    then some_end rest
    else if p == 95
    then one_char rest
    else if p == 92
    then literal q after
    else literal p rest

pub data Shown : Type 0 where
  invalid_run_id : Shown
  no_run : Shown
  ambiguous : List WorkflowRun → Shown
  one_run : WorkflowRun → Shown

unfoldable pub chosen : List WorkflowRun → Shown
chosen [] = no_run
chosen (r ∷ []) = one_run r
chosen (r ∷ q ∷ rs) = ambiguous (r ∷ q ∷ rs)

abbrev pub not_earlier : WorkflowRun → WorkflowRun → Bool
not_earlier a b = leb b.started_at a.started_at

-- `id_text` is the text of an id, `id::text`.
module _ (id_text : ℕ → Text) (run_id : Text) where
  unfoldable pub matching : Database → List WorkflowRun
  unfolding order_by like
  matching d = order_by not_earlier (keep (λ r. like (run_id ++ 37 ∷ []) (id_text r.id)) d.runs)

  -- `_show`; all outcomes but `one_run` end by `SystemExit(1)`.
  unfoldable pub show : Exec Shown
  unfolding matching chosen valid_run_id fetch
  show =
      if valid_run_id run_id
      then (fetch matching >>= λ rows. pure (chosen rows))
      else pure invalid_run_id
