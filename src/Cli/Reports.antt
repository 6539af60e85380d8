-- ===== src/Cli/Reports.antt =====
-- The commands of src/cli.py that only read: `status`, `history`, `show`, `list` and `list-triggers`.
-- A function gives the rows that the command prints.
use the_brain.Prelude.{
  ℕ, zero, suc, ◌-◌, Bool, true, false, ◌&&◌, Option, none, some, List, [], ◌∷◌, ◌++◌, keep, take,
  length, leb, ◌==◌, nat_eq, if◌then◌else◌,
}
use the_brain.Prelude.Int.{ℤ, pos, negsuc}
use the_brain.Text.{Text, text_eq}
use the_brain.Messages.{base_exception, database_error}
use the_brain.Database.{Database}
use the_brain.Database.Pool.{init_pool, close_pool}
use the_brain.Runner.Models.{WorkflowRun, Status, running, success, failed}
use the_brain.System.{Exec, pure, throw, try_except, ◌>>=◌, ◌>>◌, fetch, World}

-- `ORDER BY`: a row comes behind the rows that do not come after it.
module _ {ℓ} {A : Type ℓ} (after : A → A → Bool) where
  unfoldable pub insert_row : A → List A → List A
  insert_row x [] = x ∷ []
  insert_row x (y ∷ ys) = let rest = insert_row x ys in if after y x then x ∷ y ∷ ys else y ∷ rest

  unfoldable pub order_by : List A → List A
  unfolding insert_row
  order_by [] = []
  order_by (x ∷ xs) = insert_row x (order_by xs)

-- A query whose answer depends on the collation of the database.
abbrev pub select {ℓ} : {A : Type ℓ} → (World → Database → A) → Exec A
unfolding fetch
select f w s = fetch (f w) w s

-- What `status` prints of a healthy database.
pub data StatusReport : Type 0 where
  no_table : StatusReport
  no_migrations : StatusReport
  migrations_applied : List Text → StatusReport

-- `health_check` of src/db.py, as far as its callers look at it.
unfoldable pub health_check : Exec Bool
unfolding fetch
health_check = try_except (fetch (λ d. true)) (λ e. pure false)

abbrev migrations_report : List Text → StatusReport
migrations_report [] = no_migrations
migrations_report (m ∷ ms) = migrations_applied (m ∷ ms)

abbrev or_no_names : Option (List Text) → List Text
or_no_names none = []
or_no_names (some names) = names

unfoldable pub table_report : Option (List Text) → Exec StatusReport
unfolding order_by fetch
table_report none = pure no_table
table_report (some _) = do
  names ← select λ w d. order_by (λ a b. w.collates b a) (or_no_names d.migrations)
  pure (migrations_report names)

-- The report of a healthy database, and `SystemExit(1)` for another one, both behind `close_pool`.
abbrev pub report_and_close : Bool → Exec StatusReport
unfolding fetch table_report close_pool
report_and_close true = do
  report ← fetch (λ d. d.migrations) >>= table_report
  close_pool
  pure report
report_and_close false = do close_pool; throw base_exception

-- `_status`: nothing closes the pool where one of the reads raises.
unfoldable pub status : Exec StatusReport
unfolding init_pool health_check
status = do _ ← init_pool; healthy ← health_check; report_and_close healthy

-- `_truncate`; "…" is the code point 8230. Of a width 0 the slice ends before the last character.
unfoldable pub truncate : Text → ℕ → Text
truncate text zero = if leb (length text) 0 then text else take (length text - 1) text ++ 8230 ∷ []
truncate text (suc w) = if leb (length text) (suc w) then text else take w text ++ 8230 ∷ []

-- A filter that an option leaves open.
abbrev pub named_or_any : Option Text → Text → Bool
named_or_any none name = true
named_or_any (some []) name = true
named_or_any (some (c ∷ s)) name = name == c ∷ s

abbrev same_status : Status → Status → Bool
same_status running running = true
same_status success success = true
same_status failed failed = true
same_status a b = false

abbrev status_or_any : Option Status → Status → Bool
status_or_any none s = true
status_or_any (some t) s = same_status s t

unfoldable pub in_history : Option Text → Option Status → WorkflowRun → Bool
in_history name wanted r = named_or_any name r.workflow_name && status_or_any wanted r.status

abbrev pub not_later : WorkflowRun → WorkflowRun → Bool
not_later a b = leb a.started_at b.started_at

-- `WHERE … ORDER BY started_at DESC LIMIT n`
unfoldable pub history_rows : ℕ → Option Text → Option Status → Database → List WorkflowRun
unfolding in_history order_by
history_rows n name wanted d = take n (order_by not_later (keep (in_history name wanted) d.runs))

-- `_history`: a negative limit is an error of the database.
unfoldable pub history : ℤ → Option Text → Option Status → Exec (List WorkflowRun)
unfolding history_rows fetch
history (pos n) name wanted = fetch (history_rows n name wanted)
history (negsuc n) name wanted = throw database_error
