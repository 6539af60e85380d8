-- ===== src/Cli/History.antt =====
-- `_history` of src/cli.py: the runs that it lists.
use mathlib.Core.List.{Perm}
use the_brain.Prelude.{
  ◌≡◌, ◌≤◌, ◌≢◌, subst, sym, ℕ, List, [], ◌++◌, Option, keep, drop, length, arith,
}
use the_brain.Text.{Text}
use the_brain.Database.{Database}
use the_brain.Runner.Models.{WorkflowRun, Status}
use the_brain.Cli.Reports.{history_rows, in_history, order_by, not_later}
use the_brain.Cli.Ordered.{
  order_by-Perm, IsOrdered, order_by-IsOrdered, take-append-drop, length-take, take-full,
}

-- The second run did not start after the first.
abbrev pub NoLater : WorkflowRun → WorkflowRun → Type 0
NoLater a b = b.started_at ≤ a.started_at

-- The history lists at most `n` of the runs that pass the filters, the newest ones, newest first: with
-- the other runs that pass behind them the rows are all of these runs, once each, in the order of their
-- starts; and a run is left out only where `n` rows are listed.
pub history_rows-Newest :
    (n : ℕ) (name : Option Text) (wanted : Option Status) (d : Database)
    → (length (history_rows n name wanted d) ≤ n)
      × ((rest : List WorkflowRun) × Perm
            (history_rows n name wanted d ++ rest)
            (keep (in_history name wanted) d.runs)
          × IsOrdered NoLater (history_rows n name wanted d ++ rest)
          × (rest ≢ [] → length (history_rows n name wanted d) ≡ n))
unfolding history_rows
history_rows-Newest n name wanted d =
    let found = keep (in_history name wanted) d.runs in
    let rows = order_by not_later found in
    let whole = take-append-drop n rows in
    (
      length-take n rows,
      (
        drop n rows,
        subst (λ l. Perm l found) (sym whole) (order_by-Perm not_later found),
        subst (IsOrdered NoLater) (sym whole) (
            order_by-IsOrdered not_later NoLater (λ a b h. ground arith) (λ a b h. ground arith)
              (λ a b c h k. omega (arith, h, k)) found),
        take-full n rows,
      ),
    )
