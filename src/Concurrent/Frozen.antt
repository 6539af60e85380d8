-- ===== src/Concurrent/Frozen.antt =====
-- Rows of `workflow_runs` that no process works on.
use the_brain.Concurrent.Statements.{finish_run-eq-some, insert_run-eq-some}
use the_brain.Triggers.Watcher.{file_running}
use the_brain.Database.Runs.{orphaned, finished, is_running}
use the_brain.Runner.Models.{watcher_restarted, daemon_restarted, WorkflowRun}
use the_brain.Database.Rows.{update_where}
use the_brain.Prelude.{
  [], some, arith, ◌∷◌, true, nat_eq, ◌++◌, false, ◌==◌, some, Option, ◌≡◌, Bool, List, find, any,
  ℕ, refl,
}
use the_brain.Concurrent.{
  Shared, Move, begins, ends, breaks_off, recovers, recovers_files, elsewhere, Reach, start, later,
  member, without,
}

-- The row with an id, as a SELECT by the primary key reads it.
abbrev pub row_of : ℕ → List WorkflowRun → Option WorkflowRun
row_of id rows = find (λ r. r.id == id) rows

-- A row that has ended, and on whose run no process works.
abbrev pub Settled : ℕ → WorkflowRun → Shared → Type 0
Settled id r s =
    (row_of id s.db.runs ≡ some r) × (is_running r ≡ false) × (member id s.in_flight ≡ false)

row_of-append :
    (id : ℕ) (r : WorkflowRun) (rows more : List WorkflowRun)
    → row_of id rows ≡ some r
    → row_of id (rows ++ more) ≡ some r
unfolding find
row_of-append id r [] more h = cc
row_of-append id r (q ∷ rows) more h = ground (arith, row_of-append id r rows more)

row_of-id :
    (id : ℕ) (r : WorkflowRun) (rows : List WorkflowRun) → row_of id rows ≡ some r → r.id ≡ id
unfolding find
row_of-id id r [] h = cc
row_of-id id r (q ∷ rows) h = ground (arith, row_of-id id r rows)

-- An UPDATE whose condition the row does not meet.
row_of-update :
    (id : ℕ) (r : WorkflowRun) (test : WorkflowRun → Bool) (f : WorkflowRun → WorkflowRun)
    → ((q : WorkflowRun) → (f q).id ≡ q.id)
    → test r ≡ false
    → (rows : List WorkflowRun) → row_of id rows ≡ some r
    → row_of id (update_where test f rows) ≡ some r
unfolding find update_where
row_of-update id r test f same other [] h = cc
row_of-update id r test f same other (q ∷ rows) h =
    ground (arith, same q, row_of-update id r test f same other rows)

other_than :
    (id other : ℕ) (ids : List ℕ)
    → member id ids ≡ false
    → member other ids ≡ true
    → (id == other) ≡ false
unfolding any
other_than id other [] h k = cc
other_than id other (i ∷ ids) h k = ground (arith, other_than id other ids)

member-without :
    (id other : ℕ) (ids : List ℕ) → member id ids ≡ false → member id (without other ids) ≡ false
unfolding any without
member-without id other [] h = refl
member-without id other (i ∷ ids) h = ground (arith, member-without id other ids)

inserted_other :
    (id other : ℕ) (r : WorkflowRun) (rows : List WorkflowRun)
    → row_of id rows ≡ some r
    → any (λ q. q.id == other) rows ≡ false
    → (other == id) ≡ false
unfolding find any
inserted_other id other r [] h k = cc
inserted_other id other r (q ∷ rows) h k = ground (arith, inserted_other id other r rows)

Move-Settled :
    {s t : Shared} (id : ℕ) (r : WorkflowRun) → Move s t → Settled id r s → Settled id r t
unfolding any file_running is_running finished orphaned
Move-Settled {s} id r (begins row d n fresh inserted) (stored, ended, idle) =
    let (rows, new) = insert_run-eq-some row s.db d n inserted in
    (
      rw rows (row_of-append id r s.db.runs (row ∷ []) stored),
      ended,
      rw (inserted_other id row.id r s.db.runs stored new) idle,
    )
Move-Settled {s} id r (ends other time status output error d n over flies updated)
      (stored, ended, idle) =
    let test : WorkflowRun → Bool = λ q. q.id == other in
    let unmet : test r ≡ false =
      rw (row_of-id id r s.db.runs stored) (other_than id other s.in_flight idle flies) in
    (
      rw (finish_run-eq-some other time status output error s.db d n updated) (
          row_of-update id r test (finished time status output error) (λ q. refl) unmet s.db.runs
            stored),
      ended,
      member-without id other s.in_flight idle,
    )
Move-Settled {s} id r (breaks_off other flies) (stored, ended, idle) =
    (stored, ended, member-without id other s.in_flight idle)
Move-Settled {s} id r (recovers time) (stored, ended, idle) = (
  row_of-update id r is_running (orphaned daemon_restarted time) (λ q. refl) ended s.db.runs stored,
  ended,
  idle,
)
Move-Settled {s} id r (recovers_files time) (stored, ended, idle) =
    let unmet : file_running r ≡ false = rw ended refl in
    (
      row_of-update id r file_running (orphaned watcher_restarted time) (λ q. refl) unmet s.db.runs
          stored,
      ended,
      idle,
    )
Move-Settled {s} id r (elsewhere d same) (stored, ended, idle) = (rw same stored, ended, idle)

-- A row of `workflow_runs` that has ended, and on whose run no process works, stays as it is: whatever
-- runs begin, end or break off in whatever order, and however often a daemon recovers, the row with its
-- id is the same row.
pub Reach-Settled :
    (s t : Shared) (id : ℕ) (r : WorkflowRun) → Reach s t → Settled id r s → Settled id r t
Reach-Settled s t id r start h = h
Reach-Settled s t id r (later k step) h = Move-Settled id r step (Reach-Settled s _ id r k h)
