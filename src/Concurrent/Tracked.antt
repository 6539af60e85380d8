-- ===== src/Concurrent/Tracked.antt =====
-- Rows of `workflow_runs` that are running.
use the_brain.Runner.Models.{RunError, Entry, Status, running, success, failed}
use the_brain.Concurrent.Statements.{finish_run-eq-some, insert_run-eq-some}
use the_brain.Runner.Models.{watcher_restarted, daemon_restarted, WorkflowRun}
use the_brain.Database.Runs.{orphaned, finished, is_running}
use the_brain.Triggers.Watcher.{file_running}
use the_brain.Database.Rows.{update_where}
use the_brain.Prelude.{
  ◌≢◌, Option, eq_refl, All-map, All-append, nat_eq, ◌⊎◌, arith, Bool-cases, false, true, Bool,
  ◌==◌, ◌∷◌, ◌≡◌, ℕ, List, All, any, [], inl, inr, refl,
}
use the_brain.Concurrent.{
  Shared, Move, begins, ends, breaks_off, recovers, recovers_files, elsewhere, Reach, start, later,
  member, without,
}

-- A row is not running, or a process works on its run, or its run broke off and no recovery of the
-- scheduler came since.
abbrev pub Known : List ℕ → List ℕ → WorkflowRun → Type 0
Known flying lost r =
    (is_running r ≡ false) ⊎ (member r.id flying ≡ true) ⊎ (member r.id lost ≡ true)

abbrev pub Tracked : Shared → Type 0
Tracked s = All (Known s.in_flight s.lost) s.db.runs

-- Where a test passes, an update ends the row; elsewhere the row is known as before.
Tracked-update :
    (flying lost flying' lost' : List ℕ) (test : WorkflowRun → Bool) (f : WorkflowRun → WorkflowRun)
    → ((r : WorkflowRun) → is_running (f r) ≡ false)
    → ((r : WorkflowRun) → test r ≡ false → Known flying lost r → Known flying' lost' r)
    → (rows : List WorkflowRun) → All (Known flying lost) rows
    → All (Known flying' lost') (update_where test f rows)
unfolding update_where
Tracked-update flying lost flying' lost' test f over keeps [] h = tt
Tracked-update flying lost flying' lost' test f over keeps (r ∷ rows) (k, h) = (
  elim (Bool-cases (test r)) [
    | inl passes ↦ rw passes (inl (over r))
    | inr fails ↦ rw fails (keeps r fails k)
  ],
  Tracked-update flying lost flying' lost' test f over keeps rows h,
)

without_other :
    (id other : ℕ) (ids : List ℕ)
    → member id ids ≡ true
    → (id == other) ≡ false
    → member id (without other ids) ≡ true
unfolding any without
without_other id other [] h k = cc
without_other id other (i ∷ ids) h k = ground (arith, without_other id other ids)

member_later : (id other : ℕ) (ids : List ℕ) → member id ids ≡ true → member id (other ∷ ids) ≡ true
unfolding any
member_later id other ids h = ground arith

member_head : (id other : ℕ) (ids : List ℕ) → (id == other) ≡ true → member id (other ∷ ids) ≡ true
unfolding any
member_head id other ids h = ground arith

finished_over :
    (time : ℕ) (status : Status) (output : List Entry) (error : Option RunError) (r : WorkflowRun)
    → status ≢ running
    → is_running (finished time status output error r) ≡ false
unfolding is_running finished
finished_over time running output error r over = absurd (over refl)
finished_over time success output error r over = refl
finished_over time failed output error r over = refl

Known-begins :
    (flying lost : List ℕ) (id : ℕ) (r : WorkflowRun)
    → Known flying lost r
    → Known (id ∷ flying) lost r
unfolding any
Known-begins flying lost id r (inl ended) = inl ended
Known-begins flying lost id r (inr (inl flies)) = inr (inl (member_later r.id id flying flies))
Known-begins flying lost id r (inr (inr left)) = inr (inr left)

Known-ends :
    (flying lost : List ℕ) (id : ℕ) (r : WorkflowRun)
    → (r.id == id) ≡ false
    → Known flying lost r
    → Known (without id flying) lost r
Known-ends flying lost id r other (inl ended) = inl ended
Known-ends flying lost id r other (inr (inl flies)) =
    inr (inl (without_other r.id id flying flies other))
Known-ends flying lost id r other (inr (inr left)) = inr (inr left)

Known-breaks_off :
    (flying lost : List ℕ) (id : ℕ) (r : WorkflowRun)
    → Known flying lost r
    → Known (without id flying) (id ∷ lost) r
unfolding any
Known-breaks_off flying lost id r (inl ended) = inl ended
Known-breaks_off flying lost id r (inr (inl flies)) = elim (Bool-cases (r.id == id)) [
  | inl same ↦ inr (inr (member_head r.id id lost same))
  | inr other ↦ inr (inl (without_other r.id id flying flies other))
]
Known-breaks_off flying lost id r (inr (inr left)) = inr (inr (member_later r.id id lost left))

Move-Tracked : {s t : Shared} → Move s t → Tracked s → Tracked t
unfolding any file_running is_running finished orphaned
Move-Tracked {s} (begins row d n fresh inserted) h =
    let (rows, new) = insert_run-eq-some row s.db d n inserted in
    let known : Known (row.id ∷ s.in_flight) s.lost row =
      inr (inl (member_head row.id row.id s.in_flight (eq_refl row.id))) in
    let flying = s.in_flight in
    rw rows (
      All-append (Known (row.id ∷ flying) s.lost) s.db.runs (row ∷ [])
        (All-map (Known flying s.lost) (Known (row.id ∷ flying) s.lost)
          (Known-begins flying s.lost row.id) s.db.runs h)
        (known, tt))
Move-Tracked {s} (ends id time status output error d n over flies updated) h =
    rw (finish_run-eq-some id time status output error s.db d n updated) (
      Tracked-update s.in_flight s.lost (without id s.in_flight) s.lost (λ r. r.id == id)
        (finished time status output error) (λ r. finished_over time status output error r over)
        (λ r. Known-ends s.in_flight s.lost id r) s.db.runs h)
Move-Tracked {s} (breaks_off id flies) h =
    All-map (Known s.in_flight s.lost) (Known (without id s.in_flight) (id ∷ s.lost))
      (Known-breaks_off s.in_flight s.lost id) s.db.runs h
Move-Tracked {s} (recovers time) h =
    Tracked-update s.in_flight s.lost s.in_flight [] is_running (orphaned daemon_restarted time)
      (λ r. refl) (λ r ended k. inl ended) s.db.runs h
Move-Tracked {s} (recovers_files time) h =
    Tracked-update s.in_flight s.lost s.in_flight s.lost file_running
      (orphaned watcher_restarted time) (λ r. refl) (λ r other k. k) s.db.runs h
Move-Tracked {s} (elsewhere d same) h = rw same h

-- From a state in which every running row is known, whatever runs begin, end or break off, and however
-- the daemons recover, every running row stays known: a process works on its run, or its run has broken
-- off since the scheduler's daemon last recovered.
pub Reach-Tracked : (s t : Shared) → Reach s t → Tracked s → Tracked t
Reach-Tracked s t start h = h
Reach-Tracked s t (later k step) h = Move-Tracked step (Reach-Tracked s _ k h)
