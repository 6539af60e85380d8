-- ===== src/Cli/Alive.antt =====
-- The watcher's heartbeat and `brain watcher-status` of src/cli.py.
use the_brain.Prelude.{
  ap, refl, ◌≡◌, sym, subst, ◌∙◌, ℕ, suc, ◌+◌, ◌≤◌, Bool, true, false, Option, some, List, [], ◌∷◌,
  ◌++◌, find, any, ltb, arith, ◌==◌, eq_refl, Bool-cases, inl, inr,
}
use the_brain.Text.{Text, text_eq}
use the_brain.Database.{Database, Heartbeat}
use the_brain.Database.Rows.{update_where}
use the_brain.Database.Schedules.{beat}
use the_brain.System.{World, System, ok, fetch, execute_query}
use the_brain.Triggers.Watcher.{watcher_daemon_id, watcher_heartbeat}
use the_brain.Cli.Status.{healthy, heartbeat_stale, age_check, judged, heartbeat_of, watcher_status}

-- The first heartbeat of this id was at `now`.
abbrev Beats : ℕ → Option Heartbeat → Type 0
Beats now o = (h : Heartbeat) × (o ≡ some h) × (h.last_tick_at ≡ now)

abbrev of_id : Text → Heartbeat → Bool
of_id id h = h.daemon_id == id

find_updated-Beats :
    (id : Text) (now : ℕ) (rows : List Heartbeat)
    → any (of_id id) rows ≡ true
    → Beats now
        (find (of_id id) (update_where (of_id id) (λ h. record h { last_tick_at = now }) rows))
unfolding find any update_where
find_updated-Beats id now [] h = cc
find_updated-Beats id now (r ∷ rows) h = elim (Bool-cases (of_id id r)) [
  | inl e ↦ (record r { last_tick_at = now }, rw (e, e), refl)
  | inr e ↦ rw (e, e) (find_updated-Beats id now rows (rw e at h))
]

find_appended :
    (id : Text) (row : Heartbeat) (rows : List Heartbeat)
    → any (of_id id) rows ≡ false
    → of_id id row ≡ true
    → find (of_id id) (rows ++ row ∷ []) ≡ some row
unfolding find any
find_appended id row [] h e = rw e
find_appended id row (r ∷ rows) h e = ground (arith, find_appended id row rows)

beat-Beats :
    (id : Text) (now : ℕ) (w : World) (s : System)
    → w.db_raises s.calls ≡ false
    → Beats now (heartbeat_of id (execute_query (beat id now) w s).1.db)
unfolding execute_query beat heartbeat_of
beat-Beats id now w s up = elim (Bool-cases (any (of_id id) s.db.heartbeats)) [
  | inl e ↦ rw (up, e) (find_updated-Beats id now s.db.heartbeats e)
  | inr e ↦
      let row : Heartbeat = record { daemon_id = id; started_at = now; last_tick_at = now } in
      rw (up, e) (row, find_appended id row s.db.heartbeats e (eq_refl id), refl)
]

heartbeat_db :
    (w : World) (now : ℕ) (s : System)
    → (watcher_heartbeat now w s).1.db ≡ (execute_query (beat (watcher_daemon_id w) now) w s).1.db
unfolding watcher_heartbeat execute_query
heartbeat_db w now s = ground arith

not_stale :
    (h : Heartbeat) (now later : ℕ)
    → h.last_tick_at ≡ now
    → later ≤ now + heartbeat_stale
    → ltb (h.last_tick_at + heartbeat_stale) later ≡ false
not_stale h now later tick soon = ground (arith, tick, soon)

judged-healthy :
    (w : World) (t : System) (now : ℕ) (o : Option Heartbeat)
    → Beats now o
    → w.now t.calls ≤ now + heartbeat_stale
    → (judged o w t).0 ≡ ok healthy
unfolding age_check
judged-healthy w t now o (h, e, tick) soon =
    let fresh = not_stale h now (w.now t.calls) tick soon in rw (e, fresh)

-- After a heartbeat of the watcher that did not fail, `watcher-status` reports it healthy for as long as no
-- more than 30 seconds have passed, if the table of heartbeats is as the heartbeat left it and the SELECT
-- does not fail.
pub watcher_status-healthy :
    (w : World) (now : ℕ) (s t : System)
    → w.db_raises s.calls ≡ false
    → t.db.heartbeats ≡ (watcher_heartbeat now w s).1.db.heartbeats
    → w.db_raises t.calls ≡ false
    → w.now (suc t.calls) ≤ now + heartbeat_stale
    → (watcher_status w t).0 ≡ ok healthy
unfolding watcher_status fetch heartbeat_of
watcher_status-healthy w now s t up same up' soon =
    let id = watcher_daemon_id w in
    let table = same ∙ ap (λ (d : Database). d.heartbeats) (heartbeat_db w now s) in
    let beats =
      subst (λ rows. Beats now (find (of_id id) rows)) (sym table) (beat-Beats id now w s up) in
    rw up'
      (judged-healthy w (record t { calls = suc t.calls }) now (heartbeat_of id t.db) beats soon)
