-- ===== src/Triggers/Watcher/Pool.antt =====
-- `_ObserverPool`, `watcher_tick` and `run_watcher_daemon` of src/triggers/watcher.py.
pub mod Synced
use the_brain.Prelude.{suc, ℕ, List, [], ◌∷◌, ◌==◌, any, keep, pair_eq, if◌then◌else◌}
use the_brain.Text.{text_leb, Text, text_eq}
use the_brain.Dict.{lookup, insert, has}
use the_brain.Messages.{other_exception}
use the_brain.Database.{Database, FileWatcher}
use the_brain.System.{System, Exec, Observer, ok, raise, pure, ask, try_except, fetch, ◌>>=◌, ◌>>◌}
use the_brain.Scheduler.Daemon.{Interval, signal_in_tick, signal_in_sleep, no_signal}
use the_brain.Triggers.Watcher.{Key, watcher_heartbeat, recover_file_orphans}

-- `target_keys`
unfoldable pub target_keys : List FileWatcher → Exec (List Key)
target_keys [] = pure []
target_keys (row ∷ rows) = do
  path ← ask (λ w n. w.absolute n row.watched_path)
  keys ← target_keys rows
  pure ((row.workflow_name, path) ∷ keys)

-- The first loop of `sync`: stopped observers leave the dictionary.
unfoldable pub stop_absent : List Key → Exec (Unit {0})
stop_absent targets w s =
    (ok tt, record s { live = keep (λ o. any (λ k. k == o.0) targets) s.live })

abbrev put_live : Key → Observer → Exec (Unit {0})
put_live key observer w s = (ok tt, record s { live = insert key observer s.live })

-- `Observer()`, `schedule` and `start`.
abbrev start_observer : List Text → Exec Observer
start_observer watched_events w s =
    let s' : System = record s { calls = suc s.calls } in
    if w.observer_fails s.calls
    then (raise other_exception, s')
    else (ok (record { number = s.calls; watched_events = watched_events }), s')

abbrev observe : List Text → Key → Exec (Unit {0})
observe watched_events key = do observer ← start_observer watched_events; put_live key observer

start_key : FileWatcher → Key → Exec (Unit {0})
start_key row key w s =
    (if has (lookup key s.live) then pure tt else (do
      directory ← ask (λ w n. w.is_dir n key.1)
      if directory then observe row.watched_events key else pure tt))
      w s

-- The second loop of `sync`.
unfoldable pub start_new : List FileWatcher → Exec (Unit {0})
unfolding start_key
start_new [] = pure tt
start_new (row ∷ rows) = do
  path ← ask (λ w n. w.absolute n row.watched_path)
  start_key row (row.workflow_name, path)
  start_new rows

-- `sync`
unfoldable pub sync : List FileWatcher → Exec (Unit {0})
unfolding target_keys stop_absent start_new
sync rows = do targets ← target_keys rows; stop_absent targets; start_new rows

-- `stop_all`
unfoldable pub stop_all : Exec (Unit {0})
stop_all w s = (ok tt, record s { live = [] })

-- `_enabled_watchers`, ordered by name.
insert_by_name : FileWatcher → List FileWatcher → List FileWatcher
insert_by_name row [] = row ∷ []
insert_by_name row (r ∷ rows) =
    let later = r ∷ insert_by_name row rows in
    if text_leb row.workflow_name r.workflow_name then row ∷ r ∷ rows else later

sort_by_name : List FileWatcher → List FileWatcher
unfolding insert_by_name
sort_by_name [] = []
sort_by_name (row ∷ rows) = insert_by_name row (sort_by_name rows)

unfoldable pub enabled_watchers : Database → List FileWatcher
unfolding sort_by_name
enabled_watchers d = sort_by_name (keep (λ r. r.enabled) d.watchers)

unfoldable pub watcher_tick : ℕ → Exec (Unit {0})
unfolding enabled_watchers sync
watcher_tick now = do watcher_heartbeat now; rows ← fetch enabled_watchers; sync rows

-- The `while` loop of `run_watcher_daemon`, a round for each interval.
watch : List Interval → Exec (Unit {0})
unfolding watcher_tick
watch [] = pure tt
watch (interval ∷ rest) = do
  now ← ask (λ w n. w.now n)
  try_except (watcher_tick now) (λ e. pure tt)
  elim interval [ signal_in_tick ↦ pure tt | signal_in_sleep ↦ pure tt | no_signal ↦ watch rest ]

-- `finally: _pool.stop_all()`
abbrev finally_stop : Exec (Unit {0}) → Exec (Unit {0})
finally_stop m w s = let (r, s') = m w s in (r, (stop_all w s').1)

unfoldable pub run_watcher_daemon : List Interval → Exec (Unit {0})
unfolding watch stop_all
run_watcher_daemon intervals = do recover_file_orphans; finally_stop (watch intervals)
