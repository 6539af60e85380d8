-- ===== src/Cli/Status.antt =====
-- `_daemon_status` and `_watcher_status` of src/cli.py.
use the_brain.Prelude.{ℕ, ◌+◌, Option, none, some, List, [], ◌∷◌, find, ltb, ◌==◌, if◌then◌else◌}
use the_brain.Text.{Text, text_eq}
use the_brain.Database.{Database, Heartbeat}
use the_brain.System.{Exec, pure, ask, fetch, ◌>>=◌}
use the_brain.Triggers.Watcher.{watcher_daemon_id}

-- What a status command finds; all but `healthy` leave by `SystemExit(1)`.
pub data Health : Type 0 where
  healthy : Health
  never_started : Health
  stale : Health

-- `HEARTBEAT_STALE_SECONDS`, in microseconds.
abbrev pub heartbeat_stale : ℕ
heartbeat_stale = 30000000

unfoldable pub age_check : ℕ → Heartbeat → Health
age_check now h = if ltb (h.last_tick_at + heartbeat_stale) now then stale else healthy

abbrev pub judged : Option Heartbeat → Exec Health
unfolding age_check
judged none = pure never_started
judged (some h) = ask (λ w n. age_check (w.now n) h)

abbrev later_tick : Heartbeat → Option Heartbeat → Option Heartbeat
later_tick h none = some h
later_tick h (some g) = if ltb h.last_tick_at g.last_tick_at then some g else some h

-- ORDER BY last_tick_at DESC LIMIT 1
unfoldable pub newest_tick : List Heartbeat → Option Heartbeat
newest_tick [] = none
newest_tick (h ∷ hs) = later_tick h (newest_tick hs)

unfoldable pub daemon_status : Exec Health
unfolding newest_tick
daemon_status = do heartbeat ← fetch (λ d. newest_tick d.heartbeats); judged heartbeat

unfoldable pub heartbeat_of : Text → Database → Option Heartbeat
heartbeat_of id d = find (λ h. h.daemon_id == id) d.heartbeats

unfoldable pub watcher_status : Exec Health
unfolding heartbeat_of
watcher_status w = (do heartbeat ← fetch (heartbeat_of (watcher_daemon_id w)); judged heartbeat) w
