-- ===== src/Database/Schedules.antt =====
-- The statements on `workflow_schedules` and `daemon_heartbeats`.
use the_brain.Prelude.{
  ℕ, Bool, true, false, ◌&&◌, Option, none, some, List, [], ◌∷◌, ◌++◌, leb, ◌==◌, nat_eq, any, keep,
  count, if◌then◌else◌,
}
use the_brain.Text.{Text, text_eq}
use the_brain.Database.{Database, Schedule}
use the_brain.Database.Rows.{update_where}

abbrev pub named : Text → Schedule → Bool
named name s = s.workflow_name == name

-- `next_run_at <= now`, which a NULL does not meet.
abbrev reached : ℕ → Option ℕ → Bool
reached now none = false
reached now (some t) = leb t now

unfoldable pub is_due : ℕ → Schedule → Bool
is_due now s = s.enabled && reached now s.next_run_at

abbrev at_or_before : Option ℕ → Option ℕ → Bool
at_or_before none t = false
at_or_before (some a) none = true
at_or_before (some a) (some b) = leb a b

insert_by_time : Schedule → List Schedule → List Schedule
insert_by_time s [] = s ∷ []
insert_by_time s (t ∷ rest) =
    if at_or_before s.next_run_at t.next_run_at then s ∷ t ∷ rest else t ∷ insert_by_time s rest

-- ORDER BY next_run_at ASC
unfoldable pub sort_by_time : List Schedule → List Schedule
unfolding insert_by_time
sort_by_time [] = []
sort_by_time (s ∷ rest) = insert_by_time s (sort_by_time rest)

unfoldable pub due_schedules : ℕ → Database → List Schedule
unfolding is_due sort_by_time
due_schedules now d = sort_by_time (keep (is_due now) d.schedules)

unfoldable pub set_next_run : Text → ℕ → Database → Option (Database × ℕ)
set_next_run name next d = some (
  record d {
    schedules = update_where (named name) (λ s. record s { next_run_at = some next }) d.schedules;
  },
  count (named name) d.schedules,
)

unfoldable pub set_last_run : Text → ℕ → Database → Option (Database × ℕ)
set_last_run name id d = some (
  record d {
    schedules = update_where (named name) (λ s. record s { last_run_id = some id }) d.schedules;
  },
  count (named name) d.schedules,
)

-- INSERT … ON CONFLICT (daemon_id) DO UPDATE SET last_tick_at
unfoldable pub beat : Text → ℕ → Database → Option (Database × ℕ)
beat id now d =
    if any (λ h. h.daemon_id == id) d.heartbeats
    then some (
      record d {
        heartbeats =
            update_where (λ h. h.daemon_id == id) (λ h. record h { last_tick_at = now })
              d.heartbeats;
      },
      1,
    )
    else some (
      record d {
        heartbeats =
            d.heartbeats ++ record { daemon_id = id; started_at = now; last_tick_at = now } ∷ [];
      },
      1,
    )
