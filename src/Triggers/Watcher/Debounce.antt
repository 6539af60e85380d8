-- ===== src/Triggers/Watcher/Debounce.antt =====
-- The debounce window of the watcher, and its recovery.
use the_brain.Prelude.{
  leb→le, ◌≢◌, sym, inl, All, inr, refl, ◌∙◌, ap, ℕ, suc, ◌+◌, ◌≤◌, ◌≡◌, Bool, true, false, some,
  List, [], ◌∷◌, ◌==◌, any, count, map, leb, arith, eq_iff, eq_refl, pair_eq, Bool-cases,
  if◌then◌else◌,
}
use the_brain.Text.{text_eq}
use the_brain.Dict.{Dict, lookup, lookup-insert}
use the_brain.System.{World, System, ok}
use the_brain.Database.Runs.{is_running, orphaned}
use the_brain.Runner.Models.{watcher_restarted}
use the_brain.Scheduler.Daemon.Recovery.{failed_row, recover_done}
use the_brain.Triggers.Watcher.{
  fires_since, Key, debounce, should_fire, record_fire, file_running, recover_file_orphans,
}

-- The events of a key that fire, of a list of events with their times, as `_fire_one` tests and
-- records them one after the other.
unfoldable pub fired : Dict Key ℕ → List (Key × ℕ) → List (Key × ℕ)
unfolding should_fire record_fire
fired last_fire [] = []
fired last_fire ((key, now) ∷ events) =
    let on = (key, now) ∷ fired (record_fire last_fire key now) events in
    let off = fired last_fire events in if should_fire last_fire key now then on else off

-- Every event of `key` comes at least one window after `t`.
abbrev pub After : Key → ℕ → List (Key × ℕ) → Type 0
After key t = All (λ e. e.0 ≡ key → t + debounce ≤ e.1)

-- Two events of one key are at least one window apart.
abbrev pub Spaced : List (Key × ℕ) → Type 0
Spaced [] = Unit
Spaced ((key, t) ∷ events) = After key t events × Spaced events

lookup-record_same :
    (last_fire : Dict Key ℕ) (k key : Key) (now : ℕ)
    → (k == key) ≡ true
    → lookup key (record_fire last_fire k now) ≡ some now
unfolding record_fire
lookup-record_same last_fire k key now same =
    lookup-insert k key now last_fire ∙ ap (λ b. if b then some now else lookup key last_fire) same

lookup-record_other :
    (last_fire : Dict Key ℕ) (k key : Key) (now : ℕ)
    → (k == key) ≡ false
    → lookup key (record_fire last_fire k now) ≡ lookup key last_fire
unfolding record_fire
lookup-record_other last_fire k key now other =
    lookup-insert k key now last_fire ∙ ap (λ b. if b then some now else lookup key last_fire) other

should_fire-quiet :
    (last_fire : Dict Key ℕ) (key k : Key) (u now : ℕ)
    → lookup key last_fire ≡ some u
    → k ≡ key
    → leb (u + debounce) now ≡ false
    → should_fire last_fire k now ≡ false
unfolding should_fire
should_fire-quiet last_fire key k u now h same quiet =
    ap (λ j. fires_since now (lookup j last_fire)) same ∙ ap (λ o. fires_since now o) h ∙ quiet

window : (t u now : ℕ) → t ≤ u → u + debounce ≤ now → t + debounce ≤ now
window t u now a b = omega arith

reached : (t u now : ℕ) → t ≤ u → u + debounce ≤ now → t ≤ now
reached t u now a b = omega arith

false≢true : false ≢ true
false≢true h = cc

-- The two ways that an event goes.
module _ (last_fire : Dict Key ℕ) (events : List (Key × ℕ)) (key k : Key) (t now : ℕ) where
  After-if :
      (b : Bool)
      → (b ≡ true → k ≡ key → t + debounce ≤ now)
      → (b ≡ true → After key t (fired (record_fire last_fire k now) events))
      → After key t (fired last_fire events)
      → After key t (
          if b
          then (k, now) ∷ fired (record_fire last_fire k now) events
          else fired last_fire events)
  After-if true head rest off = (head refl, rest refl)
  After-if false head rest off = off

  After-fire :
      (k ≡ key → t + debounce ≤ now)
      → After key t (fired (record_fire last_fire k now) events)
      → After key t (fired last_fire events)
      → After key t (fired last_fire ((k, now) ∷ events))
  unfolding fired
  After-fire head rest off = After-if (should_fire last_fire k now) (λ _. head) (λ _. rest) off

  After-quiet :
      should_fire last_fire k now ≡ false
      → After key t (fired last_fire events)
      → After key t (fired last_fire ((k, now) ∷ events))
  unfolding fired
  After-quiet quiet off =
      After-if (should_fire last_fire k now) (λ e. absurd (false≢true (sym quiet ∙ e)))
        (λ e. absurd (false≢true (sym quiet ∙ e))) off

fired-After :
    (events : List (Key × ℕ)) (last_fire : Dict Key ℕ) (key : Key) (t u : ℕ)
    → lookup key last_fire ≡ some u
    → t ≤ u
    → After key t (fired last_fire events)
unfolding fired
fired-After [] last_fire key t u h le = tt
fired-After ((k, now) ∷ events) last_fire key t u h le =
    let rest = λ (v : ℕ) (g : lookup key (record_fire last_fire k now) ≡ some v) (l : t ≤ v).
      fired-After events (record_fire last_fire k now) key t v g l in
    let off = fired-After events last_fire key t u h le in
    elim (Bool-cases (k == key)) [
      | inl same ↦ elim (Bool-cases (leb (u + debounce) now)) [
        | inl fires ↦
            After-fire last_fire events key k t now
              (λ _. window t u now le (leb→le (u + debounce) now fires))
              (rest now (lookup-record_same last_fire k key now same)
                (reached t u now le (leb→le (u + debounce) now fires)))
              off
        | inr quiet ↦
            After-quiet last_fire events key k t now
              (should_fire-quiet last_fire key k u now h ((eq_iff k key).0 same) quiet) off
      ]
      | inr other ↦
          After-fire last_fire events key k t now
            (λ e. absurd (false≢true (sym other ∙ (eq_iff k key).1 e)))
            (rest u (lookup-record_other last_fire k key now other ∙ h) le) off
    ]

Spaced-if :
    (b : Bool) (key : Key) (now : ℕ) (on off : List (Key × ℕ))
    → After key now on
    → Spaced on
    → Spaced off
    → Spaced (if b then (key, now) ∷ on else off)
Spaced-if true key now on off h k l = (h, k)
Spaced-if false key now on off h k l = l

pub fired-Spaced :
    (events : List (Key × ℕ)) (last_fire : Dict Key ℕ) → Spaced (fired last_fire events)
unfolding fired
fired-Spaced [] last_fire = tt
fired-Spaced ((key, now) ∷ events) last_fire =
    Spaced-if (should_fire last_fire key now) key now (fired (record_fire last_fire key now) events)
      (fired last_fire events)
      (fired-After events (record_fire last_fire key now) key now now
        (lookup-record_same last_fire key key now (eq_refl key)) (omega arith))
      (fired-Spaced events (record_fire last_fire key now)) (fired-Spaced events last_fire)

-- Where the UPDATE does not fail, the watcher's recovery returns the number of running runs that a file
-- event started, and makes each of them a failed one, with the error of a restarted watcher and the time
-- of the recovery as its end; every other row and table, the runs of cron, of webhooks and of the command
-- line included, is as it was.
pub recover_file_orphans-done :
    (w : World) (s : System)
    → w.db_raises (suc s.calls) ≡ false
    → ((recover_file_orphans w s).0 ≡ ok (count file_running s.db.runs))
      × (any file_running (recover_file_orphans w s).1.db.runs ≡ false)
      × ((recover_file_orphans w s).1.db ≡ record s.db {
        runs =
            map
              (λ r. if file_running r then failed_row watcher_restarted (w.now s.calls) r else r)
              s.db.runs;
      })
unfolding recover_file_orphans file_running is_running orphaned
recover_file_orphans-done w s up = recover_done file_running watcher_restarted (λ t r. refl) w s up
