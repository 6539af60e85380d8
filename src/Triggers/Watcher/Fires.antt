-- ===== src/Triggers/Watcher/Fires.antt =====
-- `_fire_one` of src/triggers/watcher.py on a sequence of events.
use the_brain.Triggers.Watcher.Debounce.{fired-Spaced, fired, Spaced}
use the_brain.Runner.Run.History.{run_workflow-Relates}
use the_brain.Text.{text_eq, Text}
use the_brain.Workflow.Models.{Workflow, Step}
use the_brain.Workflow.Loader.{loaded, import_resolved, import_workflow_from_file}
use the_brain.Triggers.Watcher.{
  file_context, record_fire, should_fire, fire_path, fire_recorded, fire_at, fire_loaded_file,
  fire_enabled, resolve_workflow_file_path, Key, fire_file,
}
use the_brain.Runner.Run.{run_workflow, Executor}
use the_brain.System.Relates.{
  Relates-if, Relates-try_load, Relates-try_except, Relates-pure, Relates-bind, Relates, IsHistory,
}
use the_brain.Prelude.{
  sym, subst, eq_refl, ap, ◌&&◌, any, if◌then◌else◌, Bool-cases, Option, nat_eq, ◌∷◌, ℕ, suc, ◌==◌,
  not, ◌∙◌, ◌≤◌, List, ◌≡◌, Bool, arith, [], none, some, inl, inr, refl, true, false,
}
use the_brain.System.{pure, try_load, fetch, World, System, ◌>>=◌}

-- The handling of an event goes past the debounce, and so asks the database.
abbrev pub goes_on : System → System → Bool
goes_on s t = not (t.calls == suc s.calls)

-- The events that go past the debounce, with the times at which they did, where `_fire_one` handles the
-- events in order, each in the state that the one before has left.
unfoldable pub fires_of : Executor → World → System → List Key → List (Key × ℕ)
unfolding fire_file
fires_of x w s [] = []
fires_of x w s (key ∷ events) =
    let t = (fire_file x key.0 key.1 w s).1 in
    let rest = fires_of x w t events in
    if goes_on s t then (key, w.monotonic s.calls) ∷ rest else rest

-- A call that leaves the times of the fires alone and does not count calls back.
abbrev pub Lasting : System → System → Type 0
Lasting s t = (t.last_fire ≡ s.last_fire) × (s.calls ≤ t.calls)

pub Lasting-IsHistory : IsHistory Lasting
Lasting-IsHistory = record {
  stay = λ s. (refl, omega arith);
  go_on = λ s t u (a, b) (c, d). (c ∙ a, omega arith);
  asked = λ s d. (refl, omega arith);
}

imported-Lasting :
    (path : Text) (w : World) (s : System) → Lasting s (import_workflow_from_file path w s).1
unfolding import_workflow_from_file import_resolved loaded
imported-Lasting path w s = ground arith

not_same : (a b : ℕ) → suc b ≤ a → not (a == b) ≡ true
not_same a b h = ground arith

module _ (x : Executor) (w : World) (executes : (step : Step) → Relates Lasting w (x.execute step))
    (name event_path : Text) where
  loaded-Lasting :
      (path : Text) (o : Option Workflow)
      → Relates Lasting w (fire_loaded_file x name event_path path o)
  unfolding fire_loaded_file
  loaded-Lasting path none = Relates-pure Lasting Lasting-IsHistory w tt
  loaded-Lasting path (some workflow) =
      let context = some (file_context event_path) in
      Relates-try_except Lasting Lasting-IsHistory w
        (run_workflow x none workflow path context >>= λ _. pure tt) (λ e. pure tt)
        (Relates-bind Lasting Lasting-IsHistory w (run_workflow x none workflow path context)
          (λ _. pure tt)
          (run_workflow-Relates Lasting Lasting-IsHistory x none w executes
            (λ r. Relates-pure Lasting Lasting-IsHistory w tt) workflow path context)
          (λ _. Relates-pure Lasting Lasting-IsHistory w tt))
        (λ e. Relates-pure Lasting Lasting-IsHistory w tt)

  path-Lasting : (o : Option Text) → Relates Lasting w (fire_path x name event_path o)
  unfolding fire_path
  path-Lasting none = Relates-pure Lasting Lasting-IsHistory w tt
  path-Lasting (some path) =
      Relates-bind Lasting Lasting-IsHistory w
        (try_load (import_workflow_from_file path >>= λ v. pure (some v)) (λ e. pure none))
        (fire_loaded_file x name event_path path)
        (Relates-try_load Lasting Lasting-IsHistory w
          (import_workflow_from_file path >>= λ v. pure (some v)) (λ e. pure none)
          (Relates-bind Lasting Lasting-IsHistory w (import_workflow_from_file path)
            (λ v. pure (some v)) (record { at = imported-Lasting path w })
            (λ v. Relates-pure Lasting Lasting-IsHistory w (some v)))
          (λ e. Relates-pure Lasting Lasting-IsHistory w none))
        (loaded-Lasting path)

  resolved-Lasting : Relates Lasting w (resolve_workflow_file_path name)
  unfolding resolve_workflow_file_path fetch
  resolved-Lasting = record { at = λ s. ground arith }

  enabled-Lasting : Relates Lasting w (fire_enabled x name event_path)
  unfolding fire_enabled
  enabled-Lasting =
      Relates-bind Lasting Lasting-IsHistory w (resolve_workflow_file_path name)
        (fire_path x name event_path) resolved-Lasting path-Lasting

  -- Behind the debounce at least one call is made.
  recorded-Lasting :
      (s : System)
      → ((fire_recorded x name event_path w s).1.last_fire ≡ s.last_fire)
        × (suc s.calls ≤ (fire_recorded x name event_path w s).1.calls)
  unfolding fire_recorded fetch
  recorded-Lasting s = elim (Bool-cases (w.db_raises s.calls)) [
    | inl fails ↦ rw fails (refl, omega arith)
    | inr works ↦
        let s1 : System = record s { calls = suc s.calls } in
        let enabled = any (λ r. r.workflow_name == name && r.enabled) s.db.watchers in
        let (same, more) =
          (Relates-if Lasting Lasting-IsHistory w enabled (fire_enabled x name event_path) (pure tt)
              enabled-Lasting (Relates-pure Lasting Lasting-IsHistory w tt)).at
            s1 in
        rw works (same, more)
  ]

  fired_on :
      (s : System)
      → should_fire s.last_fire (name, event_path) (w.monotonic s.calls) ≡ true
      → ((fire_file x name event_path w s).1.last_fire
          ≡ record_fire s.last_fire (name, event_path) (w.monotonic s.calls))
        × (goes_on s (fire_file x name event_path w s).1 ≡ true)
  unfolding fire_file fire_at
  fired_on s h =
      let s2 : System = record s {
        calls = suc s.calls;
        last_fire = record_fire s.last_fire (name, event_path) (w.monotonic s.calls);
      } in
      let (same, more) = recorded-Lasting s2 in rw h (same, not_same _ (suc s.calls) more)

  fired_off :
      (s : System)
      → should_fire s.last_fire (name, event_path) (w.monotonic s.calls) ≡ false
      → ((fire_file x name event_path w s).1.last_fire ≡ s.last_fire)
        × (goes_on s (fire_file x name event_path w s).1 ≡ false)
  unfolding fire_file fire_at
  fired_off s h = rw h (refl, ap not (eq_refl (suc s.calls)))

both_on :
    {A : Type 0} {f g : Bool} {a a' : A} (b b' : A)
    → f ≡ true
    → g ≡ true
    → a ≡ a'
    → (if f then a else b) ≡ (if g then a' else b')
both_on b b' h k e = rw (h, k) e

both_off :
    {A : Type 0} {f g : Bool} {b b' : A} (a a' : A)
    → f ≡ false
    → g ≡ false
    → b ≡ b'
    → (if f then a else b) ≡ (if g then a' else b')
both_off a a' h k e = rw (h, k) e

-- The events with the times at which they are handled.
abbrev timed : Executor → World → System → List Key → List (Key × ℕ)
unfolding fire_file
timed x w s [] = []
timed x w s (key ∷ events) =
    (key, w.monotonic s.calls) ∷ timed x w (fire_file x key.0 key.1 w s).1 events

module _ (x : Executor) (w : World)
    (executes : (step : Step) → Relates Lasting w (x.execute step)) where
  fires_of-eq-fired :
      (events : List Key) (s : System)
      → fires_of x w s events ≡ fired s.last_fire (timed x w s events)
  unfolding fires_of fired timed
  fires_of-eq-fired [] s = refl
  fires_of-eq-fired (key ∷ events) s =
      let now = w.monotonic s.calls in
      let t = (fire_file x key.0 key.1 w s).1 in
      let ih = fires_of-eq-fired events t in
      let rest = timed x w t events in
      elim (Bool-cases (should_fire s.last_fire key now)) [
        | inl fires ↦
            let (last, on) = fired_on x w executes key.0 key.1 s fires in
            both_on _ _ on fires (ap (λ l. (key, now) ∷ l) (ih ∙ ap (λ f. fired f rest) last))
        | inr quiet ↦
            let (last, off) = fired_off x w executes key.0 key.1 s quiet in
            both_off _ _ off quiet (ih ∙ ap (λ f. fired f rest) last)
      ]

  -- Where the executors leave the times of the fires alone and do not count calls back, the events of one
  -- workflow and path that go past the debounce, and so ask the database, are at least 500 ms apart:
  -- whatever events come, in whatever order, however their fires end, and also where the clock goes back.
  -- The events are handled one after the other.
  pub fires_of-Spaced : (events : List Key) (s : System) → Spaced (fires_of x w s events)
  fires_of-Spaced events s =
      subst Spaced (sym (fires_of-eq-fired events s))
        (fired-Spaced (timed x w s events) s.last_fire)
