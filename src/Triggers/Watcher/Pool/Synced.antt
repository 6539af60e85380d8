-- ===== src/Triggers/Watcher/Pool/Synced.antt =====
-- `sync` of src/triggers/watcher.py and the observers that run behind it.
use the_brain.Prelude.{
  All-map, refl, ◌≡◌, sym, subst, ℕ, suc, true, false, Bool-cases, inl, inr, some, List, [], ◌∷◌,
  map, any, All, keep, ◌==◌, eq_iff, eq_refl, pair_eq, arith,
}
use the_brain.Text.{Text, text_eq}
use the_brain.Dict.{Dict, lookup, insert, has, lookup-insert}
use the_brain.Database.{FileWatcher}
use the_brain.System.{World, System, Exec, Result, ok, raise, Observer, continue}
use the_brain.Triggers.Watcher.{Key}
use the_brain.Triggers.Watcher.Pool.{sync, stop_absent, start_new, start_key, target_keys}

abbrev pub Wanted : List Key → Key → Type 0
Wanted targets k = any (λ j. j == k) targets ≡ true

-- Every observer that runs is wanted, and a wanted one that ran before still runs.
abbrev pub Synced : List Key → Dict Key Observer → Dict Key Observer → Type 0
Synced targets before after =
    ((k : Key) → has (lookup k after) ≡ true → Wanted targets k)
    × ((k : Key) (o : Observer)
        → Wanted targets k
        → lookup k before ≡ some o
        → lookup k after ≡ some o)

kept-Wanted :
    (targets : List Key) (live : Dict Key Observer) (k : Key)
    → has (lookup k (keep (λ o. any (λ j. j == o.0) targets) live)) ≡ true
    → Wanted targets k
unfolding lookup keep
kept-Wanted targets [] k h = cc
kept-Wanted targets ((j, o) ∷ live) k h =
    let ih = kept-Wanted targets live k in ground (arith, eq_iff j k, ih, h)

kept_lookup :
    (targets : List Key) (live : Dict Key Observer) (k : Key)
    → Wanted targets k
    → lookup k (keep (λ o. any (λ j. j == o.0) targets) live) ≡ lookup k live
unfolding lookup keep
kept_lookup targets [] k h = refl
kept_lookup targets ((j, o) ∷ live) k h =
    let ih = kept_lookup targets live k h in ground (arith, eq_iff j k, ih, h)

stop_absent-Synced :
    (targets : List Key) (w : World) (s : System)
    → Synced targets s.live (stop_absent targets w s).1.live
unfolding stop_absent
stop_absent-Synced targets w s =
    (kept-Wanted targets s.live, λ k o h e. rw (kept_lookup targets s.live k h) e)

insert-Synced :
    (targets : List Key) (before after : Dict Key Observer) (key : Key) (o : Observer)
    → Wanted targets key
    → has (lookup key after) ≡ false
    → Synced targets before after
    → Synced targets before (insert key o after)
insert-Synced targets before after key o wanted absent (runs, stays) = (
  λ k h. ground (arith, eq_iff key k, lookup-insert key k o after, runs k, wanted, h),
  λ k p h e.
      let there = stays k p h e in
      elim (Bool-cases (key == k)) [
        | inl same ↦
            let gone = subst (λ j. has (lookup j after) ≡ false) ((eq_iff key k).0 same) absent in
            absurd (let gone' = rw there at gone in cc)
        | inr other ↦ rw (lookup-insert key k o after, other) there
      ],
)

start_key-Synced :
    (targets : List Key) (before : Dict Key Observer) (row : FileWatcher) (key : Key) (w : World)
    (s : System)
    → Wanted targets key
    → Synced targets before s.live
    → Synced targets before (start_key row key w s).1.live
unfolding start_key
start_key-Synced targets before row key w s wanted h = elim (Bool-cases (has (lookup key s.live))) [
  | inl runs ↦ rw runs h
  | inr absent ↦ elim (Bool-cases (w.is_dir s.calls key.1)) [
    | inr gone ↦ rw (absent, gone) h
    | inl directory ↦ elim (Bool-cases (w.observer_fails (suc s.calls))) [
      | inl fails ↦ rw (absent, directory, fails) h
      | inr starts ↦
          rw (absent, directory, starts) (insert-Synced targets before s.live key _ wanted absent h)
    ]
  ]
]

-- `str(Path(p).resolve())` of a path does not change between two calls.
abbrev pub IsSteady : World → Type 0
IsSteady w = (n : ℕ) (path : Text) → w.absolute n path ≡ w.absolute 0 path

abbrev pub key_of : World → FileWatcher → Key
key_of w row = (row.workflow_name, w.absolute 0 row.watched_path)

continue-Synced :
    {A : Type 0} {B : Type 0} (P : Dict Key Observer → Type 0) (r : Result A) (f : A → Exec B)
    (w : World) (s : System)
    → P s.live
    → ((a : A) → P (f a w s).1.live)
    → P (continue r f w s).1.live
continue-Synced P (ok a) f w s p k = k a
continue-Synced P (raise e) f w s p k = p

start_new-Synced :
    (targets : List Key) (before : Dict Key Observer) (rows : List FileWatcher) (w : World)
    (s : System)
    → IsSteady w
    → All (λ row. Wanted targets (key_of w row)) rows
    → Synced targets before s.live
    → Synced targets before (start_new rows w s).1.live
unfolding start_new
start_new-Synced targets before [] w s steady wanted h = h
start_new-Synced targets before (row ∷ rows) w s steady (first, wanted) h =
    let s1 : System = record s { calls = suc s.calls } in
    let key : Key = (row.workflow_name, w.absolute s.calls row.watched_path) in
    let is_wanted : Wanted targets key =
      subst (λ p. Wanted targets (row.workflow_name, p)) (sym (steady s.calls row.watched_path))
        first in
    let started = start_key-Synced targets before row key w s1 is_wanted h in
    let (r, s') = start_key row key w s1 in
    continue-Synced (Synced targets before) r (λ _. start_new rows) w s' started
      λ _. start_new-Synced targets before rows w s' steady wanted started

target_keys-map :
    (rows : List FileWatcher) (w : World) (s : System)
    → IsSteady w
    → (target_keys rows w s).0 ≡ ok (map (key_of w) rows)
unfolding target_keys
target_keys-map [] w s steady = refl
target_keys-map (row ∷ rows) w s steady =
    rw (target_keys-map rows w _ steady, steady s.calls row.watched_path)

target_keys-live :
    (rows : List FileWatcher) (w : World) (s : System) → (target_keys rows w s).1.live ≡ s.live
unfolding target_keys
target_keys-live [] w s = refl
target_keys-live (row ∷ rows) w s =
    let s1 : System = record s { calls = suc s.calls } in
    let (r, s') = target_keys rows w s1 in
    let same = target_keys-live rows w s1 in
    continue-Synced (λ l. l ≡ s.live) r _ w s' same (λ keys. same)

-- The keys of rows are among the keys of these rows.
every-Wanted :
    (w : World) (rows : List FileWatcher)
    → All (λ row. Wanted (map (key_of w) rows) (key_of w row)) rows
unfolding any
every-Wanted w [] = tt
every-Wanted w (row ∷ rows) = (
  rw (eq_refl (key_of w row)),
  All-map (λ r. Wanted (map (key_of w) rows) (key_of w r))
      (λ r. Wanted (map (key_of w) (row ∷ rows)) (key_of w r)) (λ r h. ground (arith, h)) rows
      (every-Wanted w rows),
)

-- Where resolving a path gives the same at every call, however `sync` ends, each observer that runs
-- behind it is that of one of the rows, by name and resolved path, and each observer that ran before and
-- is that of one of the rows still runs.
pub sync-Synced :
    (rows : List FileWatcher) (w : World) (s : System)
    → IsSteady w
    → Synced (map (key_of w) rows) s.live (sync rows w s).1.live
unfolding sync
sync-Synced rows w s steady =
    let targets = map (key_of w) rows in
    let s1 = (target_keys rows w s).1 in
    let stopped = stop_absent-Synced targets w s1 in
    let synced =
      start_new-Synced targets s1.live rows w (stop_absent targets w s1).1 steady
        (every-Wanted w rows) stopped in
    rw (target_keys-map rows w s steady) (
      subst (λ l. Synced targets l (start_new rows w (stop_absent targets w s1).1).1.live)
        (target_keys-live rows w s) synced)
