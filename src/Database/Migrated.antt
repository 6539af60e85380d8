-- ===== src/Database/Migrated.antt =====
-- What `run_migrations` of src/db.py leaves behind.
use the_brain.Prelude.{
  refl, ◌≡◌, ◌∙◌, sym, ap, subst, ℕ, suc, false, some, List, [], ◌∷◌, ◌++◌, length, append-nil,
  append_assoc, All, Bool-cases, inl, inr,
}
use the_brain.Text.{Text, text_eq}
use the_brain.System.{World, System, Result, ok, raise, pure, continue, execute_query, fetch}
use the_brain.System.Returns.{IsCalm}
use the_brain.Database.{Database}
use the_brain.Database.Migrate.{
  applied, pending, record_migration, apply_migration, apply_all, run_migrations,
}
use the_brain.Database.Pending.{In, none_pending, every_recorded}

-- Of the migrations `todo` the first ones were recorded and run, in order; all of them where `finished`.
abbrev pub Applied : List Text → Database → Database → Type 0 → Type 0
Applied todo d d' finished =
    (done : List Text) × (rest : List Text) × (todo ≡ done ++ rest)
    × (applied d' ≡ applied d ++ done)
    × (d'.applied_scripts ≡ d.applied_scripts ++ done)
    × (finished → rest ≡ [])

apply_all-Applied :
    (ms : List Text) (w : World) (s : System)
    → Applied ms s.db (apply_all ms w s).1.db ((apply_all ms w s).0 ≡ ok tt)
unfolding apply_all apply_migration
apply_all-Applied [] w s = ([], [], refl, sym (append-nil _), sym (append-nil _), λ h. refl)
apply_all-Applied (m ∷ ms) w s = elim (Bool-cases (w.migration_fails s.calls m)) [
  | inl fails ↦ rw fails ([], m ∷ ms, refl, sym (append-nil _), sym (append-nil _), λ h. cc)
  | inr runs ↦
      let s' : System = record s { calls = suc s.calls; db = record_migration m s.db } in
      let (done, rest, split, recorded, run, finished) = apply_all-Applied ms w s' in
      rw runs (
        m ∷ done,
        rest,
        ap (λ l. m ∷ l) split,
        recorded ∙ append_assoc (applied s.db) (m ∷ []) done,
        run ∙ append_assoc s.db.applied_scripts (m ∷ []) done,
        finished,
      )
]

then-Applied :
    (r : Result (Unit {0})) (n : ℕ) (todo : List Text) (d : Database) (w : World) (s : System)
    → Applied todo d s.db (r ≡ ok tt)
    → Applied todo d (continue r (λ _. pure n) w s).1.db ((continue r (λ _. pure n) w s).0 ≡ ok n)
then-Applied (ok u) n todo d w s (done, rest, split, recorded, run, finished) =
    (done, rest, split, recorded, run, λ h. finished refl)
then-Applied (raise e) n todo d w s (done, rest, split, recorded, run, finished) =
    (done, rest, split, recorded, run, λ h. cc)

untouched :
    (todo : List Text) (d d' : Database) {finished : Type 0}
    → applied d' ≡ applied d
    → d'.applied_scripts ≡ d.applied_scripts
    → (finished → ⊥)
    → Applied todo d d' finished
untouched todo d d' same still no_result = (
  [],
  todo,
  refl,
  same ∙ sym (append-nil _),
  still ∙ sym (append-nil _),
  λ a. absurd (no_result a),
)

-- Whatever it returns or raises, a run of the migrations has recorded and run the first ones of the
-- pending files, in the order of the files, and no others; all of them if it returned their number.
pub run_migrations-Applied :
    (w : World) (s : System)
    → let todo = pending (applied s.db) (w.migration_files (suc (suc s.calls))) in
      Applied todo s.db (run_migrations w s).1.db ((run_migrations w s).0 ≡ ok (length todo))
unfolding run_migrations execute_query fetch
run_migrations-Applied w s =
    let todo = pending (applied s.db) (w.migration_files (suc (suc s.calls))) in
    elim (Bool-cases (w.db_raises s.calls)) [
      | inl raises ↦ rw raises (untouched todo s.db s.db refl refl (λ h. cc))
      | inr created ↦ elim (Bool-cases (w.db_raises (suc s.calls))) [
        | inl raises ↦
            rw (created, raises)
              (untouched todo s.db (record s.db { migrations = some (applied s.db) }) refl refl
                (λ h. cc))
        | inr fetched ↦
            let s' : System = record s {
              calls = suc (suc (suc s.calls));
              db = record s.db { migrations = some (applied s.db) };
            } in
            let (r, s'') = apply_all todo w s' in
            rw (created, fetched)
              (then-Applied r (length todo) todo s.db w s'' (apply_all-Applied todo w s'))
      ]
    ]

-- The migrations of the directory at the time of a run.
abbrev files_at : World → System → List Text
files_at w s = w.migration_files (suc (suc s.calls))

continue-length :
    (r : Result (Unit {0})) (m n : ℕ) (w : World) (s : System)
    → (continue r (λ _. pure m) w s).0 ≡ ok n
    → n ≡ m
continue-length (ok u) m n w s h = cc
continue-length (raise e) m n w s h = cc

run_migrations-length :
    (w : World) (s : System) (n : ℕ)
    → (run_migrations w s).0 ≡ ok n
    → n ≡ length (pending (applied s.db) (files_at w s))
unfolding run_migrations execute_query fetch
run_migrations-length w s n h = elim (Bool-cases (w.db_raises s.calls)) [
  | inl raises ↦ absurd (let h' = rw raises at h in cc)
  | inr created ↦ elim (Bool-cases (w.db_raises (suc s.calls))) [
    | inl raises ↦ absurd (let h' = rw (created, raises) at h in cc)
    | inr fetched ↦
        let todo = pending (applied s.db) (files_at w s) in
        let s' : System = record s {
          calls = suc (suc (suc s.calls));
          db = record s.db { migrations = some (applied s.db) };
        } in
        let (r, s'') = apply_all todo w s' in
        continue-length r (length todo) n w s'' (rw (created, fetched) at h)
  ]
]

-- After a run that returned, every file of the directory is recorded.
recorded-after :
    (w : World) (s : System) (n : ℕ)
    → (run_migrations w s).0 ≡ ok n
    → All (In (applied (run_migrations w s).1.db)) (files_at w s)
recorded-after w s n h =
    let files = files_at w s in
    let (done, rest, split, recorded, _, finished) = run_migrations-Applied w s in
    let all = finished (h ∙ ap ok (run_migrations-length w s n h)) in
    let whole : pending (applied s.db) files ≡ done = split ∙ rw all (append-nil done) in
    subst (λ l. All (In l) files) (ap (λ l. applied s.db ++ l) whole ∙ sym recorded)
      (every_recorded (applied s.db) files)

append-nil_left : (xs ys : List Text) → [] ≡ xs ++ ys → xs ≡ []
append-nil_left [] ys h = refl
append-nil_left (x ∷ xs) ys h = cc

apply_all-ok :
    (ms : List Text) (w : World) (s : System)
    → ((n : ℕ) (m : Text) → w.migration_fails n m ≡ false)
    → (apply_all ms w s).0 ≡ ok tt
unfolding apply_all apply_migration
apply_all-ok [] w s good = refl
apply_all-ok (m ∷ ms) w s good = rw (good s.calls m) (apply_all-ok ms w _ good)

-- Where neither the database nor a script fails, a run returns the number of the pending files, whatever
-- an earlier run left, and then every file of the directory is recorded.
pub run_migrations-Completes :
    (w : World) (s : System)
    → IsCalm w
    → ((n : ℕ) (m : Text) → w.migration_fails n m ≡ false)
    → ((run_migrations w s).0 ≡ ok (length (pending (applied s.db) (files_at w s))))
      × All (In (applied (run_migrations w s).1.db)) (files_at w s)
unfolding run_migrations execute_query fetch
run_migrations-Completes w s calm good =
    let todo = pending (applied s.db) (files_at w s) in
    let s' : System = record s {
      calls = suc (suc (suc s.calls));
      db = record s.db { migrations = some (applied s.db) };
    } in
    let all = apply_all-ok todo w s' good in
    let returned : (run_migrations w s).0 ≡ ok (length todo) =
      rw (calm s.calls, calm (suc s.calls), all) in
    (returned, recorded-after w s (length todo) returned)

run_of_nothing :
    (w : World) (s : System)
    → IsCalm w
    → pending (applied s.db) (files_at w s) ≡ []
    → (run_migrations w s).0 ≡ ok 0
unfolding run_migrations execute_query fetch apply_all
run_of_nothing w s calm empty = rw (calm s.calls, calm (suc s.calls), empty)

nothing_pending :
    (w : World) (s : System)
    → pending (applied s.db) (files_at w s) ≡ []
    → (IsCalm w → (run_migrations w s).0 ≡ ok 0)
      × (applied (run_migrations w s).1.db ≡ applied s.db)
      × ((run_migrations w s).1.db.applied_scripts ≡ s.db.applied_scripts)
nothing_pending w s empty =
    let (done, rest, split, recorded, run, _) = run_migrations-Applied w s in
    let none_done = append-nil_left done rest (sym empty ∙ split) in
    (
      λ calm. run_of_nothing w s calm empty,
      recorded ∙ rw none_done (append-nil _),
      run ∙ rw none_done (append-nil _),
    )

-- A run that returned leaves nothing to do: when the directory has the same files, the next run returns
-- 0 where the database does not fail, and records and runs no script, fail or not.
pub run_migrations-again :
    (w : World) (s : System) (n : ℕ)
    → (run_migrations w s).0 ≡ ok n
    → let s' = (run_migrations w s).1 in
      files_at w s' ≡ files_at w s
      → ((IsCalm w → (run_migrations w s').0 ≡ ok 0)
          × (applied (run_migrations w s').1.db ≡ applied s'.db)
          × ((run_migrations w s').1.db.applied_scripts ≡ s'.db.applied_scripts))
run_migrations-again w s n h same =
    let s' = (run_migrations w s).1 in
    nothing_pending w s'
      (rw same (none_pending (applied s'.db) (files_at w s) (recorded-after w s n h)))
