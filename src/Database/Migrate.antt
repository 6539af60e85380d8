-- ===== src/Database/Migrate.antt =====
-- `run_migrations` of src/db.py. The table `_migrations` and the scripts that were run, in order.
use the_brain.Database.{Database}
use the_brain.Prelude.{
  ℕ, suc, not, Option, none, some, List, [], ◌∷◌, ◌++◌, ◌==◌, keep, any, length, if◌then◌else◌,
}
use the_brain.Text.{Text, text_eq}
use the_brain.Messages.{database_error}
use the_brain.System.{System, Exec, ok, raise, pure, ask, ◌>>=◌, ◌>>◌, execute_query, fetch}

abbrev or_no_rows : Option (List Text) → List Text
or_no_rows none = []
or_no_rows (some rows) = rows

-- `SELECT filename FROM _migrations`
abbrev pub applied : Database → List Text
applied d = or_no_rows d.migrations

-- `CREATE TABLE IF NOT EXISTS _migrations`
abbrev create_table : Database → Option (Database × ℕ)
create_table d = some (record d { migrations = some (applied d) }, 0)

unfoldable pub pending : List Text → List Text → List Text
pending done files = keep (λ f. not (any (λ a. a == f) done)) files

abbrev pub record_migration : Text → Database → Database
record_migration name d = record d {
  migrations = some (applied d ++ name ∷ []);
  applied_scripts = d.applied_scripts ++ name ∷ [];
}

-- One script: it is run and recorded in one transaction, or nothing is changed and the call raises.
unfoldable pub apply_migration : Text → Exec (Unit {0})
apply_migration name w s =
    let s' : System = record s { calls = suc s.calls } in
    if w.migration_fails s.calls name
    then (raise database_error, s')
    else (ok tt, record s' { db = record_migration name s.db })

unfoldable pub apply_all : List Text → Exec (Unit {0})
unfolding apply_migration
apply_all [] = pure tt
apply_all (m ∷ ms) = apply_migration m >> apply_all ms

unfoldable pub run_migrations : Exec ℕ
unfolding execute_query fetch pending apply_all
run_migrations = do
  execute_query create_table
  done ← fetch applied
  files ← ask (λ w n. w.migration_files n)
  apply_all (pending done files)
  pure (length (pending done files))
