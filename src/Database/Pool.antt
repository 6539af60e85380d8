-- ===== src/Database/Pool.antt =====
-- The connection pool of src/db.py, and the commands of src/cli.py that open one around their work.
pub mod Released
use the_brain.Messages.{database_error}
use the_brain.Database.Migrate.{run_migrations}
use the_brain.Prelude.{
  nat_eq, ◌==◌, ◌∷◌, not, ◌++◌, keep, if◌then◌else◌, suc, ℕ, Option, [], none, some, refl,
}
use the_brain.System.{◌>>◌, pure, System, ◌>>=◌, Result, Exec, ok, raise}

abbrev pub open_pool : Exec ℕ
open_pool w s =
    let s' : System = record s { calls = suc s.calls; pool = some s.calls } in
    if w.open_raises s.calls
    then (raise database_error, s')
    else (ok s.calls, record s' { open_pools = s.open_pools ++ s.calls ∷ [] })

abbrev pool_or : Option ℕ → Exec ℕ → Exec ℕ
pool_or none m = m
pool_or (some p) m = pure p

-- `init_pool`
unfoldable pub init_pool : Exec ℕ
init_pool w s = pool_or s.pool open_pool w s

-- `get_pool`
unfoldable pub get_pool : Exec ℕ
unfolding init_pool
get_pool w s = pool_or s.pool init_pool w s

abbrev pub close_opened : Option ℕ → Exec (Unit {0})
close_opened none w s = (ok tt, s)
close_opened (some p) w s =
    let s' : System = record s { calls = suc s.calls } in
    if w.close_raises s.calls
    then (raise database_error, s')
    else (ok tt, record s' { pool = none; open_pools = keep (λ q. not (q == p)) s.open_pools })

-- `close_pool`
unfoldable pub close_pool : Exec (Unit {0})
close_pool w s = close_opened s.pool w s

module _ {ℓ} {A : Type ℓ} where
  abbrev pub after_finally : Result A → Result (Unit {0}) → Result A
  after_finally r (ok u) = r
  after_finally r (raise e) = raise e

  -- `try: m finally: k`
  abbrev pub try_finally : Exec A → Exec (Unit {0}) → Exec A
  try_finally m k w s = let (r, t) = m w s in let (q, u) = k w t in (after_finally r q, u)

  -- What the commands do around their work: `init_pool`, and `close_pool` whatever the work raises.
  unfoldable pub pooled : Exec A → Exec A
  unfolding init_pool close_pool
  pooled m = init_pool >>= λ _. try_finally m close_pool

-- `_migrate`: here nothing closes the pool when the migrations raise.
unfoldable pub migrate : Exec ℕ
unfolding init_pool run_migrations close_pool
migrate = do _ ← init_pool; applied ← run_migrations; close_pool; pure applied
