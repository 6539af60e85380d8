-- ===== src/Database/Pool/Released.antt =====
-- The pools that a command leaves open.
use the_brain.System.Relates.{Relates, IsHistory}
use the_brain.Database.Pool.{try_finally, after_finally, init_pool, pooled, close_pool}
use the_brain.System.{raise, >>=-eq-ok, Result, ok, Exec, World, System}
use the_brain.Prelude.{
  ap, arith, keep_fresh, nat_eq, ◌==◌, false, any, ◌∷◌, List, ℕ, ◌++◌, suc, ◌∙◌, ◌≡◌, [], none,
  some, refl,
}

-- A call that leaves the pools alone.
abbrev pub SamePools : System → System → Type 0
SamePools s t = (t.pool ≡ s.pool) × (t.open_pools ≡ s.open_pools)

pub SamePools-IsHistory : IsHistory SamePools
SamePools-IsHistory = record {
  stay = λ s. (refl, refl);
  go_on = λ s t u h k. (k.0 ∙ h.0, k.1 ∙ h.1);
  asked = λ s d. (refl, refl);
}

-- The state behind `init_pool`.
abbrev pub opened : System → System
opened s = record s {
  calls = suc s.calls;
  pool = some s.calls;
  open_pools = s.open_pools ++ s.calls ∷ [];
}

closed :
    (w : World) (p : ℕ) (ps : List ℕ) (t : System)
    → any (λ q. q == p) ps ≡ false
    → w.close_raises t.calls ≡ false
    → t.pool ≡ some p
    → t.open_pools ≡ ps ++ p ∷ []
    → ((close_pool w t).0 ≡ ok tt)
      × ((close_pool w t).1.pool ≡ none)
      × ((close_pool w t).1.open_pools ≡ ps)
      × ((close_pool w t).1.db ≡ t.db)
unfolding close_pool
closed w p ps t fresh closes held listed =
    rw (held, closes, listed) (refl, refl, keep_fresh p ps fresh, refl)

-- `pooled` opens a pool, does its work on it and closes it, whatever the work raises.
pub pooled-Released :
    {A : Type 0} (m : Exec A) (w : World) (s : System)
    → Relates SamePools w m
    → ((n : ℕ) → w.open_raises n ≡ false)
    → ((n : ℕ) → w.close_raises n ≡ false)
    → s.pool ≡ none
    → any (λ q. q == s.calls) s.open_pools ≡ false
    → ((pooled m w s).0 ≡ (m w (opened s)).0)
      × ((pooled m w s).1.db ≡ (m w (opened s)).1.db)
      × ((pooled m w s).1.pool ≡ none)
      × ((pooled m w s).1.open_pools ≡ s.open_pools)
unfolding pooled init_pool
pooled-Released m w s keeps opens closes idle fresh =
    let (same, still) = keeps.at (opened s) in
    let (done, none_left, rest, db) =
      closed w s.calls s.open_pools (m w (opened s)).1 fresh (closes _) same still in
    rw (idle, opens s.calls, done) (refl, db, none_left, rest)

finally_returned :
    {A : Type 0} (r : Result A) (q : Result (Unit {0})) (a : A)
    → after_finally r q ≡ ok a
    → r ≡ ok a
finally_returned r (ok u) a h = h
finally_returned r (raise e) a h = cc

close_pool-db : (w : World) (s : System) → (close_pool w s).1.db ≡ s.db
unfolding close_pool
close_pool-db w s = ground arith

init_pool-db : (w : World) (s : System) → (init_pool w s).1.db ≡ s.db
unfolding init_pool
init_pool-db w s = ground arith

-- Work on a pool that returned has returned behind `init_pool`, and the tables are as it left them.
pub pooled-eq-ok :
    {A : Type 0} (m : Exec A) (w : World) (s : System) (a : A)
    → (pooled m w s).0 ≡ ok a
    → ((m w (init_pool w s).1).0 ≡ ok a)
      × ((init_pool w s).1.db ≡ s.db)
      × ((pooled m w s).1.db ≡ (m w (init_pool w s).1).1.db)
unfolding pooled
pooled-eq-ok m w s a h =
    let (p, _, h1, same) = >>=-eq-ok init_pool (λ _. try_finally m close_pool) w s h in
    let t = (m w (init_pool w s).1).1 in
    (
      finally_returned (m w (init_pool w s).1).0 (close_pool w t).0 a h1,
      init_pool-db w s,
      ap (λ (u : Result _ × System). u.1.db) same ∙ close_pool-db w t,
    )
