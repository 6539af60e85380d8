-- ===== src/System/Returns.antt =====
-- Calls that return a value, rather than raise.
use the_brain.Prelude.{◌≡◌, ◌≢◌, refl, Bool, true, false, ℕ, if◌then◌else◌}
use the_brain.Messages.{Exn, is_exception, base_exception}
use the_brain.Database.{Database}
use the_brain.System.{
  World, System, Exec, Result, ok, raise, pure, try_except, catch_result, continue, fetch, ◌>>=◌,
}

abbrev pub Returns {ℓ} : {A : Type ℓ} → Exec A → World → System → Type ℓ
Returns {A = A} m w s = (a : A) × ((m w s).0 ≡ ok a)

-- No statement fails.
abbrev pub IsCalm : World → Type 0
IsCalm w = (n : ℕ) → w.db_raises n ≡ false

module _ {ℓ κ} {A : Type ℓ} {B : Type κ} where
  continue_returns :
      (r : Result A) (f : A → Exec B) (w : World) (s : System)
      → (a : A) × (r ≡ ok a)
      → ((a : A) → r ≡ ok a → Returns (f a) w s)
      → (b : B) × ((continue r f w s).0 ≡ ok b)
  continue_returns (ok a) f w s h k = k a refl
  continue_returns (raise e) f w s (a, h) k = cc

  pub >>=-Returns :
      (m : Exec A) (f : A → Exec B) (w : World) (s : System)
      → Returns m w s
      → ((a : A) → (m w s).0 ≡ ok a → Returns (f a) w (m w s).1)
      → Returns (m >>= f) w s
  >>=-Returns m f w s h k = let (r, s') = m w s in continue_returns r f w s' h k

module _ {ℓ} {A : Type ℓ} where
  catch_returns :
      (r : Result A) (h : Exn → A) (w : World) (s : System)
      → r ≢ raise base_exception
      → (a : A) × ((catch_result r (λ e. pure (h e)) w s).0 ≡ ok a)
  unfolding is_exception
  catch_returns (ok a) h w s tame = (a, refl)
  catch_returns (raise base_exception) h w s tame = absurd (tame refl)
  catch_returns (raise e) h w s tame = (h e, refl)

  pub Returns-if :
      (b : Bool) (m n : Exec A) {w : World} {s : System}
      → Returns m w s
      → Returns n w s
      → Returns (if b then m else n) w s
  Returns-if true m n h k = h
  Returns-if false m n h k = k

  -- A handler that returns leaves only a BaseException to be raised.
  pub try_except-Returns :
      (m : Exec A) (h : Exn → A) (w : World) (s : System)
      → (m w s).0 ≢ raise base_exception
      → Returns (try_except m (λ e. pure (h e))) w s
  try_except-Returns m h w s tame = let (r, s') = m w s in catch_returns r h w s' tame

  pub fetch-Returns :
      (query : Database → A) (w : World) (s : System) → IsCalm w → Returns (fetch query) w s
  unfolding fetch
  fetch-Returns query w s calm = (query s.db, rw (calm s.calls))
