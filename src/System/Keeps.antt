-- ===== src/System/Keeps.antt =====
-- Calls that keep a property of the database, one rule for each way to build a call.
use the_brain.Prelude.{
  suc, refl, suc, ◌≡◌, sym, subst, Bool, true, false, Option, none, some, ℕ, if◌then◌else◌, inl,
  inr, Bool-cases,
}
use the_brain.Messages.{WorkflowLoadError, load_error}
use the_brain.Database.{Database}
use the_brain.System.{
  World, System, Exec, Result, ok, raise, pure, try_load, catch_load, continue, committed,
  execute_query, ◌>>=◌,
}
use the_brain.System.Quiet.{Quiet}

pub record Keeps {ℓ} (P : Database → Type 0) {A : Type ℓ} (m : Exec A) : Type ℓ where
  pub at : (w : World) (s : System) → P s.db → P (m w s).1.db

module _ {ℓ} (P : Database → Type 0) {A : Type ℓ} where
  pub Keeps-Quiet : (m : Exec A) → Quiet m → Keeps P m
  Keeps-Quiet m q = record { at = λ w s p. subst P (sym (q.at w s)) p }

  pub Keeps-pure : (a : A) → Keeps P (pure a)
  Keeps-pure a = record { at = λ w s p. p }

  pub Keeps-if : (b : Bool) (m n : Exec A) → Keeps P m → Keeps P n → Keeps P (if b then m else n)
  Keeps-if true m n km kn = km
  Keeps-if false m n km kn = kn

  catch_load-Keeps :
      (r : Result A) (h : WorkflowLoadError → A) (w : World) (s : System)
      → P s.db
      → P (catch_load r (λ e. pure (h e)) w s).1.db
  catch_load-Keeps (ok a) h w s p = p
  catch_load-Keeps (raise (load_error e)) h w s p = p
  catch_load-Keeps (raise e) h w s p = p

  pub Keeps-try_load :
      (m : Exec A) (h : WorkflowLoadError → A) → Keeps P m → Keeps P (try_load m (λ e. pure (h e)))
  Keeps-try_load m h k = record {
    at = λ w s p. let (r, s') = m w s in catch_load-Keeps r h w s' (k.at w s p);
  }

module _ {ℓ κ} (P : Database → Type 0) {A : Type ℓ} {B : Type κ} where
  continue-Keeps :
      (r : Result A) (f : A → Exec B)
      → ((a : A) → Keeps P (f a))
      → (w : World) (s : System) → P s.db
      → P (continue r f w s).1.db
  continue-Keeps (ok a) f k w s p = (k a).at w s p
  continue-Keeps (raise e) f k w s p = p

  pub Keeps-bind :
      (m : Exec A) (f : A → Exec B) → Keeps P m → ((a : A) → Keeps P (f a)) → Keeps P (m >>= f)
  Keeps-bind m f km kf = record {
    at = λ w s p. let (r, s') = m w s in continue-Keeps r f kf w s' (km.at w s p);
  }

module _ (P : Database → Type 0) (statement : Database → Option (Database × ℕ))
    (keeps : (d d' : Database) (n : ℕ) → statement d ≡ some (d', n) → P d → P d') where
  committed-Keeps :
      (o : Option (Database × ℕ)) (s : System)
      → statement s.db ≡ o
      → P s.db
      → P (committed statement o s).1.db
  committed-Keeps none s e p = p
  committed-Keeps (some (d, n)) s e p = keeps s.db d n e p

  pub Keeps-execute_query : Keeps P (execute_query statement)
  unfolding execute_query
  Keeps-execute_query = record {
    at = λ w s p. elim (Bool-cases (w.db_raises s.calls)) [
      | inl down ↦ rw down p
      | inr up ↦ rw up (committed-Keeps (statement s.db) (record s { calls = suc s.calls }) refl p)
    ];
  }
