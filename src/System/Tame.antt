-- ===== src/System/Tame.antt =====
-- Calls that raise no BaseException: what a handler for `Exception` catches.
use the_brain.Prelude.{
  ◌≡◌, ◌≢◌, refl, Bool, true, false, Option, none, some, ℕ, suc, arith, if◌then◌else◌,
}
use the_brain.Messages.{Exn, is_exception, base_exception, WorkflowLoadError, load_error}
use the_brain.Database.{Database}
use the_brain.System.{
  World, System, Exec, Result, ok, raise, pure, throw, ask, try_except, try_load, catch_result,
  catch_load, continue, committed, execute_query, fetch, raise_unless, or_raise, ◌>>=◌,
}

pub record Tame {ℓ} {A : Type ℓ} (w : World) (m : Exec A) : Type ℓ where
  pub at : (s : System) → (m w s).0 ≢ raise base_exception

module _ {ℓ} {A : Type ℓ} (w : World) where
  pub Tame-pure : (a : A) → Tame w (pure a)
  Tame-pure a = record { at = λ s h. cc }

  pub Tame-throw : (e : Exn) → is_exception e ≡ true → Tame w (throw {A = A} e)
  unfolding is_exception
  Tame-throw e h = record { at = λ s k. ground arith }

  pub Tame-ask : (f : World → ℕ → A) → Tame w (ask f)
  Tame-ask f = record { at = λ s h. cc }

  pub Tame-or_raise : (o : Option A) (e : Exn) → is_exception e ≡ true → Tame w (or_raise o e)
  Tame-or_raise none e h = Tame-throw e h
  Tame-or_raise (some a) e h = Tame-pure a

  pub Tame-fetch : (query : Database → A) → Tame w (fetch query)
  unfolding fetch
  Tame-fetch query = record { at = λ s h. ground arith }

  pub Tame-if : (b : Bool) (m n : Exec A) → Tame w m → Tame w n → Tame w (if b then m else n)
  Tame-if true m n h k = h
  Tame-if false m n h k = k

  catch-Tame :
      (r : Result A) (h : Exn → Exec A) (s : System)
      → r ≢ raise base_exception
      → ((e : Exn) → Tame w (h e))
      → (catch_result r h w s).0 ≢ raise base_exception
  unfolding is_exception
  catch-Tame (ok a) h s t q k = cc
  catch-Tame (raise base_exception) h s t q k = t refl
  catch-Tame (raise e) h s t q k = (q e).at s k

  pub Tame-try_except :
      (m : Exec A) (h : Exn → Exec A)
      → Tame w m
      → ((e : Exn) → Tame w (h e))
      → Tame w (try_except m h)
  Tame-try_except m h t q = record { at = λ s. let (r, s') = m w s in catch-Tame r h s' (t.at s) q }

  catch_load-Tame :
      (r : Result A) (h : WorkflowLoadError → Exec A) (s : System)
      → r ≢ raise base_exception
      → ((e : WorkflowLoadError) → Tame w (h e))
      → (catch_load r h w s).0 ≢ raise base_exception
  catch_load-Tame (raise (load_error e)) h s t q = (q e).at s
  catch_load-Tame (ok a) h s t q = t
  catch_load-Tame (raise e) h s t q = t

  pub Tame-try_load :
      (m : Exec A) (h : WorkflowLoadError → Exec A)
      → Tame w m
      → ((e : WorkflowLoadError) → Tame w (h e))
      → Tame w (try_load m h)
  Tame-try_load m h t q = record {
    at = λ s. let (r, s') = m w s in catch_load-Tame r h s' (t.at s) q;
  }

module _ {ℓ κ} {A : Type ℓ} {B : Type κ} (w : World) where
  pub continue-Tame :
      (r : Result A) (f : A → Exec B) (s : System)
      → r ≢ raise base_exception
      → ((a : A) → Tame w (f a))
      → (continue r f w s).0 ≢ raise base_exception
  continue-Tame (ok a) f s t q = (q a).at s
  continue-Tame (raise e) f s t q = λ k. t (ground arith)

  pub Tame-bind :
      (m : Exec A) (f : A → Exec B) → Tame w m → ((a : A) → Tame w (f a)) → Tame w (m >>= f)
  Tame-bind m f t q = record { at = λ s. let (r, s') = m w s in continue-Tame r f s' (t.at s) q }

module _ {ℓ κ} {A : Type ℓ} {B : Type κ} (w : World) where
  pub Tame-ask_bind :
      (f : World → ℕ → A) (k : A → Exec B) → ((n : ℕ) → Tame w (k (f w n))) → Tame w (ask f >>= k)
  Tame-ask_bind f k t = record { at = λ s. (t s.calls).at (record s { calls = suc s.calls }) }

pub Tame-raise_unless :
    (w : World) (b : Bool) (e : Exn) → is_exception e ≡ true → Tame w (raise_unless b e)
Tame-raise_unless w true e h = Tame-pure w tt
Tame-raise_unless w false e h = Tame-throw w e h

committed_tame :
    (statement : Database → Option (Database × ℕ)) (o : Option (Database × ℕ)) (s : System)
    → (committed statement o s).0 ≢ raise base_exception
committed_tame statement none s h = cc
committed_tame statement (some (d, n)) s h = cc

pub Tame-execute_query :
    (w : World) (statement : Database → Option (Database × ℕ)) → Tame w (execute_query statement)
unfolding execute_query
Tame-execute_query w statement = record {
  at = λ s h. ground (arith, committed_tame statement (statement s.db));
}

pub ruleset tame_rules = (
  Tame-pure, Tame-throw, Tame-ask, Tame-or_raise, Tame-fetch, Tame-try_except, Tame-try_load,
  Tame-bind, Tame-raise_unless, Tame-execute_query,
)
