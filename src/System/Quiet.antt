-- ===== src/System/Quiet.antt =====
-- Calls that leave the database alone, one rule for each way to build a call.
use the_brain.Prelude.{
  ◌≡◌, refl, ◌∙◌, Bool, true, false, Option, none, some, ℕ, inl, inr, arith, Bool-cases,
  if◌then◌else◌,
}
use the_brain.Messages.{Exn, is_exception}
use the_brain.Database.{Database}
use the_brain.System.{
  World, System, Exec, Result, ok, raise, pure, throw, ask, try_except, catch_result, continue,
  raise_unless, or_raise, fetch, ◌>>=◌,
}

pub record Quiet {ℓ} {A : Type ℓ} (m : Exec A) : Type ℓ where
  pub at : (w : World) (s : System) → (m w s).1.db ≡ s.db

module _ {ℓ} {A : Type ℓ} where
  pub Quiet-pure : (a : A) → Quiet (pure a)
  Quiet-pure a = record { at = λ w s. refl }

  pub Quiet-throw : (e : Exn) → Quiet (throw {A = A} e)
  Quiet-throw e = record { at = λ w s. refl }

  pub Quiet-ask : (f : World → ℕ → A) → Quiet (ask f)
  Quiet-ask f = record { at = λ w s. refl }

  pub Quiet-or_raise : (o : Option A) (e : Exn) → Quiet (or_raise o e)
  Quiet-or_raise none e = Quiet-throw e
  Quiet-or_raise (some a) e = Quiet-pure a

  pub Quiet-if : (b : Bool) (m n : Exec A) → Quiet m → Quiet n → Quiet (if b then m else n)
  Quiet-if true m n qm qn = qm
  Quiet-if false m n qm qn = qn

  pub Quiet-fetch : (query : Database → A) → Quiet (fetch query)
  unfolding fetch
  Quiet-fetch query = record { at = λ w s. ground arith }

  catch-Quiet :
      (r : Result A) (h : Exn → Exec A)
      → ((e : Exn) → Quiet (h e))
      → (w : World) (s : System) → (catch_result r h w s).1.db ≡ s.db
  catch-Quiet (ok a) h q w s = refl
  catch-Quiet (raise e) h q w s = elim (Bool-cases (is_exception e)) [
    | inl p ↦ rw p ((q e).at w s)
    | inr p ↦ rw p
  ]

  pub Quiet-try_except :
      (m : Exec A) (h : Exn → Exec A) → Quiet m → ((e : Exn) → Quiet (h e)) → Quiet (try_except m h)
  Quiet-try_except m h qm qh = record {
    at = λ w s. let (r, s') = m w s in catch-Quiet r h qh w s' ∙ qm.at w s;
  }

module _ {ℓ κ} {A : Type ℓ} {B : Type κ} where
  continue-Quiet :
      (r : Result A) (f : A → Exec B)
      → ((a : A) → Quiet (f a))
      → (w : World) (s : System) → (continue r f w s).1.db ≡ s.db
  continue-Quiet (ok a) f q w s = (q a).at w s
  continue-Quiet (raise e) f q w s = refl

  pub Quiet-bind :
      (m : Exec A) (f : A → Exec B) → Quiet m → ((a : A) → Quiet (f a)) → Quiet (m >>= f)
  Quiet-bind m f qm qf = record {
    at = λ w s. let (r, s') = m w s in continue-Quiet r f qf w s' ∙ qm.at w s;
  }

pub Quiet-raise_unless : (b : Bool) (e : Exn) → Quiet (raise_unless b e)
Quiet-raise_unless true e = Quiet-pure tt
Quiet-raise_unless false e = Quiet-throw e

pub ruleset quiet_rules = (
  Quiet-pure, Quiet-throw, Quiet-ask, Quiet-or_raise, Quiet-if, Quiet-fetch, Quiet-try_except,
  Quiet-bind, Quiet-raise_unless,
)
