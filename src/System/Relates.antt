-- ===== src/System/Relates.antt =====
-- What a call makes of the state: a relation between the state before it and the state behind it.
use the_brain.Prelude.{
  suc, Bool, true, false, Bool-cases, inl, inr, Option, none, some, ℕ, if◌then◌else◌,
}
use the_brain.Messages.{load_error, WorkflowLoadError, Exn, is_exception}
use the_brain.Database.{Database}
use the_brain.System.{
  try_load, catch_load, World, System, Exec, Result, ok, raise, pure, try_except, catch_result,
  continue, committed, execute_query, fetch, ◌>>=◌,
}

-- A relation that holds of every sequence of calls of the outside, whatever they do to the tables.
pub record IsHistory (R : System → System → Type 0) : Type 0 where
  pub stay : (s : System) → R s s
  pub go_on : (s t u : System) → R s t → R t u → R s u
  pub asked : (s : System) (d : Database) → R s (record s { calls = suc s.calls; db = d })

pub record Relates {ℓ} (R : System → System → Type 0) (w : World) {A : Type ℓ} (m : Exec A)
    : Type ℓ where
  pub at : (s : System) → R s (m w s).1

module _ (R : System → System → Type 0) (laws : IsHistory R) (w : World) where
  module _ {ℓ} {A : Type ℓ} where
    pub Relates-pure : (a : A) → Relates R w (pure a)
    Relates-pure a = record { at = laws.stay }

    pub Relates-if :
        (b : Bool) (m n : Exec A) → Relates R w m → Relates R w n → Relates R w (if b then m else n)
    Relates-if true m n h k = h
    Relates-if false m n h k = k

    pub Relates-fetch : (query : Database → A) → Relates R w (fetch query)
    unfolding fetch
    Relates-fetch query = record {
      at = λ s. elim (Bool-cases (w.db_raises s.calls)) [
        | inl fails ↦ rw fails (laws.asked s s.db)
        | inr works ↦ rw works (laws.asked s s.db)
      ];
    }

    catch-Relates :
        (r : Result A) (h : Exn → Exec A) (s : System)
        → ((e : Exn) → Relates R w (h e))
        → R s (catch_result r h w s).1
    catch-Relates (ok a) h s k = laws.stay s
    catch-Relates (raise e) h s k = elim (Bool-cases (is_exception e)) [
      | inl caught ↦ rw caught ((k e).at s)
      | inr not_caught ↦ rw not_caught (laws.stay s)
    ]

    pub Relates-try_except :
        (m : Exec A) (h : Exn → Exec A)
        → Relates R w m
        → ((e : Exn) → Relates R w (h e))
        → Relates R w (try_except m h)
    Relates-try_except m h k l = record {
      at = λ s. let (r, t) = m w s in laws.go_on s t _ (k.at s) (catch-Relates r h t l);
    }

  committed-Relates :
      (statement : Database → Option (Database × ℕ)) (o : Option (Database × ℕ)) (s : System)
      → R s (committed statement o (record s { calls = suc s.calls })).1
  committed-Relates statement none s = laws.asked s s.db
  committed-Relates statement (some (d, n)) s = laws.asked s d

  pub Relates-execute_query :
      (statement : Database → Option (Database × ℕ)) → Relates R w (execute_query statement)
  unfolding execute_query
  Relates-execute_query statement = record {
    at = λ s. elim (Bool-cases (w.db_raises s.calls)) [
      | inl fails ↦ rw fails (laws.asked s s.db)
      | inr works ↦ rw works (committed-Relates statement (statement s.db) s)
    ];
  }

  module _ {ℓ κ} {A : Type ℓ} {B : Type κ} where
    pub continue-Relates :
        (r : Result A) (f : A → Exec B) (s : System)
        → ((a : A) → Relates R w (f a))
        → R s (continue r f w s).1
    continue-Relates (ok a) f s k = (k a).at s
    continue-Relates (raise e) f s k = laws.stay s

    pub Relates-bind :
        (m : Exec A) (f : A → Exec B)
        → Relates R w m
        → ((a : A) → Relates R w (f a))
        → Relates R w (m >>= f)
    Relates-bind m f h k = record {
      at = λ s. let (r, t) = m w s in laws.go_on s t _ (h.at s) (continue-Relates r f t k);
    }

module _ {ℓ} (R : System → System → Type 0) (laws : IsHistory R) (w : World) {A : Type ℓ} where
  load-Relates :
      (r : Result A) (h : WorkflowLoadError → Exec A) (s : System)
      → ((e : WorkflowLoadError) → Relates R w (h e))
      → R s (catch_load r h w s).1
  load-Relates (ok a) h s k = laws.stay s
  load-Relates (raise (load_error e)) h s k = (k e).at s
  load-Relates (raise e) h s k = laws.stay s

  pub Relates-try_load :
      (m : Exec A) (h : WorkflowLoadError → Exec A)
      → Relates R w m
      → ((e : WorkflowLoadError) → Relates R w (h e))
      → Relates R w (try_load m h)
  Relates-try_load m h k l = record {
    at = λ s. let (r, t) = m w s in laws.go_on s t _ (k.at s) (load-Relates r h t l);
  }
