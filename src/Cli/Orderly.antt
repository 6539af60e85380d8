-- ===== src/Cli/Orderly.antt =====
-- Calls of src/cli.py that keep the names of the registrations apart and never run into a UNIQUE
-- constraint, one rule for each way to build a call.
use the_brain.Database.Schedules.{named}
use the_brain.Database.Registry.{
  webhook_named, watcher_named, insert_webhook, insert_watcher, insert_schedule,
}
use the_brain.Prelude.{
  any, inr, nat_eq, false, inl, Bool-cases, ◌≡◌, ◌==◌, some, none, Bool, suc, if◌then◌else◌, ℕ, ap,
  Option, ◌≢◌,
}
use the_brain.Cli.{insert_new, change_named, name_taken, no_such_name, exit_ok, exit_error, Exit}
use the_brain.Messages.{Exn, unique_violation, load_error, WorkflowLoadError}
use the_brain.Database.{FileWatcher, Schedule, Webhook, Database}
use the_brain.System.{
  World, System, Exec, Result, ok, raise, pure, fetch, try_load, catch_load, continue, committed,
  execute_query, ◌>>=◌,
}
use the_brain.System.Keeps.{
  Keeps, Keeps-Quiet, Keeps-pure, Keeps-if, Keeps-try_load, Keeps-bind, Keeps-execute_query,
}
use the_brain.System.Quiet.{Quiet, Quiet-fetch}
use the_brain.Cli.Registrations.{
  insert_schedule-Safe, insert_webhook-Safe, insert_watcher-Safe, AllDistinct, Safe,
}
use the_brain.Text.{Text}
use the_brain.Prelude.{refl, true, false, suc, none, some, inl, inr}

pub record Orderly {ℓ} {A : Type ℓ} (m : Exec A) : Type ℓ where
  pub keeps : Keeps AllDistinct m
  pub apart : (w : World) (s : System) → (m w s).0 ≢ raise unique_violation

module _ {ℓ} {A : Type ℓ} where
  pub Orderly-Quiet :
      (m : Exec A)
      → Quiet m
      → ((w : World) (s : System) → (m w s).0 ≢ raise unique_violation)
      → Orderly m
  Orderly-Quiet m q apart = record { keeps = Keeps-Quiet AllDistinct m q; apart = apart }

  pub Orderly-pure : (a : A) → Orderly (pure a)
  Orderly-pure a = record { keeps = Keeps-pure AllDistinct a; apart = λ w s h. cc }

  pub Orderly-if : (b : Bool) (m n : Exec A) → Orderly m → Orderly n → Orderly (if b then m else n)
  Orderly-if true m n om on = om
  Orderly-if false m n om on = on

  catch_load_apart :
      (r : Result A) (f : WorkflowLoadError → A) (w : World) (s : System)
      → r ≢ raise unique_violation
      → (catch_load r (λ e. pure (f e)) w s).0 ≢ raise unique_violation
  catch_load_apart (ok a) f w s k = k
  catch_load_apart (raise (load_error e)) f w s k = λ h. cc
  catch_load_apart (raise e) f w s k = k

  pub Orderly-try_load :
      (m : Exec A) (f : WorkflowLoadError → A) → Orderly m → Orderly (try_load m (λ e. pure (f e)))
  Orderly-try_load m f o = record {
    keeps = Keeps-try_load AllDistinct m f o.keeps;
    apart = λ w s. catch_load_apart (m w s).0 f w (m w s).1 (o.apart w s);
  }

module _ {ℓ κ} {A : Type ℓ} {B : Type κ} where
  continue_apart :
      (r : Result A) (f : A → Exec B) (w : World) (s : System)
      → r ≢ raise unique_violation
      → ((a : A) → (f a w s).0 ≢ raise unique_violation)
      → (continue r f w s).0 ≢ raise unique_violation
  continue_apart (ok a) f w s k kf = kf a
  continue_apart (raise e) f w s k kf = λ h. k (ap (λ (r : Result B). raise (exn_of e r)) h)
    where
      exn_of : Exn → Result B → Exn
      exn_of e (ok b) = e
      exn_of e (raise e') = e'

  pub Orderly-bind :
      (m : Exec A) (f : A → Exec B) → Orderly m → ((a : A) → Orderly (f a)) → Orderly (m >>= f)
  Orderly-bind m f om of = record {
    keeps = Keeps-bind AllDistinct m f om.keeps (λ a. (of a).keeps);
    apart = λ w s.
        continue_apart (m w s).0 f w (m w s).1 (om.apart w s) (λ a. (of a).apart w (m w s).1);
  }

module _ (statement : Database → Option (Database × ℕ)) where
  committed_apart :
      (o : Option (Database × ℕ)) (s : System)
      → o ≢ none
      → (committed statement o s).0 ≢ raise unique_violation
  committed_apart none s k = absurd (k refl)
  committed_apart (some (d, n)) s k = λ h. cc

  query_apart :
      (w : World) (s : System)
      → statement s.db ≢ none
      → (execute_query statement w s).0 ≢ raise unique_violation
  unfolding execute_query
  query_apart w s k = elim (Bool-cases (w.db_raises s.calls)) [
    | inl down ↦ rw down (λ h. cc)
    | inr up ↦ rw up (committed_apart (statement s.db) (record s { calls = suc s.calls }) k)
  ]

  pub Orderly-execute_query :
      Safe statement → ((d : Database) → statement d ≢ none) → Orderly (execute_query statement)
  Orderly-execute_query safe never = record {
    keeps = Keeps-execute_query AllDistinct statement safe;
    apart = λ w s. query_apart w s (never s.db);
  }

  module _ (name : Text) (exists : Database → Bool) where
    insert : Bool → Exec Exit
    insert taken =
        if taken
        then pure (exit_error (name_taken name))
        else (execute_query statement >>= λ _. pure exit_ok)

    insert_apart :
        (taken : Bool) (w : World) (s : System)
        → (taken ≡ false → statement s.db ≢ none)
        → (insert taken w s).0 ≢ raise unique_violation
    unfolding insert
    insert_apart true w s free = λ h. cc
    insert_apart false w s free =
        continue_apart (execute_query statement w s).0 (λ _. pure exit_ok) w
          (execute_query statement w s).1 (query_apart w s (free refl)) λ n h. cc

    insert_new_apart :
        ((d : Database) → exists d ≡ false → statement d ≢ none)
        → (w : World) (s : System)
        → (insert_new name exists statement w s).0 ≢ raise unique_violation
    unfolding fetch insert
    insert_new_apart free w s = elim (Bool-cases (w.db_raises s.calls)) [
      | inl down ↦ rw down (λ h. cc)
      | inr up ↦ rw up (insert_apart (exists s.db) w (record s { calls = suc s.calls }) (free s.db))
    ]

    insert-Keeps : Safe statement → (taken : Bool) → Keeps AllDistinct (insert taken)
    unfolding insert
    insert-Keeps safe taken =
        Keeps-if AllDistinct taken (pure (exit_error (name_taken name)))
          (execute_query statement >>= λ _. pure exit_ok)
          (Keeps-pure AllDistinct (exit_error (name_taken name)))
          (Keeps-bind AllDistinct (execute_query statement) (λ _. pure exit_ok)
            (Keeps-execute_query AllDistinct statement safe) λ _. Keeps-pure AllDistinct exit_ok)

    -- An INSERT that the constraint refuses only where the SELECT has found the name.
    pub Orderly-insert_new :
        Safe statement
        → ((d : Database) → exists d ≡ false → statement d ≢ none)
        → Orderly (insert_new name exists statement)
    unfolding insert
    Orderly-insert_new safe free = record {
      keeps =
          Keeps-bind AllDistinct (fetch exists) insert
            (Keeps-Quiet AllDistinct (fetch exists) (Quiet-fetch exists)) (insert-Keeps safe);
      apart = insert_new_apart free;
    }

  found_row : Text → ℕ → Exec Exit
  found_row name rowcount =
      if rowcount == 0 then pure (exit_error (no_such_name name)) else pure exit_ok

  found_row-Orderly : (name : Text) (rowcount : ℕ) → Orderly (found_row name rowcount)
  unfolding found_row
  found_row-Orderly name rowcount =
      Orderly-if (rowcount == 0) (pure (exit_error (no_such_name name))) (pure exit_ok)
        (Orderly-pure (exit_error (no_such_name name))) (Orderly-pure exit_ok)

  pub Orderly-change_named :
      (name : Text)
      → Safe statement
      → ((d : Database) → statement d ≢ none)
      → Orderly (change_named name statement)
  unfolding found_row
  Orderly-change_named name safe never =
      Orderly-bind (execute_query statement) (found_row name) (Orderly-execute_query safe never)
        (found_row-Orderly name)

-- The three INSERTs behind the SELECT for their name.
pub Orderly-schedule :
    (row : Schedule)
    → Orderly (
        insert_new row.workflow_name
          (λ d. any (named row.workflow_name) d.schedules)
          (insert_schedule row))
unfolding insert_schedule
Orderly-schedule row =
    Orderly-insert_new (insert_schedule row) row.workflow_name
      (λ d. any (named row.workflow_name) d.schedules) (insert_schedule-Safe row)
      λ d free h. let never = rw free at h in cc

pub Orderly-webhook :
    (row : Webhook)
    → Orderly (
        insert_new row.workflow_name
          (λ d. any (webhook_named row.workflow_name) d.webhooks)
          (insert_webhook row))
unfolding insert_webhook
Orderly-webhook row =
    Orderly-insert_new (insert_webhook row) row.workflow_name
      (λ d. any (webhook_named row.workflow_name) d.webhooks) (insert_webhook-Safe row)
      λ d free h. let never = rw free at h in cc

pub Orderly-watcher :
    (row : FileWatcher)
    → Orderly (
        insert_new row.workflow_name
          (λ d. any (watcher_named row.workflow_name) d.watchers)
          (insert_watcher row))
unfolding insert_watcher
Orderly-watcher row =
    Orderly-insert_new (insert_watcher row) row.workflow_name
      (λ d. any (watcher_named row.workflow_name) d.watchers) (insert_watcher-Safe row)
      λ d free h. let never = rw free at h in cc
