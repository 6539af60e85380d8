-- ===== src/Api/Disabled.antt =====
-- A webhook that `_set_webhook_enabled` of src/cli.py turned off.
use the_brain.Prelude.{
  subst, Bool-cases, refl, ◌∙◌, ap, sym, ◌≡◌, ℕ, suc, false, Option, none, some, List, [], ◌∷◌,
  find, arith, inl, inr, ◌⊎◌, nat_eq,
}
use the_brain.Text.{Text, text_eq}
use the_brain.Dict.{Dict}
use the_brain.Database.{Database, Webhook}
use the_brain.Database.Rows.{update_where}
use the_brain.Database.Registry.{webhook_named, enable_webhook}
use the_brain.System.{World, System, ok, execute_query, fetch}
use the_brain.Runner.Run.{Executor}
use the_brain.Cli.{set_webhook_enabled}
use the_brain.Api.{webhook_endpoint, webhook_of, rejected, not_found}

abbrev Off : Option Webhook → Type 0
Off o = (o ≡ none) ⊎ ((row : Webhook) × (o ≡ some row) × (row.enabled ≡ false))

find-Off :
    (name : Text) (rows : List Webhook)
    → Off (
        find
          (webhook_named name)
          (update_where (webhook_named name) (λ r. record r { enabled = false }) rows))
unfolding find update_where
find-Off name [] = inl refl
find-Off name (r ∷ rows) = elim (Bool-cases (webhook_named name r)) [
  | inl e ↦ inr (record r { enabled = false }, rw (e, e), refl)
  | inr e ↦ rw (e, e) (find-Off name rows)
]

disabled_db :
    (name : Text) (w : World) (s : System)
    → w.db_raises s.calls ≡ false
    → (set_webhook_enabled name false w s).1.db ≡ record s.db {
      webhooks =
          update_where (webhook_named name) (λ r. record r { enabled = false }) s.db.webhooks;
    }
unfolding set_webhook_enabled execute_query enable_webhook
disabled_db name w s up = ground arith

Off-refused :
    (x : Executor) (w : World) (name : Text) (raw_body : List ℕ) (headers : Dict Text Text)
    (s : System)
    → Off (webhook_of name s.db)
    → w.db_raises s.calls ≡ false
    → webhook_endpoint x name raw_body headers w s
      ≡ (ok (rejected 404 not_found), record s { calls = suc s.calls })
unfolding webhook_endpoint fetch
Off-refused x w name raw_body headers s (inl missing) up = rw (up, missing)
Off-refused x w name raw_body headers s (inr (row, found, off)) up = rw (up, found, off)

-- Where the UPDATE of `disable-webhook` did not fail, every later request to that webhook is answered
-- with a 404 and does nothing else, whatever its body, signature and headers are, as long as the table of
-- webhooks is as the command left it and the SELECT does not fail.
pub set_webhook_enabled-Refused :
    (x : Executor) (name : Text) (w : World) (s : System)
    → w.db_raises s.calls ≡ false
    → (v : World) (t : System) → t.db.webhooks ≡ (set_webhook_enabled name false w s).1.db.webhooks
    → v.db_raises t.calls ≡ false
    → (raw_body : List ℕ) (headers : Dict Text Text)
    → webhook_endpoint x name raw_body headers v t
      ≡ (ok (rejected 404 not_found), record t { calls = suc t.calls })
set_webhook_enabled-Refused x name w s up v t same up' raw_body headers =
    let table = same ∙ ap (λ (d : Database). d.webhooks) (disabled_db name w s up) in
    Off-refused x v name raw_body headers t
      (subst (λ rows. Off (find (webhook_named name) rows)) (sym table)
        (find-Off name s.db.webhooks))
      up'
