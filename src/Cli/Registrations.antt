-- ===== src/Cli/Registrations.antt =====
-- The statements of src/cli.py and the names of the registrations.
use the_brain.Prelude.{
  if◌then◌else◌, if◌then◌else◌, refl, ◌≡◌, ap, subst, ℕ, Bool, true, false, Option, none, some, any,
  not, nat_eq,
}
use the_brain.Text.{Text, text_eq}
use the_brain.Database.{Database, Schedule, Webhook, FileWatcher}
use the_brain.Database.Distinct.{Distinct, Distinct-append, Distinct-update_where, Distinct-keep}
use the_brain.Database.Rows.{delete_where}
use the_brain.Database.Schedules.{named}
use the_brain.Database.Registry.{
  webhook_named, watcher_named, insert_schedule, enable_schedule, delete_schedule, insert_webhook,
  enable_webhook, delete_webhook, insert_watcher, enable_watcher, delete_watcher,
}

-- No two schedules, no two webhooks and no two watchers have one name.
pub record AllDistinct (d : Database) : Type 0 where
  pub schedules : Distinct (λ r. r.workflow_name) d.schedules
  pub webhooks : Distinct (λ r. r.workflow_name) d.webhooks
  pub watchers : Distinct (λ r. r.workflow_name) d.watchers

abbrev db_of : Option (Database × ℕ) → Database → Database
db_of none d = d
db_of (some (d', n)) d = d'

abbrev answer : Database → ℕ → Option (Database × ℕ)
answer d n = some (d, n)

-- A statement that keeps the names apart.
abbrev pub Safe : (Database → Option (Database × ℕ)) → Type 0
Safe statement =
    (d d' : Database) (n : ℕ) → statement d ≡ some (d', n) → AllDistinct d → AllDistinct d'

-- The INSERT of a row whose name is refused where it is in use.
inserted :
    (taken : Bool) (d d1 d' : Database) (n : ℕ)
    → (if taken then none else answer d1 1) ≡ answer d' n
    → (taken ≡ false → AllDistinct d1)
    → AllDistinct d'
inserted true d d1 d' n h k = cc
inserted false d d1 d' n h k = subst AllDistinct (ap (λ o. db_of o d) h) (k refl)

changed : (d1 d' : Database) (m n : ℕ) → answer d1 m ≡ answer d' n → AllDistinct d1 → AllDistinct d'
changed d1 d' m n h k = subst AllDistinct (ap (λ o. db_of o d1) h) k

pub insert_schedule-Safe : (row : Schedule) → Safe (insert_schedule row)
unfolding insert_schedule
insert_schedule-Safe row d d' n h a =
    inserted (any (named row.workflow_name) d.schedules) d _ d' n h λ fresh. record {
      schedules = Distinct-append (λ r. r.workflow_name) row d.schedules fresh a.schedules;
      webhooks = a.webhooks;
      watchers = a.watchers;
    }

pub insert_webhook-Safe : (row : Webhook) → Safe (insert_webhook row)
unfolding insert_webhook
insert_webhook-Safe row d d' n h a =
    inserted (any (webhook_named row.workflow_name) d.webhooks) d _ d' n h λ fresh. record {
      schedules = a.schedules;
      webhooks = Distinct-append (λ r. r.workflow_name) row d.webhooks fresh a.webhooks;
      watchers = a.watchers;
    }

pub insert_watcher-Safe : (row : FileWatcher) → Safe (insert_watcher row)
unfolding insert_watcher
insert_watcher-Safe row d d' n h a =
    inserted (any (watcher_named row.workflow_name) d.watchers) d _ d' n h λ fresh. record {
      schedules = a.schedules;
      webhooks = a.webhooks;
      watchers = Distinct-append (λ r. r.workflow_name) row d.watchers fresh a.watchers;
    }

pub enable_schedule-Safe : (enabled : Bool) (name : Text) → Safe (enable_schedule enabled name)
unfolding enable_schedule
enable_schedule-Safe enabled name d d' n h a = changed _ d' _ n h (record {
  schedules =
      Distinct-update_where (λ r. r.workflow_name) (named name)
        (λ r. record r { enabled = enabled }) (λ r. refl) d.schedules a.schedules;
  webhooks = a.webhooks;
  watchers = a.watchers;
})

pub enable_webhook-Safe : (enabled : Bool) (name : Text) → Safe (enable_webhook enabled name)
unfolding enable_webhook
enable_webhook-Safe enabled name d d' n h a = changed _ d' _ n h (record {
  schedules = a.schedules;
  webhooks =
      Distinct-update_where (λ r. r.workflow_name) (webhook_named name)
        (λ r. record r { enabled = enabled }) (λ r. refl) d.webhooks a.webhooks;
  watchers = a.watchers;
})

pub enable_watcher-Safe : (enabled : Bool) (name : Text) → Safe (enable_watcher enabled name)
unfolding enable_watcher
enable_watcher-Safe enabled name d d' n h a = changed _ d' _ n h (record {
  schedules = a.schedules;
  webhooks = a.webhooks;
  watchers =
      Distinct-update_where (λ r. r.workflow_name) (watcher_named name)
        (λ r. record r { enabled = enabled }) (λ r. refl) d.watchers a.watchers;
})

pub delete_schedule-Safe : (name : Text) → Safe (delete_schedule name)
unfolding delete_schedule delete_where
delete_schedule-Safe name d d' n h a = changed _ d' _ n h (record {
  schedules =
      Distinct-keep (λ r. r.workflow_name) (λ r. not (named name r)) d.schedules a.schedules;
  webhooks = a.webhooks;
  watchers = a.watchers;
})

pub delete_webhook-Safe : (name : Text) → Safe (delete_webhook name)
unfolding delete_webhook delete_where
delete_webhook-Safe name d d' n h a = changed _ d' _ n h (record {
  schedules = a.schedules;
  webhooks =
      Distinct-keep (λ r. r.workflow_name) (λ r. not (webhook_named name r)) d.webhooks a.webhooks;
  watchers = a.watchers;
})

pub delete_watcher-Safe : (name : Text) → Safe (delete_watcher name)
unfolding delete_watcher delete_where
delete_watcher-Safe name d d' n h a = changed _ d' _ n h (record {
  schedules = a.schedules;
  webhooks = a.webhooks;
  watchers =
      Distinct-keep (λ r. r.workflow_name) (λ r. not (watcher_named name r)) d.watchers a.watchers;
})
