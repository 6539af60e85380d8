-- ===== src/Database/Registry.antt =====
-- The statements of src/cli.py on the three tables of registrations. Each has a UNIQUE
-- `workflow_name`.
use the_brain.Prelude.{ℕ, Bool, Option, none, some, [], ◌∷◌, ◌++◌, any, count, ◌==◌, if◌then◌else◌}
use the_brain.Text.{Text, text_eq}
use the_brain.Database.{Database, Schedule, Webhook, FileWatcher}
use the_brain.Database.Rows.{update_where, delete_where}
use the_brain.Database.Schedules.{named}

abbrev pub webhook_named : Text → Webhook → Bool
webhook_named name r = r.workflow_name == name

abbrev pub watcher_named : Text → FileWatcher → Bool
watcher_named name r = r.workflow_name == name

unfoldable pub insert_schedule : Schedule → Database → Option (Database × ℕ)
insert_schedule row d =
    if any (named row.workflow_name) d.schedules
    then none
    else some (record d { schedules = d.schedules ++ row ∷ [] }, 1)

unfoldable pub enable_schedule : Bool → Text → Database → Option (Database × ℕ)
enable_schedule enabled name d = some (
  record d {
    schedules = update_where (named name) (λ r. record r { enabled = enabled }) d.schedules;
  },
  count (named name) d.schedules,
)

unfoldable pub delete_schedule : Text → Database → Option (Database × ℕ)
delete_schedule name d =
    some (
      record d { schedules = delete_where (named name) d.schedules },
      count (named name) d.schedules,
    )

unfoldable pub insert_webhook : Webhook → Database → Option (Database × ℕ)
insert_webhook row d =
    if any (webhook_named row.workflow_name) d.webhooks
    then none
    else some (record d { webhooks = d.webhooks ++ row ∷ [] }, 1)

unfoldable pub enable_webhook : Bool → Text → Database → Option (Database × ℕ)
enable_webhook enabled name d = some (
  record d {
    webhooks = update_where (webhook_named name) (λ r. record r { enabled = enabled }) d.webhooks;
  },
  count (webhook_named name) d.webhooks,
)

unfoldable pub delete_webhook : Text → Database → Option (Database × ℕ)
delete_webhook name d = some (
  record d { webhooks = delete_where (webhook_named name) d.webhooks },
  count (webhook_named name) d.webhooks,
)

unfoldable pub insert_watcher : FileWatcher → Database → Option (Database × ℕ)
insert_watcher row d =
    if any (watcher_named row.workflow_name) d.watchers
    then none
    else some (record d { watchers = d.watchers ++ row ∷ [] }, 1)

unfoldable pub enable_watcher : Bool → Text → Database → Option (Database × ℕ)
enable_watcher enabled name d = some (
  record d {
    watchers = update_where (watcher_named name) (λ r. record r { enabled = enabled }) d.watchers;
  },
  count (watcher_named name) d.watchers,
)

unfoldable pub delete_watcher : Text → Database → Option (Database × ℕ)
delete_watcher name d = some (
  record d { watchers = delete_where (watcher_named name) d.watchers },
  count (watcher_named name) d.watchers,
)
