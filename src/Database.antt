-- ===== src/Database.antt =====
-- The tables of migrations/*.sql that the program reads and writes, row by row in the order of
-- insertion. Times are microseconds since an epoch, ids the numbers of the UUIDs.
pub mod Rows
pub mod Runs
pub mod Pool
pub mod Schedules
pub mod Migrate
pub mod Pending
pub mod Migrated
pub mod Registry
pub mod Distinct
use the_brain.Prelude.{ℕ, Bool, Option, List}
use the_brain.Text.{Text}
use the_brain.Runner.Models.{WorkflowRun}

-- `workflow_schedules`
pub record Schedule : Type 0 where
  pub workflow_name : Text
  pub workflow_file_path : Text
  pub cron_expression : Text
  pub enabled : Bool
  pub last_run_id : Option ℕ
  pub next_run_at : Option ℕ

-- `daemon_heartbeats`
pub record Heartbeat : Type 0 where
  pub daemon_id : Text
  pub started_at : ℕ
  pub last_tick_at : ℕ

-- `webhook_secrets`
pub record Webhook : Type 0 where
  pub workflow_name : Text
  pub hmac_secret : Text
  pub enabled : Bool
  pub workflow_file_path : Option Text

-- `file_watchers`
pub record FileWatcher : Type 0 where
  pub workflow_name : Text
  pub watched_path : Text
  pub watched_events : List Text
  pub enabled : Bool
  pub workflow_file_path : Option Text

pub record Database : Type 0 where
  pub runs : List WorkflowRun
  pub schedules : List Schedule
  pub heartbeats : List Heartbeat
  pub webhooks : List Webhook
  pub watchers : List FileWatcher
  -- `_migrations`: `none` where the table does not exist.
  pub migrations : Option (List Text)
  -- The scripts whose statements are in effect.
  pub applied_scripts : List Text
