-- ===== src/Scheduler.antt =====
-- src/scheduler/: cron expressions and the daemon that fires due workflows.
pub mod Cron
pub mod Daemon
