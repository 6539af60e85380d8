-- ===== src/Runner.antt =====
-- src/runner/: running a workflow and recording the run.
pub mod Models
pub mod Placeholder
pub mod Resolve
pub mod Run
