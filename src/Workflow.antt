-- ===== src/Workflow.antt =====
-- src/workflow/: the file format that users write.
pub mod Models
pub mod Paths
pub mod Loader
