-- ===== src/Executors.antt =====
-- src/executors and src/clients/memory_vault.py: what the steps of a workflow do.
pub mod Shell
pub mod Llm
pub mod Vault
pub mod Tool
pub mod Dispatch
pub mod Results
pub mod Children
pub mod Processes
pub mod Tame
pub mod Reaped
