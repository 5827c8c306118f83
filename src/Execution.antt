-- ===== src/Execution.antt =====
-- packages/execution/src: the dry run of a plan, the task journal and its snapshot.
pub mod Tasks
pub mod DryRun
pub mod Journal
mod Examples
