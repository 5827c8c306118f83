-- ===== src/RealExecution.antt =====
-- apps/factory-cli/src/run-real-execution.ts: the executor that runs the tasks of a plan for real.
pub mod Types
pub mod Emission
pub mod Patches
pub mod Tasks
pub mod Run
pub mod Logic
pub mod Actions
pub mod Traces
pub mod Bodies
pub mod Replay
pub mod Journals
pub mod Resume
pub mod Examples
