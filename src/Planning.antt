-- ===== src/Planning.antt =====
-- Planning: packages/planning/src/index.ts.
pub mod Types
pub mod Open
pub mod Graph
pub mod Cycles
pub mod Order
pub mod Handoff
pub mod Verification
pub mod Coverage
pub mod Capabilities
pub mod Slicing
pub mod Examples
