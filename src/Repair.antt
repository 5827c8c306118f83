-- ===== src/Repair.antt =====
-- packages/repair/src: which tasks a repair touches, what it is told, and which proposals stand.
pub mod Subgraph
pub mod Synthesis
pub mod Proposal
mod Examples
