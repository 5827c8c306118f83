-- ===== src/Stress.antt =====
-- The stress harness of apps/factory-cli/src/stress.
pub mod Caps
mod Examples
