-- ===== src/Authority.antt =====
-- packages/authority/src: the intersection of the tiers' envelopes, and the checks of grants.
pub mod Envelope
pub mod Tiers
pub mod Sameness
pub mod Precedence
pub mod Operations
mod Examples
