-- ===== src/Review.antt =====
-- packages/review/src: the review-repair loop.
pub mod Types
pub mod Effects
pub mod Loop
pub mod Mechanical
mod Examples
