-- ===== src/Review.antt =====
-- internal/hosted/review: what happens to the findings of a review worker before delivery.
pub mod Finding
pub mod Rank
pub mod LineMap
pub mod ReReview
pub mod Confidence
pub mod Addressed
pub mod Verifier
mod Samples
pub mod Words
pub mod Blocks
