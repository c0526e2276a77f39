-- ===== src/Review.antt =====
-- The review of submissions.
pub mod Submission
pub mod Validator
pub mod Tables
pub mod Cache
pub mod Standing
pub mod Bot
pub mod Row
