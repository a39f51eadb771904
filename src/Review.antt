-- ===== src/Review.antt =====
-- packages/backend/src/models/code-review.ts: a saved code review and its annotations.
pub mod Model
pub mod Operations
pub mod Identity
pub mod Laws
mod Tests
