-- ===== src/Review/Identity.antt =====
-- code-review.ts: what stays true of a review.
pub mod Validity
pub mod Additions
pub mod Imports
pub mod Replies
pub mod Deletions
pub mod Histories
