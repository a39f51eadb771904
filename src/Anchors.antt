-- ===== src/Anchors.antt =====
-- packages/backend/src/models/review-diff-anchor.ts: the anchor of a comment on lines of a patch.
pub mod Select
pub mod Pieces
pub mod Sides
pub mod Cuts
pub mod Files
pub mod Evidence
mod Tests
