-- ===== src/Diff.antt =====
-- packages/backend/src/models/diff-parser.ts: a unified diff of several files, as it is shown.
pub mod Unified
pub mod Numbering
pub mod Counting
pub mod Numstat
pub mod Numstats
pub mod Lost
mod Tests
