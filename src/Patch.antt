-- ===== src/Patch.antt =====
-- packages/frontend/src/models/changes/patch.ts: unified patches of one file, read and undone.
pub mod Lines
pub mod Hunks
pub mod Reverse
pub mod Extract
pub mod Describes
pub mod Whole
pub mod Carriage
mod Tests
