-- ===== src/Runs.antt =====
-- packages/backend/src/sessions/session-runs.ts: how the server records the ends of runs.
pub mod Store
pub mod Replies
pub mod Settling
pub mod Recovery
pub mod Budget
pub mod Rows
pub mod Sweep
pub mod Interrupted
mod Tests
