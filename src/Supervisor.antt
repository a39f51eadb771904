-- ===== src/Supervisor.antt =====
-- packages/backend/src/supervisor.ts: starting, restarting and stopping the processes of REINS.
pub mod Services
pub mod Process
pub mod Backoffs
pub mod Single
pub mod Alive
pub mod Runs
pub mod Stopping
mod Tests
