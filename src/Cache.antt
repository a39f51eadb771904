-- ===== src/Cache.antt =====
-- packages/frontend/src/models/stores/session-cache.ts: the sessions that the browser knows.
pub mod Sessions
pub mod Operations
pub mod Equality
pub mod Mirror
pub mod Details
mod Tests
