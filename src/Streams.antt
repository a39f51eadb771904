-- ===== src/Streams.antt =====
-- packages/backend/src/nodes/node-streams.ts: the streams that one node connection carries.
pub mod Registry
pub mod Ending
pub mod Buffers
pub mod Content
mod Tests
