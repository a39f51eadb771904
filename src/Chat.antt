-- ===== src/Chat.antt =====
-- packages/frontend/src/models/chat-state.ts: what the panel of a session shows of a running agent.
pub mod State
pub mod Reducer
pub mod Changes
pub mod Streams
pub mod Distinct
pub mod Tools
mod Tests
