-- ===== src/Link/Rpc.antt =====
-- packages/node-protocol/src/rpc.ts: the JSON-RPC peer. An operation takes the peer's state and
-- returns the next one with the effects that it has, in order. `JSON.stringify`, `JSON.parse` and zod
-- are not modelled: a frame arrives as the message that they read from it with its size in bytes, a
-- schema is a function that may refuse, and `Options` measures what is sent. A promise's settling, the
-- requests queued for handlers and the socket's writes are effects; timers and handlers report back by operations.
pub mod Effects
pub mod Calls
pub mod Inbound
pub mod Heartbeat
pub mod Trace
pub mod Settling
pub mod Bounds
pub mod Flight
pub mod Closing
pub mod Remembered
pub mod Evolving
pub mod Late
mod Tests
