-- ===== src/Serving.antt =====
-- packages/node/src/node-connection/streams.ts: the node's end of the streams of a connection.
pub mod Pump
pub mod Frames
pub mod Sends
pub mod Prefix
pub mod Whole
pub mod Arrival
mod Tests
