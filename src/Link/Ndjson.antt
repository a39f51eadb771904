-- ===== src/Link/Ndjson.antt =====
-- packages/node-protocol/src/local-socket.ts: JSON-RPC frames over a byte stream, one to a line. The
-- encoder and the decoder of UTF-8 are parameters, and so are the stream under the socket and the
-- consumer of its messages, which may close the socket from its callback.
pub mod Framing
pub mod Chunks
pub mod Queue
pub mod Order
pub mod Delivery
mod Tests
