-- ===== src/AppClient.antt =====
-- packages/frontend/src/models/ws-client.ts: the browser's connection to the server.
pub mod Connection
pub mod Reachable
mod Tests
