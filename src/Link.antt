-- ===== src/Link.antt =====
-- The link between the server and a node, packages/node-protocol/src and packages/backend/src/nodes.
pub mod Rpc
pub mod Ndjson
