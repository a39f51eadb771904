-- ===== src/Shell.antt =====
-- packages/frontend/src/models/tools/bash-command-parser.ts: a command line split for highlighting.
pub mod Split
pub mod Command
pub mod Segments
pub mod Scan
pub mod Words
pub mod Faithful
pub mod Operators
mod Tests
