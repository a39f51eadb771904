-- ===== src/Markdown.antt =====
-- packages/frontend/src/models/streaming-markdown.ts, and the segments of components/markdown-content.ts.
pub mod Lines
pub mod Scan
pub mod Segments
pub mod Restart
pub mod Whole
pub mod Settled
pub mod Growing
mod Tests
