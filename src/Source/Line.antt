-- ===== src/Source/Line.antt =====
-- crates/djls-source/src/line.rs: line endings, and the index of line starts of a text.
pub mod Ending
pub mod Index
pub mod Starts
pub mod Search
pub mod RoundTrip
pub mod Boundary
pub mod Bytes
mod Tests
