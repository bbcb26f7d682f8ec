-- ===== src/Source.antt =====
-- crates/djls-source: byte offsets, spans and the line index of a text.
pub mod Position
pub mod Line
