-- ===== src/Semantic/Scoping.antt =====
-- crates/djls-semantic/src/scoping.rs and scoping/: which libraries are loaded at an offset, and whether a
-- tag or a filter is available there.
pub mod Loads
pub mod Symbols
pub mod Cache
pub mod Discovery
pub mod Maps
