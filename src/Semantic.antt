-- ===== src/Semantic.antt =====
-- crates/djls-semantic: the tree of a template, and the check of the condition of an `if` tag.
pub mod Tree
pub mod Frames
pub mod Operations
pub mod BuilderState
pub mod Builder
pub mod Views
pub mod IfExpression
pub mod Scoping
pub mod Opaque
