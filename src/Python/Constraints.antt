-- ===== src/Python/Constraints.antt =====
-- crates/djls-project/src/python/evaluation/constraints.rs: the decision diagrams that say under which
-- branches a value is reachable. A failed assertion, which panics, is `none`. Two diagrams are combined
-- on fuel, the sum of their depths.
pub mod Joins
pub mod Diagram
pub mod Canonical
pub mod Domain
pub mod Worlds
pub mod Makes
pub mod Combine
pub mod Assign
pub mod Forget
pub mod Inhabited
pub mod Collecting
pub mod Widening
pub mod Meaning
mod Tests
