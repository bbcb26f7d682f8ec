-- ===== src/Python.antt =====
-- The static evaluation of Python in crates/djls-project/src/python.
pub mod Identity
pub mod Truthiness
pub mod Name
pub mod Constraints
