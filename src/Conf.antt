-- ===== src/Conf.antt =====
-- crates/djls-conf: the configuration of diagnostics.
pub mod Diagnostics
