-- ===== src/Server.antt =====
-- crates/djls-server: the documents that the client has open.
pub mod Document
pub mod Reload
