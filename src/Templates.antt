-- ===== src/Templates.antt =====
-- crates/djls-templates: tokens, the lexer, quoted segments, filters, nodes and the parser.
pub mod Tokens
pub mod Memchr
pub mod Lexer
pub mod Quotes
pub mod Filters
pub mod Nodes
pub mod Parser
