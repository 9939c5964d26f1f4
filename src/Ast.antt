-- ===== src/Ast.antt =====
-- vyper/ast: the journal for metadata, and the check of names.
pub mod Metadata
pub mod Identifiers
