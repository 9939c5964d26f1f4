-- ===== src/Semantics.antt =====
-- vyper/semantics: storage layout and namespace.
pub mod DataPositions
pub mod Namespace
