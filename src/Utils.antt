-- ===== src/Utils.antt =====
-- vyper/utils.py: integers, their byte strings, and ordered sets.
pub mod Bytes
pub mod Ints
pub mod OrderedSet
