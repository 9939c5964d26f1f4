-- ===== src/Codegen.antt =====
-- vyper/codegen: the memory allocator and the selector jump tables.
pub mod MemoryAllocator
pub mod JumptableUtils
