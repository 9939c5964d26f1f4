-- ===== src/Evm/Assembler.antt =====
-- vyper/evm/assembler: assembly instructions, the resolution of symbols and the emission of bytecode.
pub mod Instructions
pub mod Symbols
pub mod Core
pub mod Sizes
pub mod Examples
pub mod Push
pub mod Links
pub mod Addresses
