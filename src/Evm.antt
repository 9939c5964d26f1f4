-- ===== src/Evm.antt =====
-- vyper/evm: the opcode tables and the assembler.
pub mod Opcodes
pub mod Assembler
pub mod Optimizer
pub mod StackNames
pub mod Machine
