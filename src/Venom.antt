-- ===== src/Venom.antt =====
-- vyper/venom: the intermediate representation's memory locations, stack model and evaluation.
pub mod Operand
pub mod MemoryLocation
pub mod ConstantEval
pub mod StackModel
pub mod DfgAnalysis
pub mod VenomToAssembly
pub mod LivenessAnalysis
