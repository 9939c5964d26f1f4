-- ===== src/Ir/Optimizer.antt =====
-- vyper/ir/optimizer.py
pub mod Term
pub mod Literals
pub mod Comparison
pub mod Rules
pub mod Meaning
pub mod Powers
pub mod PowerRules
pub mod Arithmetic
pub mod Arguments
pub mod Comparing
pub mod Boundaries
pub mod ComparisonSoundness
pub mod CompareRules
pub mod Binops
pub mod Examples
pub mod Soundness
