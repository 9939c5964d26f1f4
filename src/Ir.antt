-- ===== src/Ir.antt =====
-- The legacy IR: vyper/codegen/ir_node.py and vyper/ir.
pub mod Node
pub mod Arith
pub mod Optimizer
