-- ===== src/Ir/Optimizer/Examples.antt =====
-- Runs of vyper/ir/optimizer.py, and the theorems at concrete inputs.
use vysvm.Ir.Arith.{gt_op, lt_op, sdiv, is_comparison}
use vysvm.Ir.Node.{IrNode, ir_node, number, text, no_nodes}
use vysvm.Ir.Optimizer.Meaning.{Env, eval, Reads, eval_value, eval_call}
use vysvm.Ir.Optimizer.Binops.{Keeps, optimize_binop-Keeps, InBounds}
use vysvm.Ir.Optimizer.ComparisonSoundness.{Settles}
use vysvm.Common.Int.{ℤ, pos, negsuc}
use vysvm.Common.{false, ◌≡◌, none, true, refl, Option, arith}
use vysvm.Ir.Optimizer.Rules.{optimize_binop}
use vysvm.Venom.ConstantEval.Words.{IsLiteral, word_of}
use vysvm.Ir.Arith.Constants.{fold, fold-evm}
use vysvm.Common.Errors.{ok}
use vysvm.Ir.Optimizer.Comparison.{comparison_helper}
use vysvm.Ir.Arith.Words.{evm}
use vysvm.Ir.Optimizer.CompareRules.{comparison_helper-Settles}

abbrev integer : ℤ → IrNode
integer v = ir_node (number v) no_nodes false

abbrev size : IrNode
size = ir_node (text "calldatasize") no_nodes false

abbrev env : Env
env s args = 68

size_value : eval env size ≡ 68
unfolding eval eval_value eval_call
size_value = refl

optimize_binop-Keeps_example :
    (r : Option IrNode) × (optimize_binop 4 gt_op size (integer (pos 5)) none ≡ ok r)
    × Keeps env gt_op size (integer (pos 5)) none r
unfolding eval eval_value eval_call InBounds IsLiteral word_of
optimize_binop-Keeps_example =
    optimize_binop-Keeps env 4 gt_op size (integer (pos 5)) none (omega arith) (omega arith) tt
      (omega arith)

comparison_helper-Settles_example :
    Settles lt_op 1 70 (comparison_helper lt_op (integer (pos 1)) size true)
unfolding Reads IsLiteral word_of is_comparison
comparison_helper-Settles_example =
    comparison_helper-Settles lt_op refl 1 70 (omega arith) (omega arith) (integer (pos 1)) size
      (omega arith, refl) tt true

fold-evm_example :
    (r : ℤ) × (fold sdiv (negsuc 6) (pos 2) ≡ ok r)
    × (word_of r ≡ evm sdiv (word_of (negsuc 6)) (word_of (pos 2)))
    × IsLiteral r
unfolding IsLiteral
fold-evm_example = fold-evm sdiv (negsuc 6) (pos 2) (omega arith) (omega arith)
