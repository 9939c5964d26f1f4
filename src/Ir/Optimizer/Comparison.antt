-- ===== src/Ir/Optimizer/Comparison.antt =====
-- vyper/ir/optimizer.py: `_comparison_helper`.
use vysvm.Ir.Arith.{
  Binop, lt_op, le_op, gt_op, ge_op, slt, sle, sgt, sge, eq_op, ne_op, evm_int, is_gt, is_unsigned,
  is_strict, flip_comparison_op, wrap,
}
use vysvm.Common.{Bool, Option, if◌then◌else◌, not, some, true, none, ◌&&◌, false}
use vysvm.Common.Int.{ℤ, ◌-ℤ◌, pos, ◌+ℤ◌}
use vysvm.Ir.Node.{IrNode, ir_node, number}
use vysvm.Ir.Optimizer.Term.{Term, right, left, literal, iszero, binary, seq, bit_not, shl, shr}
use vysvm.Utils.Ints.{int_bounds}
use vysvm.Common.Errors.{Result, ◌>>=◌, ok, unless, assertion_error, ◌>>◌}
use vysvm.Ir.Optimizer.Literals.{reads_as, is_int, eqb_ℤ}

-- The change of strictness: `replace("e", "t")` or `replace("t", "e")`.
unfoldable pub restrict : Binop → Binop
restrict lt_op = le_op
restrict le_op = lt_op
restrict gt_op = ge_op
restrict ge_op = gt_op
restrict slt = sle
restrict sle = slt
restrict sgt = sge
restrict sge = sgt
restrict o = o

unfoldable pub lowest : Bool → ℤ
lowest unsigned = (int_bounds (not unsigned) 256).0

unfoldable pub highest : Bool → ℤ
highest unsigned = (int_bounds (not unsigned) 256).1

unfoldable pub almost_always : Binop → ℤ
almost_always o = if is_gt o then lowest (is_unsigned o) else highest (is_unsigned o)

unfoldable pub never : Binop → ℤ
never o = if is_gt o then highest (is_unsigned o) else lowest (is_unsigned o)

unfoldable pub almost_never : Binop → ℤ
almost_never o =
    if is_gt o then highest (is_unsigned o) -ℤ pos 1 else lowest (is_unsigned o) +ℤ pos 1

unfoldable pub same_bool : Bool → Bool → Bool
same_bool true b = b
same_bool false b = not b

unfoldable pub new_rhs : Binop → ℤ → ℤ
new_rhs o rhs = if same_bool (is_gt o) (is_strict o) then rhs +ℤ pos 1 else rhs -ℤ pos 1

-- The rewriting of a comparison with an integer to the preferred strictness. The assertion is for
-- a bad optimizer step.
unfoldable pub prefer : Binop → Bool → ℤ → Result (Option Term)
prefer o prefer_strict rhs =
    if prefer_strict && eqb_ℤ rhs (never o)
    then ok (some (binary eq_op left right))
    else if not prefer_strict && eqb_ℤ rhs (almost_always o)
    then ok (some (binary ne_op left right))
    else (unless assertion_error (eqb_ℤ (wrap (new_rhs o rhs) (is_unsigned o)) (new_rhs o rhs))
        >> ok (some (binary (restrict o) left (literal (new_rhs o rhs)))))

unfoldable pub last_case : Binop → IrNode → Option Term
last_case gt_op b = if reads_as true (pos 0) b then some (iszero (iszero left)) else none
last_case _ b = none

unfoldable pub prefer_literal : Binop → Bool → IrNode → Result (Option Term)
prefer_literal o prefer_strict (ir_node (number v) args empty) =
    if same_bool (is_strict o) prefer_strict
    then ok (last_case o (ir_node (number v) args empty))
    else prefer o prefer_strict (evm_int v (is_unsigned o))
prefer_literal o prefer_strict b = ok (last_case o b)

-- After an integer has been moved to the second place.
unfoldable pub compare_rules : Binop → IrNode → Bool → Result (Option Term)
compare_rules o b prefer_strict =
    if is_strict o && reads_as (is_unsigned o) (never o) b
    then ok (some (literal (pos 0)))
    else if not (is_strict o) && reads_as (is_unsigned o) (almost_always o) b
    then ok (some (literal (pos 1)))
    else if is_strict o && reads_as (is_unsigned o) (almost_never o) b
    then ok (some (binary eq_op left (literal (never o))))
    else prefer_literal o prefer_strict b

-- Exchange the two arguments in a term.
unfoldable pub exchange : Term → Term
exchange left = right
exchange right = left
exchange (literal v) = literal v
exchange (seq t) = seq (exchange t)
exchange (iszero t) = iszero (exchange t)
exchange (bit_not t) = bit_not (exchange t)
exchange (shl s t) = shl (exchange s) (exchange t)
exchange (shr s t) = shr (exchange s) (exchange t)
exchange (binary o s t) = binary o (exchange s) (exchange t)

unfoldable pub exchanged : Option Term → Option Term
exchanged none = none
exchanged (some t) = some (exchange t)

unfoldable pub comparison_helper : Binop → IrNode → IrNode → Bool → Result (Option Term)
comparison_helper o a b prefer_strict =
    if is_int a
    then ((flip_comparison_op o >>= λ f. compare_rules f a prefer_strict) >>= λ r. ok (exchanged r))
    else compare_rules o b prefer_strict
