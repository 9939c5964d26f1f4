-- ===== src/Ir/Optimizer/Boundaries.antt =====
-- vyper/ir/optimizer.py: comparisons with the integers at the ends of the range.
use vysvm.Ir.Arith.{
  Binop, lt_op, le_op, gt_op, ge_op, slt, sle, sgt, sge, is_gt, is_unsigned, is_strict,
  is_comparison,
}
use vysvm.Ir.Optimizer.Comparing.{compares, InRange}
use vysvm.Ir.Optimizer.Comparison.{lowest, highest, never, almost_always, almost_never}
use vysvm.Common.Int.{ℤ, ◌-ℤ◌, ◌+ℤ◌, ◌≤ℤ◌, pos, negsuc}
use vysvm.Utils.Ints.{int_bounds}
use vysvm.Common.{Bool, ◌≡◌, arith, true, false, not}
use vysvm.Ir.Optimizer.Literals.{eqb_ℤ}

-- The bounds of what an operation reads.
pub between : (u : Bool) (v : ℤ) → InRange u v → (lowest u ≤ℤ v) × (v ≤ℤ highest u)
unfolding InRange lowest highest int_bounds ◌-ℤ◌
between true (pos n) p = (omega arith, omega arith)
between true (negsuc n) p = absurd p
between false (pos n) p = (omega arith, omega arith)
between false (negsuc n) p = (omega arith, omega arith)

module _ (a : ℤ) where
  pub never_holds :
      (o : Binop)
      → is_comparison o ≡ true
      → is_strict o ≡ true
      → (lowest (is_unsigned o) ≤ℤ a) × (a ≤ℤ highest (is_unsigned o))
      → compares o a (never o) ≡ false
  unfolding compares is_comparison is_strict is_unsigned lowest highest int_bounds ◌-ℤ◌ ◌+ℤ◌ is_gt
      never
  never_holds lt_op h s (l, m) = ground arith
  never_holds gt_op h s (l, m) = ground arith
  never_holds slt h s (l, m) = ground arith
  never_holds sgt h s (l, m) = ground arith
  never_holds _ h s r = cc

  pub almost_never_holds :
      (o : Binop)
      → is_comparison o ≡ true
      → is_strict o ≡ true
      → (lowest (is_unsigned o) ≤ℤ a) × (a ≤ℤ highest (is_unsigned o))
      → compares o a (almost_never o) ≡ eqb_ℤ a (never o)
  unfolding compares is_comparison is_strict is_unsigned lowest highest int_bounds ◌-ℤ◌ ◌+ℤ◌ is_gt
      never almost_never eqb_ℤ
  almost_never_holds lt_op h s (l, m) = ground arith
  almost_never_holds gt_op h s (l, m) = ground arith
  almost_never_holds slt h s (l, m) = ground arith
  almost_never_holds sgt h s (l, m) = ground arith
  almost_never_holds _ h s r = cc

  pub almost_always_holds :
      (o : Binop)
      → is_comparison o ≡ true
      → is_strict o ≡ true
      → (lowest (is_unsigned o) ≤ℤ a) × (a ≤ℤ highest (is_unsigned o))
      → compares o a (almost_always o) ≡ not (eqb_ℤ a (almost_always o))
  unfolding compares is_comparison is_strict is_unsigned lowest highest int_bounds ◌-ℤ◌ ◌+ℤ◌ is_gt
      almost_always eqb_ℤ
  almost_always_holds lt_op h s (l, m) = ground arith
  almost_always_holds gt_op h s (l, m) = ground arith
  almost_always_holds slt h s (l, m) = ground arith
  almost_always_holds sgt h s (l, m) = ground arith
  almost_always_holds _ h s r = cc

  pub always_holds :
      (o : Binop)
      → is_comparison o ≡ true
      → is_strict o ≡ false
      → (lowest (is_unsigned o) ≤ℤ a) × (a ≤ℤ highest (is_unsigned o))
      → compares o a (almost_always o) ≡ true
  unfolding compares is_comparison is_strict is_unsigned lowest highest int_bounds ◌-ℤ◌ ◌+ℤ◌ is_gt
      almost_always
  always_holds le_op h s (l, m) = ground arith
  always_holds ge_op h s (l, m) = ground arith
  always_holds sle h s (l, m) = ground arith
  always_holds sge h s (l, m) = ground arith
  always_holds _ h s r = cc

  pub once_holds :
      (o : Binop)
      → is_comparison o ≡ true
      → is_strict o ≡ false
      → (lowest (is_unsigned o) ≤ℤ a) × (a ≤ℤ highest (is_unsigned o))
      → compares o a (never o) ≡ eqb_ℤ a (never o)
  unfolding compares is_comparison is_strict is_unsigned lowest highest int_bounds ◌-ℤ◌ ◌+ℤ◌ is_gt
      never eqb_ℤ
  once_holds le_op h s (l, m) = ground arith
  once_holds ge_op h s (l, m) = ground arith
  once_holds sle h s (l, m) = ground arith
  once_holds sge h s (l, m) = ground arith
  once_holds _ h s r = cc
