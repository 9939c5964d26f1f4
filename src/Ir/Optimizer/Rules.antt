-- ===== src/Ir/Optimizer/Rules.antt =====
-- vyper/ir/optimizer.py: the rules of `_optimize_binop` between the folding of constants and the
-- comparisons, in the order of the source. The group of each is named for what it looks for.
use vysvm.Ir.Arith.{
  Binop, add, sub, mul, div, sdiv, op_mod, smod, exp, eq_op, ne_op, or_op, and_op, xor_op,
  is_comparison, is_strict, is_unsigned, evm_int, is_commutative,
}
use vysvm.Common.{Option, Bool, ℕ, if◌then◌else◌, ◌&&◌, some, false, none, not, ◌∷◌, [], ◌||◌, true}
use vysvm.Ir.Node.{IrNode, ir_node, number, one_of_names, no_nodes}
use vysvm.Common.Int.{ℤ, negsuc, ◌-ℤ◌, pos, abs}
use vysvm.Ir.Optimizer.Term.{
  Term, seq, binary, iszero, finalize, left, build, bit_not, literal, right, shr, shl,
}
use Prim.Native.String.{String}
use vysvm.Ir.Optimizer.Literals.{
  member, conservative_eq, reads_as, is_power_of_two, is_int, int_log2,
}
use vysvm.Common.Errors.{Result, ok, ◌>>=◌}
use vysvm.Ir.Optimizer.Comparison.{comparison_helper}
use vysvm.Ir.Arith.Constants.{fold}
use vysvm.Common.Eq.{str_eq}

-- The first rule that applies.
infixr 20 ◌or_else◌
abbrev pub ◌or_else◌ : Option Term → Option Term → Option Term
none or_else later = later
(some t) or_else later = some t

abbrev pub rule : Bool → Term → Option Term
rule applies t = if applies then some t else none

unfoldable pub is_unstrict : Binop → Bool
is_unstrict o = is_comparison o && not (is_strict o)

module _ (o : Binop) (b : IrNode) where
  unfoldable pub neutral_zero : Option Term
  neutral_zero =
      rule (member (add ∷ sub ∷ xor_op ∷ or_op ∷ []) o && reads_as (is_unsigned o) (pos 0) b)
        (seq left)

  unfoldable pub absorbing_zero : Option Term
  absorbing_zero =
      rule
        (member (mul ∷ div ∷ sdiv ∷ op_mod ∷ smod ∷ and_op ∷ []) o
          && reads_as (is_unsigned o) (pos 0) b)
        (literal (pos 0))

  unfoldable pub modulo_one : Option Term
  modulo_one =
      rule (member (op_mod ∷ smod ∷ []) o && reads_as (is_unsigned o) (pos 1) b) (literal (pos 0))

  unfoldable pub neutral_one : Option Term
  neutral_one =
      rule (member (mul ∷ div ∷ sdiv ∷ []) o && reads_as (is_unsigned o) (pos 1) b) (seq left)

  unfoldable pub minus_one : Option Term
  minus_one =
      rule (member (mul ∷ sdiv ∷ []) o && reads_as false (negsuc 0) b)
        (binary sub (literal (pos 0)) left)

  unfoldable pub eq_zero : Option Term
  eq_zero = rule (member (eq_op ∷ []) o && reads_as (is_unsigned o) (pos 0) b) (iszero left)

  unfoldable pub ne_zero : Option Term
  ne_zero =
      rule (member (ne_op ∷ []) o && reads_as (is_unsigned o) (pos 0) b) (iszero (iszero left))

  unfoldable pub eq_max : Option Term
  eq_max = rule (member (eq_op ∷ []) o && reads_as false (negsuc 0) b) (iszero (bit_not left))

-- An operand of ones.
unfoldable pub ones_term : Binop → IrNode → Option Term
ones_term and_op b = some (seq left)
ones_term xor_op b = some (bit_not left)
ones_term or_op (ir_node (number v) args empty) = some (literal v)
ones_term _ b = none

unfoldable pub all_ones : Binop → IrNode → Option Term
all_ones o b =
    if member (and_op ∷ or_op ∷ xor_op ∷ []) o && reads_as false (negsuc 0) b
    then ones_term o b
    else none

unfoldable pub power_term : Binop → ℤ → Option Term
power_term op_mod n = some (binary and_op left (literal (n -ℤ pos 1)))
power_term div n = some (shr (literal (pos (int_log2 (abs n)))) left)
power_term mul n = some (shl (literal (pos (int_log2 (abs n)))) left)
power_term _ n = none

unfoldable pub power_of_two : Binop → IrNode → Option Term
power_of_two o (ir_node (number v) args empty) =
    if member (op_mod ∷ div ∷ mul ∷ []) o && is_power_of_two (evm_int v (is_unsigned o))
    then power_term o (evm_int v (is_unsigned o))
    else none
power_of_two o b = none

module _ (o : Binop) (a b : IrNode) where
  unfoldable pub complement : Option Term
  complement = rule (member (sub ∷ []) o && reads_as false (negsuc 0) a) (bit_not right)

  unfoldable pub exponents : Option Term
  exponents =
      rule
        (member (exp ∷ []) o
          && (reads_as (is_unsigned o) (pos 0) b || reads_as (is_unsigned o) (pos 1) a))
        (literal (pos 1))
      or_else rule (member (exp ∷ []) o && reads_as (is_unsigned o) (pos 0) a) (iszero right)
      or_else rule (member (exp ∷ []) o && reads_as (is_unsigned o) (pos 1) b) (seq left)

  -- `same`: the arguments are certainly equal at run time.
  unfoldable pub equal_arguments : Bool → Option Term
  equal_arguments same =
      rule (member (sub ∷ xor_op ∷ ne_op ∷ []) o && same) (literal (pos 0))
      or_else rule (is_strict o && same) (literal (pos 0))
      or_else rule ((member (eq_op ∷ []) o || is_unstrict o) && same) (literal (pos 1))

-- Where only the truth of the value counts.
unfoldable pub truthy_rules : Binop → IrNode → Option String → Option Term
truthy_rules eq_op b parent_op = some (iszero (binary xor_op left right))
truthy_rules ne_op b (some p) = rule (str_eq p "iszero") (iszero (binary eq_op left right))
truthy_rules or_op b parent_op = rule (is_int b && not (reads_as true (pos 0) b)) (literal (pos 1))
truthy_rules _ b parent_op = none

pub is_truthy : Option String → Bool
is_truthy none = false
is_truthy (some p) = one_of_names ("if" ∷ "assert" ∷ "iszero" ∷ []) p

unfoldable pub arithmetic_rules : ℕ → Binop → IrNode → IrNode → Option String → Option Term
arithmetic_rules version o a b parent_op =
    neutral_zero o b
    or_else equal_arguments o a b (conservative_eq version a b)
    or_else absorbing_zero o b
    or_else modulo_one o b
    or_else neutral_one o b
    or_else minus_one o b
    or_else all_ones o b
    or_else complement o a b
    or_else exponents o a b
    or_else power_of_two o b
    or_else eq_zero o b
    or_else ne_zero o b
    or_else eq_max o b
    or_else (if is_truthy parent_op then truthy_rules o b parent_op else none)

-- The rules for comparisons come last.
unfoldable pub rules : ℕ → Binop → IrNode → IrNode → Option String → Result (Option Term)
rules version o a b parent_op = elim (arithmetic_rules version o a b parent_op) [
  | some t ↦ ok (some t)
  | none ↦ if is_comparison o then comparison_helper o a b (not (is_truthy parent_op)) else ok none
]

unfoldable pub finalized : ℕ → IrNode → IrNode → Option Term → Option IrNode
finalized version a b none = none
finalized version a b (some t) = elim (finalize version a b t) [
  | none ↦ none
  | some u ↦ some (build u a b)
]

-- Of a commutative operation an integer goes to the second place.
unfoldable pub optimize_other : ℕ → Binop → IrNode → IrNode → Option String → Result (Option IrNode)
optimize_other version o a b parent_op =
    let swapped = is_commutative o && is_int a in
    let x = if swapped then b else a in
    let y = if swapped then a else b in
    rules version o x y parent_op >>= λ r. ok (finalized version x y r)

-- Two integers are folded.
unfoldable pub optimize_binop : ℕ → Binop → IrNode → IrNode → Option String → Result (Option IrNode)
optimize_binop version o (ir_node (number v) xs e) (ir_node (number w) ys f) parent_op = do
  new_val ← fold o v w
  ok (some (ir_node (number new_val) no_nodes false))
optimize_binop version o a b parent_op = optimize_other version o a b parent_op
