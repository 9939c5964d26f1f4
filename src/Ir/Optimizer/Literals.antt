-- ===== src/Ir/Optimizer/Literals.antt =====
-- vyper/ir/optimizer.py: the tests of the rules on their arguments.
use vysvm.Ir.Arith.{Binop, evm_int, name_of}
use vysvm.Ir.Node.{
  IrNode, IrValue, no_more, ir_node, args_of, number, value_of, is_complex_ir, text,
}
use vysvm.Common.Int.{ℤ, leb_ℤ, pos, ◌-ℤ◌}
use vysvm.Common.{
  Bool, ℕ, List, Option, false, ◌-◌, not, suc, ◌&&◌, ◌∷◌, ◌/◌, some, true, if◌then◌else◌, ◌==◌,
  none, ◌||◌, zero, [],
}
use vysvm.Common.Eq.{str_eq}
use vysvm.Venom.ConstantEval.{int_and}

-- `node.value`, if it is an integer.
pub literal_of : IrNode → Option ℤ
literal_of (ir_node (number v) _ _) = some v
literal_of (ir_node (text _) _ _) = none

-- `_is_int`
unfoldable pub is_int : IrNode → Bool
is_int (ir_node (number v) _ _) = true
is_int (ir_node (text _) _ _) = false

unfoldable pub eqb_ℤ : ℤ → ℤ → Bool
eqb_ℤ a b = leb_ℤ a b && leb_ℤ b a

-- `_evm_int(node, unsigned) == k`
unfoldable pub reads_as : Bool → ℤ → IrNode → Bool
reads_as unsigned k (ir_node (number v) _ _) = eqb_ℤ (evm_int v unsigned) k
reads_as unsigned k (ir_node (text _) _ _) = false

unfoldable pub eq_ir_value : IrValue → IrValue → Bool
eq_ir_value (number a) (number b) = eqb_ℤ a b
eq_ir_value (text s) (text t) = str_eq s t
eq_ir_value _ _ = false

-- `_conservative_eq`
unfoldable pub conservative_eq : ℕ → IrNode → IrNode → Bool
conservative_eq version x y =
    no_more (args_of x)
    && no_more (args_of y)
    && eq_ir_value (value_of x) (value_of y)
    && not (is_complex_ir version x)

-- `binop in {…}`
unfoldable pub member : List Binop → Binop → Bool
member [] o = false
member (p ∷ ps) o = str_eq (name_of o) (name_of p) || member ps o

-- vyper/utils.py: `n.bit_length()`, with a count of rounds that `n` itself is enough for.
unfoldable pub bit_length_loop : ℕ → ℕ → ℕ
bit_length_loop zero n = 0
bit_length_loop (suc rounds) n =
    let rest = bit_length_loop rounds (n / 2) in if n == 0 then 0 else suc rest

unfoldable pub int_log2 : ℕ → ℕ
int_log2 n = bit_length_loop n n - 1

unfoldable pub is_power_of_two : ℤ → Bool
is_power_of_two n = not (eqb_ℤ n (pos 0)) && eqb_ℤ (int_and n (n -ℤ pos 1)) (pos 0)
