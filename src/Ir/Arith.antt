-- ===== src/Ir/Arith.antt =====
-- vyper/ir/optimizer.py: the table `arith`, which gives each operation of two operands its function
-- on Python's integers and its signedness; and what the operations are on words.
pub mod Words
pub mod Constants
use Prim.Native.String.{String}
use vysvm.Common.{
  List, Bool, ◌∷◌, Option, false, if◌then◌else◌, true, [], none, ◌^◌, some, ◌&&◌, not,
}
use vysvm.Venom.ConstantEval.{bool_int, int_or, int_and, int_xor}
use vysvm.Common.Int.{ℤ, pos, ◌+ℤ◌, ltb_ℤ, ◌-ℤ◌, ◌*ℤ◌, leb_ℤ}
use vysvm.Common.Errors.{Result, ok, err, assertion_error}
use vysvm.Utils.Ints.{mod_floor, evm_div, evm_mod, evm_pow}
use vysvm.Common.Eq.{str_eq}

pub data Binop : Type 0 where
  add sub mul div sdiv op_mod smod exp eq_op ne_op lt_op le_op gt_op ge_op slt sle sgt sge or_op
        and_op xor_op :
      Binop

unfoldable pub name_of : Binop → String
name_of add = "add"
name_of sub = "sub"
name_of mul = "mul"
name_of div = "div"
name_of sdiv = "sdiv"
name_of op_mod = "mod"
name_of smod = "smod"
name_of exp = "exp"
name_of eq_op = "eq"
name_of ne_op = "ne"
name_of lt_op = "lt"
name_of le_op = "le"
name_of gt_op = "gt"
name_of ge_op = "ge"
name_of slt = "slt"
name_of sle = "sle"
name_of sgt = "sgt"
name_of sge = "sge"
name_of or_op = "or"
name_of and_op = "and"
name_of xor_op = "xor"

pub binops : List Binop
binops =
    add ∷ sub ∷ mul ∷ div ∷ sdiv ∷ op_mod ∷ smod ∷ exp ∷ eq_op ∷ ne_op ∷ lt_op ∷ le_op ∷ gt_op
    ∷ ge_op ∷ slt ∷ sle ∷ sgt ∷ sge ∷ or_op ∷ and_op ∷ xor_op ∷ []

pub find_binop : List Binop → String → Option Binop
find_binop [] s = none
find_binop (o ∷ os) s = if str_eq s (name_of o) then some o else find_binop os s

-- `value in arith`
unfoldable pub binop_of : String → Option Binop
unfolding find_binop name_of binops
binop_of s = find_binop binops s

-- The third component of the row of `arith`.
unfoldable pub is_unsigned : Binop → Bool
is_unsigned sdiv = false
is_unsigned smod = false
is_unsigned slt = false
is_unsigned sle = false
is_unsigned sgt = false
is_unsigned sge = false
is_unsigned _ = true

-- The first component.
pub fn_of : Binop → ℤ → ℤ → Result ℤ
unfolding bool_int
fn_of add a b = ok (a +ℤ b)
fn_of sub a b = ok (a -ℤ b)
fn_of mul a b = ok (a *ℤ b)
fn_of div a b = ok (evm_div a b)
fn_of sdiv a b = ok (evm_div a b)
fn_of op_mod a b = ok (evm_mod a b)
fn_of smod a b = ok (evm_mod a b)
fn_of exp a b = evm_pow a b
fn_of eq_op a b = ok (bool_int (leb_ℤ a b && leb_ℤ b a))
fn_of ne_op a b = ok (bool_int (not (leb_ℤ a b && leb_ℤ b a)))
fn_of lt_op a b = ok (bool_int (ltb_ℤ a b))
fn_of le_op a b = ok (bool_int (leb_ℤ a b))
fn_of gt_op a b = ok (bool_int (ltb_ℤ b a))
fn_of ge_op a b = ok (bool_int (leb_ℤ b a))
fn_of slt a b = ok (bool_int (ltb_ℤ a b))
fn_of sle a b = ok (bool_int (leb_ℤ a b))
fn_of sgt a b = ok (bool_int (ltb_ℤ b a))
fn_of sge a b = ok (bool_int (leb_ℤ b a))
fn_of or_op a b = ok (int_or a b)
fn_of and_op a b = ok (int_and a b)
fn_of xor_op a b = ok (int_xor a b)

-- `_evm_int` of an integer in the bounds that the nodes have, for which its strict conversions
-- raise nothing.
unfoldable pub evm_int : ℤ → Bool → ℤ
evm_int v true = if ltb_ℤ v (pos 0) then v +ℤ pos (2 ^ 256) else v
evm_int v false = if ltb_ℤ (pos (2 ^ 255) -ℤ pos 1) v then v -ℤ pos (2 ^ 256) else v

-- `_wrap256`
unfoldable pub wrap : ℤ → Bool → ℤ
wrap x unsigned = evm_int (pos (mod_floor x (2 ^ 256))) unsigned

unfoldable pub is_commutative : Binop → Bool
is_commutative add = true
is_commutative mul = true
is_commutative eq_op = true
is_commutative ne_op = true
is_commutative and_op = true
is_commutative or_op = true
is_commutative xor_op = true
is_commutative _ = false

unfoldable pub is_comparison : Binop → Bool
is_comparison lt_op = true
is_comparison le_op = true
is_comparison gt_op = true
is_comparison ge_op = true
is_comparison slt = true
is_comparison sle = true
is_comparison sgt = true
is_comparison sge = true
is_comparison _ = false

-- Of the comparisons: the name ends in `t`.
unfoldable pub is_strict : Binop → Bool
is_strict lt_op = true
is_strict gt_op = true
is_strict slt = true
is_strict sgt = true
is_strict _ = false

-- The name has a `g`.
unfoldable pub is_gt : Binop → Bool
is_gt gt_op = true
is_gt ge_op = true
is_gt sgt = true
is_gt sge = true
is_gt _ = false

-- `_flip_comparison_op`
unfoldable pub flip_comparison_op : Binop → Result Binop
flip_comparison_op lt_op = ok gt_op
flip_comparison_op le_op = ok ge_op
flip_comparison_op gt_op = ok lt_op
flip_comparison_op ge_op = ok le_op
flip_comparison_op slt = ok sgt
flip_comparison_op sle = ok sge
flip_comparison_op sgt = ok slt
flip_comparison_op sge = ok sle
flip_comparison_op _ = err assertion_error
