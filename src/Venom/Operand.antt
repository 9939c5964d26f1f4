-- ===== src/Venom/Operand.antt =====
-- vyper/venom/basicblock.py: operands. A literal is any integer.
use Prim.Native.String.{String}
use vysvm.Common.{Bool, ◌≡◌, true, ◌↔◌, false, ap}
use vysvm.Common.Int.{ℤ, eqb_ℤ, eqb_ℤ_iff}
use vysvm.Common.Eq.{str_eq, String_Eq}

pub data IrOperand : Type 0 where
  literal : ℤ → IrOperand
  variable : String → IrOperand
  ir_label : String → IrOperand

-- `==` and hashing, which tell a variable from a label.
unfoldable pub eq_operand : IrOperand → IrOperand → Bool
eq_operand (literal a) (literal b) = eqb_ℤ a b
eq_operand (variable a) (variable b) = str_eq a b
eq_operand (ir_label a) (ir_label b) = str_eq a b
eq_operand _ _ = false

pub eq_operand_iff : (x y : IrOperand) → (eq_operand x y ≡ true) ↔ (x ≡ y)
unfolding eq_operand
eq_operand_iff (literal a) (literal b) =
    (λ h. ap literal ((eqb_ℤ_iff a b).0 h), λ h. (eqb_ℤ_iff a b).1 cc)
eq_operand_iff (literal a) (variable b) = (λ h. cc, λ h. cc)
eq_operand_iff (literal a) (ir_label b) = (λ h. cc, λ h. cc)
eq_operand_iff (variable a) (literal b) = (λ h. cc, λ h. cc)
eq_operand_iff (variable a) (variable b) =
    (λ h. ap variable ((String_Eq.eqb_iff a b).0 h), λ h. (String_Eq.eqb_iff a b).1 cc)
eq_operand_iff (variable a) (ir_label b) = (λ h. cc, λ h. cc)
eq_operand_iff (ir_label a) (literal b) = (λ h. cc, λ h. cc)
eq_operand_iff (ir_label a) (variable b) = (λ h. cc, λ h. cc)
eq_operand_iff (ir_label a) (ir_label b) =
    (λ h. ap ir_label ((String_Eq.eqb_iff a b).0 h), λ h. (String_Eq.eqb_iff a b).1 cc)
