-- ===== src/Venom/StackModel/Examples.antt =====
-- vyper/venom/stack_model.py: the theorems on a stack of three operands.
use vysvm.Venom.StackModel.{StackModel, get_depth, peek, eq_value, find_depth, minus}
use vysvm.Venom.Operand.{variable, IrOperand, literal}
use vysvm.Common.{◌∷◌, some, [], ◌≡◌, true, refl}
use vysvm.Common.Int.{pos, negsuc}
use vysvm.Common.Errors.{ok}
use vysvm.Venom.StackModel.Depths.{get_depth-peek}

abbrev operands : StackModel
operands = variable "%1" ∷ literal (pos 7) ∷ variable "%2" ∷ []

get_depth-peek_example :
    (x : IrOperand) × (peek (some (negsuc 1)) operands ≡ ok x) × (eq_value x (variable "%2") ≡ true)
unfolding get_depth find_depth eq_value minus
get_depth-peek_example = get_depth-peek (variable "%2") operands (negsuc 1) refl
