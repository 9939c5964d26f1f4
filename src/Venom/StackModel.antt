-- ===== src/Venom/StackModel.antt =====
-- vyper/venom/stack_model.py. The stack is the list of its operands, the top first, where the
-- source keeps the top last; `none` is NOT_IN_STACK. A depth is an integer, 0 for the top, -1 for
-- the operand below it.
pub mod Depths
pub mod Examples
use vysvm.Common.{
  List, ℕ, Option, length, ◌∷◌, if◌then◌else◌, Bool, none, suc, leb, some, false, ltb, zero, ◌-◌,
  [], get_elem?, set, ◌||◌, ◌==◌,
}
use vysvm.Venom.Operand.{IrOperand, variable, literal, ir_label}
use vysvm.Common.Int.{ℤ, eqb_ℤ, pos, negsuc, leb_ℤ, ltb_ℤ}
use Prim.Native.String.{String}
use vysvm.Common.Errors.{Result, ok, err, assertion_error, index_error, ◌>>◌, unless, ◌>>=◌}
use vysvm.Common.Eq.{str_eq}

abbrev pub StackModel : Type 0
StackModel = List IrOperand

pub height : StackModel → ℕ
height stack = length stack

abbrev pub push_operand : IrOperand → StackModel → StackModel
push_operand op stack = op ∷ stack

unfoldable pub drop_top : ℕ → StackModel → StackModel
drop_top zero stack = stack
drop_top (suc n) [] = []
drop_top (suc n) (_ ∷ stack) = drop_top n stack

-- `del self._stack[len(self._stack) - num :]`; a negative start counts from the end again.
unfoldable pub pop : ℕ → StackModel → StackModel
pop num stack =
    if leb num (length stack) then drop_top num stack else drop_top (num - length stack) stack

-- `stack_op.value == op.value`, which does not tell a variable from a label.
unfoldable pub eq_value : IrOperand → IrOperand → Bool
eq_value (literal a) (literal b) = eqb_ℤ a b
eq_value (literal a) _ = false
eq_value (variable a) (literal b) = false
eq_value (variable a) (variable b) = str_eq a b
eq_value (variable a) (ir_label b) = str_eq a b
eq_value (ir_label a) (literal b) = false
eq_value (ir_label a) (variable b) = str_eq a b
eq_value (ir_label a) (ir_label b) = str_eq a b

-- The depth of the operand with `i` others above it.
unfoldable pub minus : ℕ → ℤ
minus zero = pos 0
minus (suc n) = negsuc n

unfoldable pub find_depth : IrOperand → ℕ → StackModel → Option ℤ
find_depth op i [] = none
find_depth op i (s ∷ stack) =
    let rest = find_depth op (suc i) stack in if eq_value s op then some (minus i) else rest

unfoldable pub get_depth : IrOperand → StackModel → Option ℤ
get_depth op stack = find_depth op 0 stack

-- `stack_item in phis`
unfoldable pub in_phis : IrOperand → List String → Bool
in_phis op [] = false
in_phis (variable x) (phi ∷ phis) = str_eq x phi || in_phis (variable x) phis
in_phis (literal n) (phi ∷ phis) = false
in_phis (ir_label l) (phi ∷ phis) = false

pub find_phi_depth : List String → ℕ → Option ℤ → StackModel → Result (Option ℤ)
find_phi_depth phis i ret [] = ok ret
find_phi_depth phis i ret (s ∷ stack) =
    if in_phis s phis
    then (elim ret [
      | none ↦ find_phi_depth phis (suc i) (some (minus i)) stack
      | some _ ↦ err assertion_error
    ])
    else find_phi_depth phis (suc i) ret stack

pub get_phi_depth : List String → StackModel → Result (Option ℤ)
get_phi_depth phis stack = find_phi_depth phis 0 none stack

-- The place from the top of the index `depth - 1`, which counts from the bottom if it is not
-- negative; `none` out of range.
unfoldable pub place : ℤ → StackModel → Option ℕ
place (pos zero) stack = if ltb 0 (length stack) then some 0 else none
place (pos (suc i)) stack = if ltb i (length stack) then some (length stack - 1 - i) else none
place (negsuc n) stack = if ltb (suc n) (length stack) then some (suc n) else none

unfoldable pub element_at : Option ℕ → StackModel → Result IrOperand
element_at none stack = err index_error
element_at (some i) stack = elim (get_elem? stack i) [ none ↦ err index_error | some op ↦ ok op ]

unfoldable pub replace_at : Option ℕ → IrOperand → StackModel → Result StackModel
replace_at none op stack = err index_error
replace_at (some i) op stack = ok (set stack i op)

unfoldable pub peek : Option ℤ → StackModel → Result IrOperand
peek none stack = err assertion_error
peek (some depth) stack = element_at (place depth stack) stack

unfoldable pub poke : Option ℤ → IrOperand → StackModel → Result StackModel
poke none op stack = err assertion_error
poke (some depth) op stack = do
  unless assertion_error (leb_ℤ depth (pos 0))
  replace_at (place depth stack) op stack

unfoldable pub dup : Option ℤ → StackModel → Result StackModel
dup none stack = err assertion_error
dup (some depth) stack = do
  unless assertion_error (leb_ℤ depth (pos 0))
  op ← peek (some depth) stack
  ok (push_operand op stack)

unfoldable pub swap : Option ℤ → StackModel → Result StackModel
swap none stack = err assertion_error
swap (some depth) stack = do
  unless assertion_error (ltb_ℤ depth (pos 0))
  top ← element_at (place (pos 0) stack) stack
  op ← element_at (place depth stack) stack
  replaced ← replace_at (place (pos 0) stack) op stack
  replace_at (place depth replaced) top replaced
