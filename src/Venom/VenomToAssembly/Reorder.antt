-- ===== src/Venom/VenomToAssembly/Reorder.antt =====
-- vyper/venom/venom_to_assembly.py: `_stack_reorder`, `_emit_input_operands` and
-- `_optimistic_swap`.
use vysvm.Venom.Operand.{literal, IrOperand, eq_operand, variable, ir_label}
use vysvm.Common.{
  List, ℕ, Bool, ◌∷◌, false, true, [], not, ◌&&◌, if◌then◌else◌, suc, ◌||◌, length, zero, none,
  some, ◌+◌, ◌^◌,
}
use vysvm.Common.Int.{ℤ, leb_ℤ, ltb_ℤ, pos, pos_part, ◌-ℤ◌}
use vysvm.Utils.Ints.{wrap256}
use vysvm.Venom.StackModel.{StackModel, get_depth, poke, push_operand, minus, peek, in_phis}
use vysvm.Venom.VenomToAssembly.{extend_by, Emission, emit_swap, emission, swap_op, dup_op}
use vysvm.Common.Errors.{
  Result, ok, ◌>>=◌, ◌>>◌, unless, err, assertion_error, compiler_panic, generic_exception,
}
use Prim.Native.String.{String}
use vysvm.Evm.Assembler.Instructions.{push_label}
use vysvm.Evm.Machine.Pushes.{push_items}

-- `op in operands`, for lists and sets of operands.
unfoldable pub in_operands : IrOperand → List IrOperand → Bool
in_operands op [] = false
in_operands op (x ∷ xs) = eq_operand x op || in_operands op xs

-- `len(stack_ops) == len(set(stack_ops))`
unfoldable pub no_duplicates : List IrOperand → Bool
unfolding in_operands
no_duplicates [] = true
no_duplicates (op ∷ ops) = not (in_operands op ops) && no_duplicates ops

unfoldable pub eq_operands : List IrOperand → List IrOperand → Bool
eq_operands [] [] = true
eq_operands (x ∷ xs) (y ∷ ys) = eq_operand x y && eq_operands xs ys
eq_operands _ _ = false

-- The last operands of the source's list, the top first.
abbrev pub top : ℕ → StackModel → StackModel
top zero stack = []
top (suc n) [] = []
top (suc n) (x ∷ stack) = x ∷ top n stack

-- The operands in reverse, before `done`.
abbrev pub reverse_onto : List IrOperand → List IrOperand → List IrOperand
reverse_onto [] done = done
reverse_onto (op ∷ ops) done = reverse_onto ops (op ∷ done)

unfoldable pub eq_depth : ℤ → ℤ → Bool
eq_depth a b = leb_ℤ a b && leb_ℤ b a

module _ (equivalent : IrOperand → IrOperand → Bool) where
  -- The exchange in the model alone, of operands that have the same value.
  unfoldable pub virtual_swap : ℤ → ℤ → IrOperand → IrOperand → Emission → Result (Emission × ℕ)
  virtual_swap depth final_stack_depth op to_swap e = do
    first ← poke (some final_stack_depth) op e.stack
    second ← poke (some depth) to_swap first
    ok (emission e.assembly second, 0)

  unfoldable pub double_swap : ℤ → ℤ → Emission → Result (Emission × ℕ)
  double_swap depth final_stack_depth e = do
    first ← emit_swap (some depth) e
    second ← emit_swap (some final_stack_depth) first.0
    ok (second.0, first.1 + second.1)

  unfoldable pub exchange_operands :
      ℤ → ℤ → IrOperand → IrOperand → Emission → Result (Emission × ℕ)
  unfolding virtual_swap double_swap
  exchange_operands depth final_stack_depth op to_swap e =
      if equivalent op to_swap
      then virtual_swap depth final_stack_depth op to_swap e
      else double_swap depth final_stack_depth e

  -- A round of the loop, with as many operands after this one as the number says.
  unfoldable pub place_operand : ℕ → IrOperand → Emission → Result (Emission × ℕ)
  unfolding eq_depth exchange_operands
  place_operand later op e = elim (get_depth op e.stack) [
    | none ↦ err compiler_panic
    | some depth ↦ if eq_depth depth (minus later) then ok (e, 0) else do
      to_swap ← peek (some (minus later)) e.stack
      exchange_operands depth (minus later) op to_swap e
  ]

  unfoldable pub reorder_loop : List IrOperand → Emission → Result (Emission × ℕ)
  unfolding place_operand
  reorder_loop [] e = ok (e, 0)
  reorder_loop (op ∷ ops) e = do
    placed ← place_operand (length ops) op e
    rest ← reorder_loop ops placed.0
    ok (rest.0, placed.1 + rest.1)

  -- `_stack_reorder`, with its cost. For no operands the assertions hold of themselves.
  unfoldable pub stack_reorder : List IrOperand → Emission → Result (Emission × ℕ)
  unfolding reorder_loop no_duplicates eq_operands
  stack_reorder stack_ops e = do
    unless assertion_error (no_duplicates stack_ops)
    result ← reorder_loop stack_ops e
    unless assertion_error
        (eq_operands (top (length stack_ops) result.0.stack) (reverse_onto stack_ops []))
    ok result

  -- With `dry_run`, on a copy of the stack.
  unfoldable pub dry_run_cost : List IrOperand → StackModel → Result ℕ
  unfolding stack_reorder
  dry_run_cost stack_ops stack = do
    result ← stack_reorder stack_ops (emission [] stack)
    ok result.1

  -- `_optimistic_swap`; `ends` tells whether the next instruction ends its block.
  unfoldable pub swap_next : IrOperand → IrOperand → Emission → Result Emission
  swap_next output next_scheduled e =
      if equivalent output next_scheduled
      then ok e
      else do swapped ← swap_op next_scheduled e; ok swapped.0

  unfoldable pub last_variable : String → List String → IrOperand
  last_variable v [] = variable v
  last_variable v (u ∷ vs) = last_variable u vs

  unfoldable pub optimistic_swap : Bool → IrOperand → List String → Emission → Result Emission
  unfolding swap_next last_variable
  optimistic_swap ends output [] e = ok e
  optimistic_swap ends output (v ∷ vs) e =
      if ends then ok e else swap_next output (last_variable v vs) e

-- `_emit_input_operands`, for the EVM version and an instruction that is an `invoke` or not.
module _ (version : ℕ) (is_invoke : Bool) (next_liveness : List String) where
  unfoldable pub emit_operand : IrOperand → Emission → Result Emission
  emit_operand (ir_label l) e = ok (
      extend_by (if is_invoke then [] else push_label l ∷ []) (push_operand (ir_label l) e.stack) e)
  emit_operand (literal value) e =
      if ltb_ℤ value (pos 0 -ℤ pos (2 ^ 255))
      then err generic_exception
      else if leb_ℤ (pos (2 ^ 256)) value
      then err generic_exception
      else (do
        word ← wrap256 value false
        ok (
            extend_by (push_items version (pos_part word)) (push_operand (literal value) e.stack)
              e))
  emit_operand (variable v) e =
      if in_phis (variable v) next_liveness then dup_op (variable v) e else ok e

  -- Each variable is emitted at most once.
  unfoldable pub check_seen : IrOperand → List IrOperand → Result (List IrOperand)
  check_seen (variable v) seen = do
    unless assertion_error (not (in_operands (variable v) seen))
    ok (variable v ∷ seen)
  check_seen op seen = ok seen

  unfoldable pub input_operands_loop : List IrOperand → List IrOperand → Emission → Result Emission
  unfolding emit_operand check_seen
  input_operands_loop [] seen e = ok e
  input_operands_loop (op ∷ ops) seen e = do
    emitted ← emit_operand op e
    now_seen ← check_seen op seen
    input_operands_loop ops now_seen emitted

  unfoldable pub emit_input_operands : List IrOperand → Emission → Result Emission
  unfolding input_operands_loop
  emit_input_operands ops e = input_operands_loop ops [] e
