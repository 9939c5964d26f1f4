-- ===== src/Venom/VenomToAssembly/Steps.antt =====
-- vyper/venom/venom_to_assembly.py: the steps of `_generate_evm_for_instruction` in their order.
use vysvm.Venom.Operand.{variable, IrOperand}
use vysvm.Venom.VenomToAssembly.{extend_by, emission, Emission, emit_pop}
use vysvm.Common.{List, Option, Bool, ℕ, [], if◌then◌else◌, some, ◌∷◌, ltb, none, ◌++◌, length}
use vysvm.Common.Errors.{Result, err, ◌>>=◌, index_error, ok}
use Prim.Native.String.{String}
use vysvm.Venom.StackModel.{StackModel, in_phis, pop}
use vysvm.Venom.VenomToAssembly.Instruction.{
  Surroundings, VenomInstruction, stack_operands, generate_phi, generate_offset,
  is_commutative_opcode,
}
use vysvm.Venom.VenomToAssembly.Reorder.{
  dry_run_cost, emit_input_operands, stack_reorder, optimistic_swap,
}
use vysvm.Common.Eq.{str_eq}
use vysvm.Venom.VenomToAssembly.Generate.{emit_instruction}

unfoldable pub swap_last_two : List IrOperand → Result (List IrOperand)
swap_last_two [] = err index_error
swap_last_two (x ∷ []) = err index_error
swap_last_two (x ∷ y ∷ []) = ok (y ∷ x ∷ [])
swap_last_two (x ∷ y ∷ z ∷ ops) = swap_last_two (y ∷ z ∷ ops) >>= λ swapped. ok (x ∷ swapped)

-- Step 4: the output takes the place of the operands.
abbrev pub output_stack : Option String → StackModel
output_stack none = []
output_stack (some v) = variable v ∷ []

module _ (equivalent : IrOperand → IrOperand → Bool) where
  unfoldable pub cheaper_order : List IrOperand → StackModel → Result (List IrOperand)
  unfolding swap_last_two
  cheaper_order operands stack = do
    cost_no_swap ← dry_run_cost equivalent operands stack
    swapped ← swap_last_two operands
    cost_with_swap ← dry_run_cost equivalent swapped stack
    ok (if ltb cost_no_swap cost_with_swap then operands else swapped)

  -- The order of the operands of a commutative instruction.
  unfoldable pub order_operands : String → List IrOperand → StackModel → Result (List IrOperand)
  unfolding cheaper_order
  order_operands opcode operands stack =
      if is_commutative_opcode opcode then cheaper_order operands stack else ok operands

  -- Step 3: the stack before a join point.
  unfoldable pub reorder_for_jump : Surroundings → VenomInstruction → Emission → Result Emission
  reorder_for_jump place inst e =
      if str_eq inst.opcode "jmp"
      then (place.target_stack >>= λ target.
          stack_reorder equivalent target e >>= λ reordered. ok reordered.0)
      else ok e

  -- Step 6: an output that is not needed is dropped.
  unfoldable pub finish_output : Surroundings → Option String → Emission → Result Emission
  finish_output place none e = ok e
  finish_output place (some v) e =
      if in_phis (variable v) place.next_liveness
      then optimistic_swap equivalent place.next_ends (variable v) place.next_liveness e
      else ok (emit_pop 1 e)

  module _ (version counter : ℕ) (place : Surroundings) where
    unfoldable pub generate_steps :
        VenomInstruction → List IrOperand → Emission → Result (Emission × ℕ)
    unfolding order_operands reorder_for_jump finish_output
    generate_steps inst operands e = do
      emitted ←
          emit_input_operands version (str_eq inst.opcode "invoke") place.next_liveness operands e
      joined ← reorder_for_jump place inst emitted
      ordered ← order_operands inst.opcode operands joined.stack
      cost ← dry_run_cost equivalent ordered joined.stack
      arranged ← stack_reorder equivalent ordered joined
      items ← emit_instruction version counter place.mem_deploy_end inst
      final ← finish_output place inst.output (
          extend_by items.0 (output_stack inst.output ++ pop (length ordered) arranged.0.stack)
            arranged.0)
      ok (final, items.1)

    unfoldable pub generate_with :
        VenomInstruction → List IrOperand → Emission → Result (Emission × ℕ)
    unfolding generate_steps
    generate_with inst operands e =
        if str_eq inst.opcode "phi"
        then (generate_phi place.next_liveness inst e >>= λ after. ok (after, counter))
        else if str_eq inst.opcode "offset"
        then (generate_offset inst e >>= λ after. ok (after, counter))
        else generate_steps inst operands e

    -- `_generate_evm_for_instruction`, with the counter of labels after it.
    unfoldable pub generate_evm_for_instruction :
        VenomInstruction → StackModel → Result (Emission × ℕ)
    unfolding generate_with
    generate_evm_for_instruction inst stack = do
      operands ← stack_operands inst.opcode inst.operands
      generate_with inst operands (emission [] stack)
