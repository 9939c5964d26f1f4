-- ===== src/Venom/VenomToAssembly/Selection.antt =====
-- vyper/venom/venom_to_assembly.py: what `_generate_evm_for_instruction` emits for an instruction
-- that is one-to-one with one of the EVM does on the machine what the instruction means.
use mathlib.Core.Path.{subst}
use vysvm.Venom.Operand.{IrOperand}
use vysvm.Venom.VenomToAssembly.{extend_by, emission, Emission}
use vysvm.Common.Text.{upper, in_texts}
use vysvm.Evm.Machine.{Other, run_items}
use Prim.Native.String.{String}
use vysvm.Common.{ℕ, List, Bool, ◌≡◌, true, ap, false, some, ◌∙◌, ◌∷◌, [], refl, length, ◌++◌}
use vysvm.Venom.VenomToAssembly.Simulation.{operand_word, Simulates, machine_of}
use vysvm.Venom.VenomToAssembly.Instruction.{
  Surroundings, VenomInstruction, one_to_one, is_commutative_opcode, stack_operands,
}
use vysvm.Venom.VenomToAssembly.OneToOne.{
  Executes, run_opcode, finish_output-Simulates, order_operands_succeeds,
}
use vysvm.Venom.VenomToAssembly.Generate.{emit_instruction}
use vysvm.Venom.VenomToAssembly.Steps.{
  generate_steps, reorder_for_jump, swap_last_two, order_operands, finish_output,
  generate_evm_for_instruction, output_stack, generate_with,
}
use vysvm.Venom.StackModel.{StackModel, pop}
use vysvm.Common.Errors.{bind_case, ok}
use vysvm.Common.Eq.{str_eq}
use vysvm.Evm.Assembler.Instructions.{mnemonic, AssemblyInstruction}
use vysvm.Evm.Machine.Pushes.{run_items-append}
use vysvm.Venom.VenomToAssembly.Reorder.{
  emit_input_operands, dry_run_cost, stack_reorder, top, reverse_onto,
}
use vysvm.Venom.VenomToAssembly.Plain.{one_to_one-special, one_to_one-stack_operands}
use vysvm.Venom.VenomToAssembly.Inputs.{emit_input_operands-Simulates}
use vysvm.Venom.VenomToAssembly.Refinement.{stack_reorder-Simulates}

module _ {W : Type 0} (other : Other W) (names : String → ℕ) (below : List ℕ) (w w' : W)
    (equivalent : IrOperand → IrOperand → Bool)
    (same : (x y : IrOperand) → equivalent x y ≡ true → operand_word names x ≡ operand_word names y)
    (version counter : ℕ) (place : Surroundings) (inst : VenomInstruction) where
  abbrev pub ExecutesWith : List IrOperand → Type 0
  ExecutesWith = Executes other names below w w' equivalent same version counter place inst

  -- Running the emitted items from the start of an emission.
  RunsFrom : Emission → StackModel → W → Type 0
  RunsFrom e stack v =
      run_items names other e.assembly (machine_of other names below w stack)
      ≡ some (machine_of other names below v e.stack)

  run_simulated :
      (e f : Emission) (stack : StackModel) (v : W)
      → RunsFrom e stack v
      → Simulates other names below v e f
      → RunsFrom f stack v
  unfolding RunsFrom
  run_simulated e f stack v h s =
      ap (λ l. run_items names other l (machine_of other names below w stack)) s.emitted
      ∙ run_items-append names other e.assembly s.items (machine_of other names below w stack)
          (machine_of other names below v e.stack) h
      ∙ s.runs

  emit_one_to_one :
      in_texts inst.opcode one_to_one ≡ true
      → emit_instruction version counter place.mem_deploy_end inst
        ≡ ok (mnemonic (upper inst.opcode) ∷ [], counter)
  unfolding emit_instruction
  emit_one_to_one h = rw (emit_instruction, h) refl

  finish-RunsFrom :
      (ordered : List IrOperand) (arranged after : Emission) (stack : StackModel)
      → in_texts inst.opcode one_to_one ≡ true
      → ExecutesWith ordered
      → top (length ordered) arranged.stack ≡ reverse_onto ordered []
      → RunsFrom arranged stack w
      → finish_output equivalent place inst.output (
          extend_by
            (mnemonic (upper inst.opcode) ∷ [])
            (output_stack inst.output ++ pop (length ordered) arranged.stack)
            arranged)
        ≡ ok after
      → RunsFrom after stack w'
  unfolding RunsFrom
  finish-RunsFrom ordered arranged after stack h effect shown start done =
      let rest = pop (length ordered) arranged.stack in
      let produced =
        extend_by (mnemonic (upper inst.opcode) ∷ []) (output_stack inst.output ++ rest) arranged in
      let ran : RunsFrom produced stack w' =
        run_items-append names other arranged.assembly (mnemonic (upper inst.opcode) ∷ [])
          (machine_of other names below w stack) (machine_of other names below w arranged.stack)
          start
        ∙ run_opcode other names below w w' equivalent same version counter place inst ordered
            arranged.stack h effect shown in
      run_simulated produced after stack w' ran (
        finish_output-Simulates other names below w w' equivalent same version counter place inst
          inst.output rest produced after refl done)

  arrange-RunsFrom :
      (ordered : List IrOperand) (joined arranged final after : Emission) (stack : StackModel)
      (spent : ℕ) (items : List AssemblyInstruction × ℕ)
      → in_texts inst.opcode one_to_one ≡ true
      → ExecutesWith ordered
      → RunsFrom joined stack w
      → stack_reorder equivalent ordered joined ≡ ok (arranged, spent)
      → emit_instruction version counter place.mem_deploy_end inst ≡ ok items
      → finish_output equivalent place inst.output (
          extend_by items.0
            (output_stack inst.output ++ pop (length ordered) arranged.stack)
            arranged)
        ≡ ok final
      → final ≡ after
      → RunsFrom after stack w'
  arrange-RunsFrom ordered joined arranged final after stack spent items h in_order start p5 p6 p7
        ended =
      let (moves, shown) =
        stack_reorder-Simulates other names below w equivalent same ordered joined arranged spent
          p5 in
      let one = emit_one_to_one h in
      let said : items ≡ (mnemonic (upper inst.opcode) ∷ [], counter) = cc in
      finish-RunsFrom ordered arranged after stack h in_order shown
        (run_simulated joined arranged stack w start moves) (rw (said, ended) at p7)

  generate_steps-RunsFrom :
      (e after : Emission) (next : ℕ) (stack : StackModel)
      → in_texts inst.opcode one_to_one ≡ true
      → str_eq inst.opcode "invoke" ≡ false
      → str_eq inst.opcode "jmp" ≡ false
      → ExecutesWith inst.operands
      → ((swapped : List IrOperand)
          → is_commutative_opcode inst.opcode ≡ true
          → swap_last_two inst.operands ≡ ok swapped
          → ExecutesWith swapped)
      → RunsFrom e stack w
      → generate_steps equivalent version counter place inst inst.operands e ≡ ok (after, next)
      → RunsFrom after stack w'
  unfolding generate_steps reorder_for_jump
  generate_steps-RunsFrom e after next stack h invoke jmp effect commutes start k0 =
      bind_case
        (emit_input_operands version (str_eq inst.opcode "invoke") place.next_liveness inst.operands
          e)
        _ k0
        (λ emitted p1 k1.
          bind_case (reorder_for_jump equivalent place inst emitted) _ k1 (λ joined p2 k2.
            bind_case (order_operands equivalent inst.opcode inst.operands joined.stack) _ k2
              (λ ordered p3 k3.
                bind_case (dry_run_cost equivalent ordered joined.stack) _ k3 (λ cost p4 k4.
                  bind_case (stack_reorder equivalent ordered joined) _ k4 (λ arranged p5 k5.
                    bind_case (emit_instruction version counter place.mem_deploy_end inst) _ k5
                      (λ items p6 k6.
                        bind_case
                          (finish_output equivalent place inst.output (
                            extend_by items.0
                              (output_stack inst.output ++ pop (length ordered) arranged.0.stack)
                              arranged.0))
                          _ k6
                          (λ final p7 k7.
                            let stayed : emitted ≡ joined = cc (rw (reorder_for_jump, jmp) at p2) in
                            let given = run_simulated e emitted stack w start (
                              emit_input_operands-Simulates other names below w version
                                place.next_liveness inst.operands e emitted (rw invoke at p1)) in
                            let in_order =
                              order_operands_succeeds other names below w w' equivalent same version
                                counter place inst ordered joined.stack p3 effect commutes in
                            arrange-RunsFrom ordered joined arranged.0 final after stack arranged.1
                              items h in_order (subst (λ j. RunsFrom j stack w) stayed given) p5 p6
                              p7 cc)))))))

  -- For an opcode that is one-to-one with one of the EVM's: where code generation succeeds, and
  -- the EVM's instruction, on the words of the operands, a literal standing for its word in two's
  -- complement, leaves the word of the output, in either order of the last two operands if the
  -- opcode is commutative, what is emitted for the whole instruction brings the machine from the
  -- stack that the model described to the one that it describes after the instruction, if the
  -- operands that the analysis calls equivalent have the same value at run time.
  pub generate_evm_for_instruction-run_items :
      (stack : StackModel) (after : Emission) (next : ℕ)
      → in_texts inst.opcode one_to_one ≡ true
      → ExecutesWith inst.operands
      → ((swapped : List IrOperand)
          → is_commutative_opcode inst.opcode ≡ true
          → swap_last_two inst.operands ≡ ok swapped
          → ExecutesWith swapped)
      → generate_evm_for_instruction equivalent version counter place inst stack ≡ ok (after, next)
      → run_items names other after.assembly (machine_of other names below w stack)
        ≡ some (machine_of other names below w' after.stack)
  unfolding generate_evm_for_instruction generate_with RunsFrom run_items
  generate_evm_for_instruction-run_items stack after next h effect commutes k0 =
      let (
        jmp,
        (
          djmp,
          (jnz, (invoke, (a1, (a2, (a3, (iload, (istore, (log, (phi, (offset, none_left)))))))))),
        ),
      ) =
        one_to_one-special inst.opcode h in
      bind_case (stack_operands inst.opcode inst.operands) _ k0 (λ operands p1 k1.
        let all_of = one_to_one-stack_operands inst.opcode inst.operands h in
        let whole : operands ≡ inst.operands = cc in
        generate_steps-RunsFrom (emission [] stack) after next stack h invoke jmp effect commutes
          refl (rw (whole, generate_with, phi, offset) at k1))
