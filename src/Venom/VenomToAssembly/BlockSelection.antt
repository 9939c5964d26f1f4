-- ===== src/Venom/VenomToAssembly/BlockSelection.antt =====
-- vyper/venom/venom_to_assembly.py: a block of instructions that are one-to-one with those of the
-- EVM is translated right.
use vysvm.Venom.Operand.{IrOperand}
use vysvm.Venom.VenomToAssembly.{extend_by, emission, Emission}
use vysvm.Evm.Machine.{Other, run_items}
use Prim.Native.String.{String}
use vysvm.Common.{ℕ, List, Bool, ◌≡◌, true, [], some, refl, ◌∷◌, ◌∙◌}
use vysvm.Venom.VenomToAssembly.Simulation.{operand_word, machine_of}
use vysvm.Venom.VenomToAssembly.Instruction.{
  VenomInstruction, Surroundings, one_to_one, is_commutative_opcode,
}
use vysvm.Venom.VenomToAssembly.Blocks.{generate_all}
use vysvm.Venom.StackModel.{StackModel}
use vysvm.Common.Errors.{ok, bind_case}
use mathlib.Core.Path.{subst}
use vysvm.Common.Text.{in_texts}
use vysvm.Venom.VenomToAssembly.Steps.{generate_evm_for_instruction, swap_last_two}
use vysvm.Venom.VenomToAssembly.Selection.{ExecutesWith, generate_evm_for_instruction-run_items}
use vysvm.Evm.Machine.Pushes.{run_items-append}

module _ {W : Type 0} (other : Other W) (names : String → ℕ) (below : List ℕ)
    (equivalent : IrOperand → IrOperand → Bool)
    (same : (x y : IrOperand) → equivalent x y ≡ true → operand_word names x ≡ operand_word names y)
    (version : ℕ) where
  -- The EVM's instructions, one after another, bring the world from the first to the last state,
  -- each leaving the word of its output.
  unfoldable pub Executed : List (VenomInstruction × Surroundings) → W → W → Type 0
  Executed [] w v = w ≡ v
  Executed (i ∷ rest) w v =
      (u : W) × (in_texts i.0.opcode one_to_one ≡ true)
      × ExecutesWith other names below w u equivalent same version 0 i.1 i.0 i.0.operands
      × ((swapped : List IrOperand)
          → is_commutative_opcode i.0.opcode ≡ true
          → swap_last_two i.0.operands ≡ ok swapped
          → ExecutesWith other names below w u equivalent same version 0 i.1 i.0 swapped)
      × Executed rest u v

  generate_all-runs :
      (insts : List (VenomInstruction × Surroundings)) (w v first : W) (counter next : ℕ)
      (e after : Emission) (stack : StackModel)
      → run_items names other e.assembly (machine_of other names below first stack)
        ≡ some (machine_of other names below w e.stack)
      → Executed insts w v
      → generate_all equivalent version counter insts e ≡ ok (after, next)
      → run_items names other after.assembly (machine_of other names below first stack)
        ≡ some (machine_of other names below v after.stack)
  unfolding generate_all Executed
  generate_all-runs [] w v first counter next e after stack start h k =
      let d : e ≡ after = cc in
      subst
        (λ (f : Emission).
          run_items names other f.assembly (machine_of other names below first stack)
          ≡ some (machine_of other names below v f.stack))
        d
        (subst
          (λ u.
            run_items names other e.assembly (machine_of other names below first stack)
            ≡ some (machine_of other names below u e.stack))
          h start)
  generate_all-runs (i ∷ rest) w v first counter next e after stack start h k =
      let (u, listed, effect, commutes, others) = h in
      bind_case (generate_evm_for_instruction equivalent version counter i.1 i.0 e.stack) _ k
        (λ generated p l.
          let ran =
            generate_evm_for_instruction-run_items other names below w u equivalent same version
              counter i.1 i.0 e.stack generated.0 generated.1 listed effect commutes p in
          generate_all-runs rest u v first generated.1 next
            (extend_by generated.0.assembly generated.0.stack e) after stack
            (run_items-append names other e.assembly generated.0.assembly
                (machine_of other names below first stack) (machine_of other names below w e.stack)
                start
              ∙ ran)
            others l)

  -- For a sequence of instructions that are one-to-one with those of the EVM: where code
  -- generation succeeds, and the EVM's instructions, one after another on the words of the
  -- operands, a literal standing for its word in two's complement, leave the words of the outputs,
  -- in either order of the last two operands if the opcode is commutative, what is emitted for the
  -- sequence brings the machine from the stack that the model described to the one that it
  -- describes after the sequence, if the operands that the analysis calls equivalent have the same
  -- value at run time.
  pub generate_all-run_items :
      (insts : List (VenomInstruction × Surroundings)) (w v : W) (counter next : ℕ)
      (stack : StackModel) (after : Emission)
      → Executed insts w v
      → generate_all equivalent version counter insts (emission [] stack) ≡ ok (after, next)
      → run_items names other after.assembly (machine_of other names below w stack)
        ≡ some (machine_of other names below v after.stack)
  unfolding run_items
  generate_all-run_items insts w v counter next stack after h k =
      generate_all-runs insts w v w counter next (emission [] stack) after stack refl h k
