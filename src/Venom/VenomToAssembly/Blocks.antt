-- ===== src/Venom/VenomToAssembly/Blocks.antt =====
-- vyper/venom/venom_to_assembly.py: `_prepare_stack_for_function`, `clean_stack_from_cfg_in`, and the
-- part of `_generate_evm_for_basicblock_r` that generates a basic block. What the analyses say of
-- the block and of each instruction is an argument.
use vysvm.Venom.Operand.{variable, IrOperand}
use vysvm.Venom.VenomToAssembly.{extend_by, Emission, popmany}
use vysvm.Common.{List, Bool, ℕ, Option, ◌∷◌, if◌then◌else◌, none, some, [], ltb, false, map, true}
use vysvm.Venom.VenomToAssembly.Instruction.{VenomInstruction, Surroundings}
use Prim.Native.String.{String}
use vysvm.Common.Errors.{Result, ok, ◌>>=◌, ◌>>◌, unless, assertion_error, err}
use vysvm.Common.Eq.{str_eq, String_Eq}
use vysvm.Venom.StackModel.{in_phis, push_operand}
use vysvm.Venom.VenomToAssembly.Reorder.{reverse_onto, optimistic_swap}
use vysvm.Venom.VenomToAssembly.Steps.{generate_evm_for_instruction}
use vysvm.Utils.OrderedSet.{difference_of}

-- The parameters come first. The result has the output of the last one.
unfoldable pub push_params :
    List VenomInstruction → Option String → Emission → Result (Emission × Option String)
push_params [] last_param e = ok (e, last_param)
push_params (inst ∷ rest) last_param e = elim (str_eq inst.opcode "param") [
  | false ↦ ok (e, last_param)
  | true ↦ elim inst.output [
    | none ↦ err assertion_error
    | some v ↦ push_params rest (some v) (extend_by [] (push_operand (variable v) e.stack) e)
  ]
]

-- The operands that are not needed, from the bottom of the stack.
unfoldable pub dead_operands : List String → List IrOperand → Result (List IrOperand)
dead_operands next_liveness [] = ok []
dead_operands next_liveness (variable v ∷ ops) = do
  rest ← dead_operands next_liveness ops
  ok (if in_phis (variable v) next_liveness then rest else variable v ∷ rest)
dead_operands next_liveness (_ ∷ ops) = err assertion_error

module _ (equivalent : IrOperand → IrOperand → Bool) where
  unfoldable pub prepare_with : List String → Bool → Option String → Emission → Result Emission
  unfolding dead_operands
  prepare_with next_liveness ends none e = ok e
  prepare_with next_liveness ends (some v) e = do
    to_pop ← dead_operands next_liveness (reverse_onto e.stack [])
    popped ← popmany to_pop e
    optimistic_swap equivalent ends (variable v) next_liveness popped

  -- `_prepare_stack_for_function`, with the variables that are live at the first instruction that
  -- is no parameter, and whether it ends the block.
  unfoldable pub prepare_stack_for_function :
      List VenomInstruction → List String → Bool → Emission → Result Emission
  unfolding push_params prepare_with
  prepare_stack_for_function instructions next_liveness ends e = do
    pushed ← push_params instructions none e
    prepare_with next_liveness ends pushed.1 pushed.0

-- The block before has several blocks after it.
unfoldable pub clean_stack_from_cfg_in : ℕ → List String → List String → Emission → Result Emission
clean_stack_from_cfg_in cfg_out_count layout inputs e = do
  unless assertion_error (ltb 1 cfg_out_count)
  popmany (map variable (difference_of layout inputs)) e

-- The loop over the instructions, each with what surrounds it.
unfoldable pub generate_all :
    (IrOperand → IrOperand → Bool)
    → ℕ
    → ℕ
    → List (VenomInstruction × Surroundings)
    → Emission
    → Result (Emission × ℕ)
generate_all equivalent version counter [] e = ok (e, counter)
generate_all equivalent version counter (i ∷ rest) e = do
  generated ← generate_evm_for_instruction equivalent version counter i.1 i.0 e.stack
  generate_all equivalent version generated.1 rest
      (extend_by generated.0.assembly generated.0.stack e)
