-- ===== src/Venom/LivenessAnalysis.antt =====
-- vyper/venom/analysis/liveness.py: the variables that are live in a basic block, from those that are
-- live at its end, and those that a block takes from another. The order of the blocks, which the
-- worklist of `analyze` goes through, is not modelled.
pub mod Blocks
pub mod Examples
use vysvm.Venom.Operand.{variable, literal, ir_label, IrOperand}
use vysvm.Common.{List, ◌∷◌, Bool, none, [], not, if◌then◌else◌, some}
use vysvm.Venom.VenomToAssembly.Instruction.{VenomInstruction, input_variables}
use Prim.Native.String.{String}
use vysvm.Utils.OrderedSet.{drop_many, add_many, same_items, add_item, discard_item}
use vysvm.Common.Errors.{Result, ok, ◌>>=◌, err, index_error, compiler_panic, assertion_error}
use vysvm.Common.Eq.{str_eq, String_Eq}
use vysvm.Venom.VenomToAssembly.Reorder.{in_operands}

abbrev pub LiveSet : Type 0
LiveSet = List String

-- `IRInstruction.get_outputs`
unfoldable pub output_variables : VenomInstruction → LiveSet
output_variables inst = elim inst.output [ none ↦ [] | some v ↦ v ∷ [] ]

-- A round of the loop of `_calculate_liveness`.
unfoldable pub live_before : VenomInstruction → LiveSet → LiveSet
unfolding output_variables
live_before inst liveness =
    drop_many (output_variables inst) (add_many (input_variables inst.operands) liveness)

-- The set before the instructions, and that before each of them.
unfoldable pub live_through : List VenomInstruction → LiveSet → LiveSet × List LiveSet
unfolding live_before
live_through [] out_vars = (out_vars, [])
live_through (inst ∷ rest) out_vars =
    let (liveness, later) = live_through rest out_vars in
    (live_before inst liveness, live_before inst liveness ∷ later)

-- `_calculate_liveness`: what is stored for each instruction, and whether the first set changed.
unfoldable pub calculate_liveness : List VenomInstruction → LiveSet → LiveSet → List LiveSet × Bool
unfolding live_through
calculate_liveness instructions out_vars orig_liveness =
    let (first, stored) = live_through instructions out_vars in
    (stored, not (same_items orig_liveness first))

-- `phi_operands`: labels and variables in turn.
unfoldable pub phi_operands : List IrOperand → Result (List (String × String))
phi_operands [] = ok []
phi_operands (x ∷ []) = err index_error
phi_operands (ir_label l ∷ variable v ∷ ops) = phi_operands ops >>= λ rest. ok ((l, v) ∷ rest)
phi_operands (x ∷ y ∷ ops) = err assertion_error

unfoldable pub choose_phi : String → List (String × String) → LiveSet → LiveSet
choose_phi source [] liveness = liveness
choose_phi source (arg ∷ args) liveness =
    if str_eq arg.0 source
    then choose_phi source args (add_item arg.1 liveness)
    else choose_phi source args (discard_item arg.1 liveness)

-- A `phi` without the label of the source is a bad path into it.
unfoldable pub phi_inputs : String → List IrOperand → LiveSet → Result LiveSet
unfolding choose_phi phi_operands
phi_inputs source operands liveness =
    if in_operands (ir_label source) operands
    then (phi_operands operands >>= λ args. ok (choose_phi source args liveness))
    else err compiler_panic

unfoldable pub input_vars_loop : String → List VenomInstruction → LiveSet → Result LiveSet
unfolding phi_inputs
input_vars_loop source [] liveness = ok liveness
input_vars_loop source (inst ∷ rest) liveness = do
  chosen ←
      if str_eq inst.opcode "phi" then phi_inputs source inst.operands liveness else ok liveness
  input_vars_loop source rest chosen

-- `input_vars_from`, for the label of the source, and the instructions of the target with the
-- liveness of the first.
unfoldable pub input_vars_from : String → List VenomInstruction → LiveSet → Result LiveSet
unfolding input_vars_loop
input_vars_from source instructions liveness = input_vars_loop source instructions liveness

-- `_calculate_out_vars`: the union over the blocks that come after, and whether it changed.
unfoldable pub collect_out_vars :
    String → List (List VenomInstruction × LiveSet) → LiveSet → Result LiveSet
unfolding input_vars_from
collect_out_vars source [] out_vars = ok out_vars
collect_out_vars source (target ∷ targets) out_vars = do
  target_vars ← input_vars_from source target.0 target.1
  collect_out_vars source targets (add_many target_vars out_vars)

unfoldable pub calculate_out_vars :
    String → List (List VenomInstruction × LiveSet) → LiveSet → Result (LiveSet × Bool)
unfolding collect_out_vars
calculate_out_vars source targets orig_out_vars = do
  out_vars ← collect_out_vars source targets []
  ok (out_vars, not (same_items orig_out_vars out_vars))
