-- ===== src/Venom/VenomToAssembly/BlockExamples.antt =====
-- vyper/venom/venom_to_assembly.py: a block of two instructions.
use vysvm.Utils.Ints.{wrap256}
use vysvm.Common.Int.{◌-ℤ◌, pos}
use vysvm.Venom.Operand.{literal, variable, eq_operand}
use vysvm.Venom.VenomToAssembly.{
  emission, Emission, emit_swap, evm_swap_for, swap_below_top, swap_op,
}
use vysvm.Venom.VenomToAssembly.Simulation.{operand_word, machine_of}
use vysvm.Common.{
  ◌≡◌, List, ℕ, some, true, ◌∷◌, [], if◌then◌else◌, none, refl, ◌+◌, ◌^◌, ◌-◌, ◌%◌, false,
}
use vysvm.Venom.DfgAnalysis.{are_equivalent, traverse_assign_chain, both_variables}
use vysvm.Evm.Machine.{Other, run_items, ready}
use vysvm.Venom.VenomToAssembly.Reorder.{
  stack_reorder, in_operands, no_duplicates, emit_input_operands, input_operands_loop, emit_operand,
  check_seen, dry_run_cost, reorder_loop, place_operand, eq_depth, exchange_operands, double_swap,
  eq_operands, optimistic_swap, swap_next, last_variable,
}
use vysvm.Venom.VenomToAssembly.Instruction.{
  VenomInstruction, Surroundings, is_commutative_opcode, one_to_one, stack_operands,
}
use vysvm.Venom.VenomToAssembly.BlockSelection.{Executed, generate_all-run_items}
use vysvm.Venom.VenomToAssembly.Blocks.{generate_all}
use vysvm.Venom.VenomToAssembly.Steps.{
  generate_evm_for_instruction, generate_with, generate_steps, reorder_for_jump, order_operands,
  finish_output,
}
use vysvm.Evm.Machine.Pushes.{push_items, push_name}
use vysvm.Evm.Assembler.Instructions.{push, num_to_bytearray, num_loop, pad_zero, mnemonic, byte}
use vysvm.Common.Errors.{ok}
use vysvm.Common.Eq.{str_eq}
use vysvm.Venom.StackModel.{
  get_depth, find_depth, eq_value, minus, peek, element_at, place, swap, replace_at, pop, drop_top,
  in_phis,
}
use vysvm.Common.Text.{in_texts, upper, upper_char}
use vysvm.Venom.VenomToAssembly.Generate.{emit_instruction}
use vysvm.Venom.VenomToAssembly.Examples.{
  names, equivalent, same, difference, not_commutative, sub_listed,
}

-- `%9` is stored at 7 after it is computed.
abbrev storing : VenomInstruction
storing = record {
  opcode = "mstore";
  operands = variable "%9" ∷ literal (pos 7) ∷ [];
  output = none;
}

abbrev at_the_end : Surroundings
at_the_end = record {
  next_liveness = [];
  next_ends = true;
  target_stack = ok [];
  mem_deploy_end = ok 0;
}

abbrev in_the_middle : Surroundings
in_the_middle = record {
  next_liveness = "%9" ∷ [];
  next_ends = false;
  target_stack = ok [];
  mem_deploy_end = ok 0;
}

-- The world is the word stored last.
abbrev storage : Other ℕ
storage (mnemonic s) (a ∷ b ∷ rest) w =
    if str_eq s "SUB"
    then some (ready ((a + 2 ^ 256 - b) % 2 ^ 256 ∷ rest) w)
    else if str_eq s "MSTORE"
    then some (ready rest b)
    else none
storage _ _ _ = none

abbrev two_instructions : List (VenomInstruction × Surroundings)
two_instructions = (difference, in_the_middle) ∷ (storing, at_the_end) ∷ []

abbrev stored : Emission
stored =
    emission
      (mnemonic "PUSH1"
        ∷ byte 7
        ∷ mnemonic "SWAP1"
        ∷ mnemonic "SUB"
        ∷ mnemonic "PUSH1"
        ∷ byte 7
        ∷ mnemonic "MSTORE"
        ∷ [])
      []

store_listed : in_texts "mstore" one_to_one ≡ true
unfolding in_texts
store_listed = refl

store_not_commutative : is_commutative_opcode "mstore" ≡ false
unfolding is_commutative_opcode in_texts
store_not_commutative = refl

two_instructions-Executed : Executed storage names [] equivalent same 2 two_instructions 0 5
unfolding Executed upper operand_word
two_instructions-Executed = (
  0,
  sub_listed,
  (λ rest. refl),
  (λ swapped p q. let e = not_commutative in cc),
  (5, store_listed, (λ rest. refl), (λ swapped p q. let e = store_not_commutative in cc), refl),
)

both_generated :
    generate_all equivalent 2 0 two_instructions (emission [] (variable "%1" ∷ [])) ≡ ok (stored, 0)
unfolding generate_evm_for_instruction generate_with generate_steps stack_operands in_texts
    emit_input_operands input_operands_loop emit_operand check_seen in_operands eq_operand get_depth
    find_depth eq_value minus reorder_for_jump order_operands is_commutative_opcode dry_run_cost
    stack_reorder no_duplicates reorder_loop place_operand eq_depth peek place element_at
    exchange_operands are_equivalent both_variables traverse_assign_chain double_swap emit_swap
    swap_below_top swap replace_at evm_swap_for eq_operands emit_instruction upper upper_char pop
    drop_top finish_output in_phis optimistic_swap push_items push push_name num_to_bytearray
    num_loop pad_zero ◌-ℤ◌ wrap256 generate_all swap_next swap_op last_variable
both_generated = refl

generate_all-run_items_example :
    run_items names storage stored.assembly (machine_of storage names [] 0 (variable "%1" ∷ []))
    ≡ some (machine_of storage names [] 5 [])
generate_all-run_items_example =
    generate_all-run_items storage names [] equivalent same 2 two_instructions 0 5 0 0
      (variable "%1" ∷ []) stored two_instructions-Executed both_generated
