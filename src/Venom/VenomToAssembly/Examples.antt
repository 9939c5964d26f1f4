-- ===== src/Venom/VenomToAssembly/Examples.antt =====
-- vyper/venom/venom_to_assembly.py: the theorems on a stack of three operands, and on the
-- instruction `%9 = sub 7, %1`.
use vysvm.Utils.Ints.{wrap256}
use vysvm.Common.Int.{◌-ℤ◌, pos, negsuc}
use mathlib.Core.Path.{subst}
use vysvm.Venom.Operand.{literal, variable, IrOperand, eq_operand}
use vysvm.Venom.VenomToAssembly.{emission, Emission, emit_swap, evm_swap_for, swap_below_top}
use Prim.Native.String.{String}
use vysvm.Venom.VenomToAssembly.Simulation.{operand_word, Simulates, machine_of, words}
use vysvm.Common.{
  Bool, ◌≡◌, List, Option, ℕ, some, true, ◌∷◌, [], if◌then◌else◌, Bool-cases, none, length, refl,
  inl, ◌+◌, inr, arith, ◌^◌, ◌-◌, ◌%◌, false, ◌++◌,
}
use vysvm.Venom.DfgAnalysis.{
  are_equivalent, traverse_assign_chain, are_equivalent-value, both_variables,
}
use vysvm.Venom.VenomToAssembly.Ordering.{Spelled}
use vysvm.Evm.Machine.{Other, run_items, ready}
use vysvm.Venom.VenomToAssembly.Reorder.{
  stack_reorder, in_operands, no_duplicates, top, reverse_onto, emit_input_operands,
  input_operands_loop, emit_operand, check_seen, dry_run_cost, reorder_loop, place_operand,
  eq_depth, exchange_operands, double_swap, eq_operands, optimistic_swap,
}
use vysvm.Venom.VenomToAssembly.Instruction.{
  VenomInstruction, Surroundings, is_commutative_opcode, one_to_one, stack_operands,
}
use vysvm.Venom.VenomToAssembly.Steps.{
  generate_evm_for_instruction, generate_with, generate_steps, reorder_for_jump, order_operands,
  finish_output,
}
use vysvm.Evm.Machine.Pushes.{push_items, push_name}
use vysvm.Evm.Assembler.Instructions.{push, num_to_bytearray, num_loop, pad_zero, mnemonic, byte}
use vysvm.Common.Errors.{ok, err, generic_exception}
use vysvm.Common.Eq.{str_eq}
use vysvm.Venom.VenomToAssembly.Selection.{generate_evm_for_instruction-run_items}
use vysvm.Venom.VenomToAssembly.Refinement.{stack_reorder-Simulates}
use vysvm.Venom.VenomToAssembly.Arrangement.{stack_reorder_succeeds}
use vysvm.Venom.StackModel.{
  get_depth, find_depth, eq_value, minus, peek, element_at, place, swap, replace_at, pop, drop_top,
  in_phis,
}
use vysvm.Common.Text.{in_texts, upper, upper_char}
use vysvm.Venom.VenomToAssembly.Generate.{emit_instruction}

-- `%3 = %1`
abbrev assigned : String → Option IrOperand
assigned v = if str_eq v "%3" then some (variable "%1") else none

abbrev pub names : String → ℕ
names s = if str_eq s "%3" then 12 else if str_eq s "%1" then 12 else 5

assigned_value :
    (v : String) (source : IrOperand)
    → assigned v ≡ some source
    → operand_word names (variable v) ≡ operand_word names source
unfolding operand_word
assigned_value v source h = elim (Bool-cases (str_eq v "%3")) [
  | inl e ↦
      let d : variable "%1" ≡ source = cc (rw e at h) in
      rw (operand_word, e) (subst (λ s. 12 ≡ operand_word names s) d refl)
  | inr e ↦ cc (rw e at h)
]

abbrev pub equivalent : IrOperand → IrOperand → Bool
equivalent = are_equivalent assigned 3

pub same : (x y : IrOperand) → equivalent x y ≡ true → operand_word names x ≡ operand_word names y
same = are_equivalent-value assigned (operand_word names) assigned_value 3

are_equivalent-value_example :
    operand_word names (variable "%3") ≡ operand_word names (variable "%1")
unfolding are_equivalent traverse_assign_chain eq_operand both_variables
are_equivalent-value_example =
    are_equivalent-value assigned (operand_word names) assigned_value 3 (variable "%3")
      (variable "%1") refl

abbrev wanted : List IrOperand
wanted = literal (pos 7) ∷ variable "%1" ∷ []

abbrev three_operands : Emission
three_operands = emission [] (literal (pos 7) ∷ variable "%1" ∷ variable "%2" ∷ [])

stack_reorder_succeeds_example :
    (after : Emission) × (cost : ℕ) × (stack_reorder equivalent wanted three_operands
      ≡ ok (after, cost))
    × (top 2 after.stack ≡ reverse_onto wanted [])
    × (length after.stack ≡ 3)
unfolding Spelled in_operands no_duplicates eq_operand
stack_reorder_succeeds_example =
    stack_reorder_succeeds equivalent wanted three_operands (omega arith) (omega arith)
      (tt, (refl, (refl, tt))) (refl, (refl, tt)) refl

-- Nothing but the stack is run, or `SUB` on two words.
abbrev subtraction : Other (Unit {0})
subtraction (mnemonic s) (a ∷ b ∷ rest) w =
    if str_eq s "SUB" then some (ready ((a + 2 ^ 256 - b) % 2 ^ 256 ∷ rest) w) else none
subtraction _ _ _ = none

stack_reorder-Simulates_example :
    Simulates subtraction names [] tt three_operands
      (emission (mnemonic "SWAP1" ∷ []) (variable "%1" ∷ literal (pos 7) ∷ variable "%2" ∷ []))
    × (top 2 (variable "%1" ∷ literal (pos 7) ∷ variable "%2" ∷ []) ≡ reverse_onto wanted [])
unfolding stack_reorder eq_operand get_depth find_depth eq_value minus peek element_at place
    are_equivalent both_variables emit_swap swap replace_at evm_swap_for
stack_reorder-Simulates_example =
    stack_reorder-Simulates subtraction names [] tt equivalent same wanted three_operands
      (emission (mnemonic "SWAP1" ∷ []) (variable "%1" ∷ literal (pos 7) ∷ variable "%2" ∷ [])) 1
      refl

abbrev pub difference : VenomInstruction
difference = record { opcode = "sub"; operands = wanted; output = some "%9" }

pub sub_listed : in_texts "sub" one_to_one ≡ true
unfolding in_texts
sub_listed = refl

pub not_commutative : is_commutative_opcode "sub" ≡ false
unfolding is_commutative_opcode in_texts
not_commutative = refl

subtracts :
    (rest : List ℕ)
    → subtraction (mnemonic (upper "sub")) (words names (reverse_onto wanted []) ++ rest) tt
      ≡ some (ready (5 ∷ rest) tt)
unfolding upper operand_word
subtracts rest = refl

abbrev last_place : Surroundings
last_place = record {
  next_liveness = "%9" ∷ [];
  next_ends = true;
  target_stack = ok [];
  mem_deploy_end = ok 0;
}

abbrev subtracted : Emission
subtracted =
    emission (mnemonic "PUSH1" ∷ byte 7 ∷ mnemonic "SWAP1" ∷ mnemonic "SUB" ∷ [])
      (variable "%9" ∷ [])

generated :
    generate_evm_for_instruction equivalent 2 0 last_place difference (variable "%1" ∷ [])
    ≡ ok (subtracted, 0)
unfolding generate_evm_for_instruction generate_with generate_steps stack_operands in_texts
    emit_input_operands input_operands_loop emit_operand check_seen in_operands eq_operand get_depth
    find_depth eq_value minus reorder_for_jump order_operands is_commutative_opcode dry_run_cost
    stack_reorder no_duplicates reorder_loop place_operand eq_depth peek place element_at
    exchange_operands are_equivalent both_variables traverse_assign_chain double_swap emit_swap
    swap_below_top swap replace_at evm_swap_for eq_operands emit_instruction upper upper_char pop
    drop_top finish_output in_phis optimistic_swap push_items push push_name num_to_bytearray
    num_loop pad_zero ◌-ℤ◌ wrap256
generated = refl

generate_evm_for_instruction-run_items_example :
    run_items names subtraction subtracted.assembly
      (machine_of subtraction names [] tt (variable "%1" ∷ []))
    ≡ some (machine_of subtraction names [] tt (variable "%9" ∷ []))
unfolding generate_evm_for_instruction operand_word
generate_evm_for_instruction-run_items_example =
    generate_evm_for_instruction-run_items subtraction names [] tt tt equivalent same 2 0 last_place
      difference (variable "%1" ∷ []) subtracted 0 sub_listed subtracts
      (λ swapped p q. let e = not_commutative in cc) generated

-- A literal below -2**255 is refused.
low_literal :
    emit_operand 2 false [] (literal (negsuc (2 ^ 255))) (emission [] []) ≡ err generic_exception
unfolding emit_operand ◌-ℤ◌
low_literal = refl
