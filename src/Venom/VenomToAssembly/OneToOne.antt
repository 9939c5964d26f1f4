-- ===== src/Venom/VenomToAssembly/OneToOne.antt =====
-- vyper/venom/venom_to_assembly.py: `_generate_evm_for_instruction` is right for the instructions
-- that are one-to-one with those of the EVM.
use mathlib.Core.Path.{subst}
use vysvm.Venom.Operand.{variable, IrOperand}
use vysvm.Venom.VenomToAssembly.{Emission, emit_pop}
use vysvm.Common.Text.{upper, in_texts}
use Prim.Native.String.{String}
use vysvm.Venom.StackModel.{drop_top, pop, StackModel, in_phis}
use vysvm.Common.{
  ℕ, List, length, Bool, ◌++◌, ◌≤◌, ◌≡◌, ◌∷◌, arith, true, suc, ap, [], zero, refl, leb, sym, some,
  Option, ◌∙◌, Bool-cases, inl, inr, if◌then◌else◌, ltb, if_cases, none,
}
use vysvm.Evm.Machine.{Other, run_items, ready}
use vysvm.Venom.VenomToAssembly.Simulation.{
  words, operand_word, machine_of, Simulates, Simulates-refl,
}
use vysvm.Venom.VenomToAssembly.Reorder.{top, reverse_onto, dry_run_cost}
use vysvm.Venom.VenomToAssembly.Arrangement.{length-reverse_onto}
use vysvm.Venom.VenomToAssembly.Instruction.{
  Surroundings, VenomInstruction, one_to_one, is_commutative_opcode,
}
use vysvm.Evm.Assembler.Instructions.{mnemonic}
use vysvm.Venom.VenomToAssembly.Steps.{
  finish_output, order_operands, cheaper_order, swap_last_two, output_stack,
}
use vysvm.Common.Errors.{ok, bind_succeeds}
use vysvm.Venom.VenomToAssembly.Plain.{one_to_one-stack_op}
use vysvm.Venom.VenomToAssembly.Refinement.{optimistic_swap-Simulates}
use vysvm.Venom.VenomToAssembly.Inputs.{emit_pop-Simulates}
use vysvm.Evm.Machine.Pushes.{run_items-other}

words_append :
    (names : String → ℕ) (s t : StackModel) (below : List ℕ)
    → words names (s ++ t) ++ below ≡ words names s ++ (words names t ++ below)
words_append names [] t below = refl
words_append names (x ∷ s) t below =
    ap (λ l. operand_word names x ∷ l) (words_append names s t below)

-- What is dropped from the stack is what was on top.
top_drop : (n : ℕ) (stack : StackModel) → top n stack ++ drop_top n stack ≡ stack
unfolding drop_top
top_drop zero stack = refl
top_drop (suc n) [] = refl
top_drop (suc n) (x ∷ stack) = ap (λ l. x ∷ l) (top_drop n stack)

length-top : (n : ℕ) (stack : StackModel) → length (top n stack) ≤ length stack
length-top zero stack = omega arith
length-top (suc n) [] = omega arith
length-top (suc n) (x ∷ stack) = omega (arith, length-top n stack)

popped_operands :
    (ops : List IrOperand) (stack : StackModel)
    → top (length ops) stack ≡ reverse_onto ops []
    → stack ≡ reverse_onto ops [] ++ pop (length ops) stack
unfolding pop
popped_operands ops stack h =
    let count : length (reverse_onto ops []) ≡ length ops =
      omega (arith, length-reverse_onto ops []) in
    let shown : length (top (length ops) stack) ≡ length ops = rw h count in
    let enough : leb (length ops) (length stack) ≡ true =
      let l = length-top (length ops) stack in ground arith in
    rw (pop, enough, sym h) (sym (top_drop (length ops) stack))

module _ {W : Type 0} (other : Other W) (names : String → ℕ) (below : List ℕ) (w w' : W)
    (equivalent : IrOperand → IrOperand → Bool)
    (same : (x y : IrOperand) → equivalent x y ≡ true → operand_word names x ≡ operand_word names y)
    (version counter : ℕ) (place : Surroundings) (inst : VenomInstruction) where
  -- The instruction of the EVM, on operands in an order.
  abbrev pub Executes : List IrOperand → Type 0
  Executes ordered =
      (rest : List ℕ)
      → other (mnemonic (upper inst.opcode)) (words names (reverse_onto ordered []) ++ rest) w
        ≡ some (ready (words names (output_stack inst.output) ++ rest) w')

  pub run_opcode :
      (ordered : List IrOperand) (stack : StackModel)
      → in_texts inst.opcode one_to_one ≡ true
      → Executes ordered
      → top (length ordered) stack ≡ reverse_onto ordered []
      → run_items names other
          (mnemonic (upper inst.opcode) ∷ [])
          (machine_of other names below w stack)
        ≡ some (
            machine_of other names below w'
              (output_stack inst.output ++ pop (length ordered) stack))
  run_opcode ordered stack h effect shown =
      let rest = pop (length ordered) stack in
      let before : words names stack ++ below
          ≡ words names (reverse_onto ordered []) ++ (words names rest ++ below) =
        ap (λ s. words names s ++ below) (popped_operands ordered stack shown)
        ∙ words_append names (reverse_onto ordered []) rest below in
      ap (λ l. run_items names other (mnemonic (upper inst.opcode) ∷ []) (ready l w)) before
      ∙ run_items-other names other (upper inst.opcode)
          (words names (reverse_onto ordered []) ++ (words names rest ++ below)) w
          (ready (words names (output_stack inst.output) ++ (words names rest ++ below)) w')
          (one_to_one-stack_op inst.opcode h) (effect (words names rest ++ below))
      ∙ ap (λ l. some (ready l w')) (sym (words_append names (output_stack inst.output) rest below))

  pub finish_output-Simulates :
      (output : Option String) (rest : StackModel) (e after : Emission)
      → e.stack ≡ output_stack output ++ rest
      → finish_output equivalent place output e ≡ ok after
      → Simulates other names below w' e after
  unfolding finish_output
  finish_output-Simulates none rest e after g h =
      let d : e ≡ after = cc in
      subst (Simulates other names below w' e) d
        (Simulates-refl other names below w' e e.stack refl)
  finish_output-Simulates (some v) rest e after g h =
      elim (Bool-cases (in_phis (variable v) place.next_liveness)) [
        | inl p ↦
            optimistic_swap-Simulates other names below w' equivalent same place.next_ends
              (variable v) place.next_liveness e after (rw p at h)
        | inr p ↦
            let d : emit_pop 1 e ≡ after = cc (rw p at h) in
            subst (Simulates other names below w' e) d
              (emit_pop-Simulates other names below w' (variable v) rest e g)
      ]

  -- The order chosen is that of the instruction, or with its last two operands exchanged.
  pub order_operands_succeeds :
      (ordered : List IrOperand) (stack : StackModel)
      → order_operands equivalent inst.opcode inst.operands stack ≡ ok ordered
      → Executes inst.operands
      → ((swapped : List IrOperand)
          → is_commutative_opcode inst.opcode ≡ true
          → swap_last_two inst.operands ≡ ok swapped
          → Executes swapped)
      → Executes ordered
  unfolding order_operands cheaper_order
  order_operands_succeeds ordered stack h effect commutes =
      elim (Bool-cases (is_commutative_opcode inst.opcode)) [
        | inl p ↦
            let (a, e1, k) =
              bind_succeeds (dry_run_cost equivalent inst.operands stack) _ (rw p at h) in
            let (swapped, e2, l) = bind_succeeds (swap_last_two inst.operands) _ k in
            let (b, e3, m) = bind_succeeds (dry_run_cost equivalent swapped stack) _ l in
            let d : (if ltb a b then inst.operands else swapped) ≡ ordered = cc in
            subst Executes d
              (if_cases Executes (ltb a b) (λ _. effect) (λ _. commutes swapped p e2))
        | inr p ↦ let d : inst.operands ≡ ordered = cc (rw p at h) in subst Executes d effect
      ]
