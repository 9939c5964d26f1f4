-- ===== src/Venom/VenomToAssembly.antt =====
-- vyper/venom/venom_to_assembly.py: the instructions that move operands of the stack, and the model
-- of the stack that goes with them. A method takes the assembly so far and the model, and returns
-- both.
pub mod Arrangement
pub mod Blocks
pub mod BlockSelection
pub mod BlockExamples
pub mod Examples
pub mod Exchange
pub mod Inputs
pub mod Instruction
pub mod Generate
pub mod Moves
pub mod Ordering
pub mod OneToOne
pub mod Plain
pub mod Reorder
pub mod Refinement
pub mod Simulation
pub mod Steps
pub mod Selection
pub mod Success
pub mod Total
use vysvm.Common.{List, ℕ, Option, ◌∷◌, ◌++◌, [], if◌then◌else◌, suc, none, some, zero, get_elem?}
use vysvm.Common.Int.{ℤ, leb_ℤ, pos, ◌-ℤ◌, negsuc}
use vysvm.Venom.Operand.{IrOperand}
use vysvm.Venom.StackModel.{StackModel, pop, get_depth, swap, dup}
use vysvm.Evm.Assembler.Instructions.{AssemblyInstruction, mnemonic}
use vysvm.Common.Errors.{Result, err, ok, ◌>>=◌, assertion_error, stack_too_deep, type_error}
use Prim.Native.String.{String}
use vysvm.Evm.StackNames.{swap_names, dup_names}

pub record Emission : Type 0 where
  pub assembly : List AssemblyInstruction
  pub stack : StackModel

abbrev pub emission : List AssemblyInstruction → StackModel → Emission
emission assembly stack = record { assembly = assembly; stack = stack }

-- `assembly.extend(items)`, with the model after it.
abbrev pub extend_by : List AssemblyInstruction → StackModel → Emission → Emission
extend_by items stack e = emission (e.assembly ++ items) stack

-- `_evm_swap_for`
unfoldable pub evm_swap_for : ℤ → Result String
evm_swap_for (pos n) = err stack_too_deep
evm_swap_for (negsuc n) = elim (get_elem? swap_names n) [
  | none ↦ err stack_too_deep
  | some s ↦ ok s
]

-- `_evm_dup_for`
unfoldable pub evm_dup_for : ℤ → Result String
evm_dup_for (pos zero) = ok "DUP1"
evm_dup_for (pos (suc n)) = err stack_too_deep
evm_dup_for (negsuc n) = elim (get_elem? dup_names (suc n)) [
  | none ↦ err stack_too_deep
  | some s ↦ ok s
]

-- `VenomCompiler.pop`
unfoldable pub pop_items : ℕ → List AssemblyInstruction
pop_items zero = []
pop_items (suc num) = mnemonic "POP" ∷ pop_items num

unfoldable pub emit_pop : ℕ → Emission → Emission
unfolding pop_items
emit_pop num e = extend_by (pop_items num) (pop num e.stack) e

-- `VenomCompiler.swap`, with its cost.
unfoldable pub swap_below_top : ℤ → Emission → Result (Emission × ℕ)
swap_below_top depth e = do
  stack ← swap (some depth) e.stack
  name ← evm_swap_for depth
  ok (extend_by (mnemonic name ∷ []) stack e, 1)

unfoldable pub emit_swap : Option ℤ → Emission → Result (Emission × ℕ)
unfolding swap_below_top
emit_swap none e = err assertion_error
emit_swap (some (pos zero)) e = ok (e, 0)
emit_swap (some (pos (suc n))) e = swap_below_top (pos (suc n)) e
emit_swap (some (negsuc n)) e = swap_below_top (negsuc n) e

-- `VenomCompiler.dup`
unfoldable pub emit_dup : ℤ → Emission → Result Emission
emit_dup depth e = do
  stack ← dup (some depth) e.stack
  name ← evm_dup_for depth
  ok (extend_by (mnemonic name ∷ []) stack e)

unfoldable pub swap_op : IrOperand → Emission → Result (Emission × ℕ)
unfolding emit_swap
swap_op op e = emit_swap (get_depth op e.stack) e

unfoldable pub dup_op : IrOperand → Emission → Result Emission
unfolding emit_dup
dup_op op e = elim (get_depth op e.stack) [
  | none ↦ err assertion_error
  | some depth ↦ emit_dup depth e
]

-- `popmany`: the variables with their keys, the nearest to the top first.
unfoldable pub with_depths : StackModel → List IrOperand → Result (List (ℤ × IrOperand))
with_depths stack [] = ok []
with_depths stack (op ∷ ops) = elim (get_depth op stack) [
  | none ↦ err type_error
  | some depth ↦ do rest ← with_depths stack ops; ok ((pos 0 -ℤ depth, op) ∷ rest)
]

unfoldable pub insert_by_depth : ℤ × IrOperand → List (ℤ × IrOperand) → List (ℤ × IrOperand)
insert_by_depth x [] = x ∷ []
insert_by_depth x (y ∷ ys) =
    let rest = insert_by_depth x ys in if leb_ℤ x.0 y.0 then x ∷ y ∷ ys else y ∷ rest

unfoldable pub sort_by_depth : List (ℤ × IrOperand) → List (ℤ × IrOperand)
unfolding insert_by_depth
sort_by_depth [] = []
sort_by_depth (x ∷ xs) = insert_by_depth x (sort_by_depth xs)

unfoldable pub popmany_loop : List (ℤ × IrOperand) → Emission → Result Emission
unfolding swap_op emit_pop
popmany_loop [] e = ok e
popmany_loop (op ∷ ops) e = do swapped ← swap_op op.1 e; popmany_loop ops (emit_pop 1 swapped.0)

unfoldable pub popmany : List IrOperand → Emission → Result Emission
unfolding with_depths sort_by_depth popmany_loop
popmany to_pop e = do keyed ← with_depths e.stack to_pop; popmany_loop (sort_by_depth keyed) e
