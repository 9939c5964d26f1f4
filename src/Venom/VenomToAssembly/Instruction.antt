-- ===== src/Venom/VenomToAssembly/Instruction.antt =====
-- vyper/venom/venom_to_assembly.py: `_generate_evm_for_instruction`. What the analyses say about the
-- place of the instruction is an argument. A message for a failing operation
-- (`apply_line_numbers`) is not modelled.
use vysvm.Venom.Operand.{literal, variable, ir_label, IrOperand}
use vysvm.Venom.VenomToAssembly.{extend_by, emission, Emission, emit_dup}
use vysvm.Common.Text.{in_texts}
use Prim.Native.String.{String}
use vysvm.Common.{List, Option, Bool, ◌∷◌, [], ℕ, if◌then◌else◌, none, leb, some}
use vysvm.Common.Errors.{
  Result, ok, err, assertion_error, index_error, ◌>>=◌, type_error, value_error,
}
use vysvm.Common.Int.{ℤ, pos}
use vysvm.Common.Eq.{str_eq}
use vysvm.Venom.StackModel.{peek, get_phi_depth, in_phis, push_operand, poke}
use vysvm.Evm.Assembler.Instructions.{push_ofst, code_label}

-- `IRInstruction`
pub record VenomInstruction : Type 0 where
  pub opcode : String
  pub operands : List IrOperand
  pub output : Option String

-- At an instruction: the variables that are live after it, whether the next instruction ends the
-- block, the stack that the block jumped to takes in, or the error where the control flow is not
-- normalized, and the constant `mem_deploy_end`.
pub record Surroundings : Type 0 where
  pub next_liveness : List String
  pub next_ends : Bool
  pub target_stack : Result (List IrOperand)
  pub mem_deploy_end : Result ℕ

-- `_ONE_TO_ONE_INSTRUCTIONS`
abbrev pub one_to_one : List String
one_to_one =
    "revert" ∷ "coinbase" ∷ "calldatasize" ∷ "calldatacopy" ∷ "mcopy" ∷ "calldataload" ∷ "codecopy"
    ∷ "gas" ∷ "gasprice" ∷ "gaslimit" ∷ "chainid" ∷ "address" ∷ "origin" ∷ "number" ∷ "extcodesize"
    ∷ "extcodehash" ∷ "codecopy" ∷ "extcodecopy" ∷ "returndatasize" ∷ "returndatacopy" ∷ "callvalue"
    ∷ "selfbalance" ∷ "sload" ∷ "sstore" ∷ "mload" ∷ "mstore" ∷ "tload" ∷ "tstore" ∷ "timestamp"
    ∷ "caller" ∷ "blockhash" ∷ "selfdestruct" ∷ "signextend" ∷ "stop" ∷ "shr" ∷ "shl" ∷ "sar"
    ∷ "and" ∷ "xor" ∷ "or" ∷ "add" ∷ "sub" ∷ "mul" ∷ "div" ∷ "smul" ∷ "sdiv" ∷ "mod" ∷ "smod"
    ∷ "exp" ∷ "addmod" ∷ "mulmod" ∷ "eq" ∷ "iszero" ∷ "not" ∷ "lt" ∷ "gt" ∷ "slt" ∷ "sgt" ∷ "create"
    ∷ "create2" ∷ "msize" ∷ "balance" ∷ "call" ∷ "staticcall" ∷ "delegatecall" ∷ "codesize"
    ∷ "basefee" ∷ "blobhash" ∷ "blobbasefee" ∷ "prevrandao" ∷ "difficulty" ∷ "invalid" ∷ []

-- `is_commutative`
unfoldable pub is_commutative_opcode : String → Bool
is_commutative_opcode opcode =
    in_texts opcode ("add" ∷ "mul" ∷ "smul" ∷ "or" ∷ "xor" ∷ "and" ∷ "eq" ∷ [])

unfoldable pub non_label_operands : List IrOperand → List IrOperand
non_label_operands [] = []
non_label_operands (ir_label l ∷ ops) = non_label_operands ops
non_label_operands (literal n ∷ ops) = literal n ∷ non_label_operands ops
non_label_operands (variable v ∷ ops) = variable v ∷ non_label_operands ops

unfoldable pub label_operands : List IrOperand → List String
label_operands [] = []
label_operands (ir_label l ∷ ops) = l ∷ label_operands ops
label_operands (literal n ∷ ops) = label_operands ops
label_operands (variable v ∷ ops) = label_operands ops

unfoldable pub input_variables : List IrOperand → List String
input_variables [] = []
input_variables (variable v ∷ ops) = v ∷ input_variables ops
input_variables (literal n ∷ ops) = input_variables ops
input_variables (ir_label l ∷ ops) = input_variables ops

-- Step 1: the operands that have to be on the stack.
unfoldable pub alloca_operands : List IrOperand → Result (List IrOperand)
alloca_operands (offset ∷ size ∷ id ∷ []) = ok (offset ∷ [])
alloca_operands _ = err assertion_error

unfoldable pub iload_operands : List IrOperand → Result (List IrOperand)
iload_operands [] = err index_error
iload_operands (literal n ∷ ops) = ok []
iload_operands (variable v ∷ ops) = ok (variable v ∷ ops)
iload_operands (ir_label l ∷ ops) = ok (ir_label l ∷ ops)

unfoldable pub istore_operands : List IrOperand → Result (List IrOperand)
istore_operands (val ∷ literal n ∷ ops) = ok (val ∷ [])
istore_operands (val ∷ addr ∷ ops) = ok (val ∷ addr ∷ ops)
istore_operands _ = err index_error

-- The count of topics, which is a number at most 4.
unfoldable pub topic_count : List IrOperand → Result ℕ
topic_count [] = err index_error
topic_count (literal (pos n) ∷ ops) = if leb n 4 then ok n else err assertion_error
topic_count _ = err assertion_error

unfoldable pub log_operands : List IrOperand → Result (List IrOperand)
unfolding topic_count
log_operands [] = err index_error
log_operands (count ∷ ops) = topic_count (count ∷ ops) >>= λ _. ok ops

unfoldable pub stack_operands : String → List IrOperand → Result (List IrOperand)
unfolding non_label_operands alloca_operands iload_operands istore_operands log_operands
stack_operands opcode operands =
    if in_texts opcode ("jmp" ∷ "djmp" ∷ "jnz" ∷ "invoke" ∷ [])
    then ok (non_label_operands operands)
    else if in_texts opcode ("alloca" ∷ "palloca" ∷ "calloca" ∷ [])
    then alloca_operands operands
    else if str_eq opcode "iload"
    then iload_operands operands
    else if str_eq opcode "istore"
    then istore_operands operands
    else if str_eq opcode "log"
    then log_operands operands
    else ok operands

-- `phi`: the argument that is in the stack becomes the output.
unfoldable pub phi_replace : List String → String → Option ℤ → Emission → Result Emission
phi_replace next_liveness ret none e = err assertion_error
phi_replace next_liveness ret (some depth) e = do
  to_be_replaced ← peek (some depth) e.stack
  if in_phis to_be_replaced next_liveness
      then (do
        copied ← emit_dup depth e
        stack ← poke (some (pos 0)) (variable ret) copied.stack
        ok (emission copied.assembly stack))
      else (do stack ← poke (some depth) (variable ret) e.stack; ok (emission e.assembly stack))

unfoldable pub generate_phi : List String → VenomInstruction → Emission → Result Emission
unfolding input_variables phi_replace
generate_phi next_liveness inst e = elim inst.output [
  | none ↦ err index_error
  | some ret ↦ do
    depth ← get_phi_depth (input_variables inst.operands) e.stack
    phi_replace next_liveness ret depth e
]

-- `offset`; the assembler fails on an offset that is not a number.
unfoldable pub generate_offset : VenomInstruction → Emission → Result Emission
generate_offset inst e = elim inst.operands [
  | literal n ∷ ir_label l ∷ [] ↦ elim inst.output [
    | none ↦ err assertion_error
    | some v ↦
        ok (extend_by (push_ofst (code_label l) n ∷ []) (push_operand (variable v) e.stack) e)
  ]
  | _ ∷ ir_label l ∷ [] ↦ err type_error
  | _ ∷ _ ∷ [] ↦ err assertion_error
  | _ ↦ err value_error
]
