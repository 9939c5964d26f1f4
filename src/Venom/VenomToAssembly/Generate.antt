-- ===== src/Venom/VenomToAssembly/Generate.antt =====
-- vyper/venom/venom_to_assembly.py: the EVM instructions of an opcode, and the steps of
-- `_generate_evm_for_instruction` in their order. The counter of labels goes with them.
use vysvm.Venom.Operand.{literal, variable, ir_label, IrOperand}
use vysvm.Common.Text.{upper, decimal, in_texts}
use Prim.Native.String.{◌++◌ as append_text, String}
use vysvm.Common.{ℕ, suc, List, Option, if◌then◌else◌, [], ◌∷◌, ◌++◌, some, get_elem?, none}
use vysvm.Venom.VenomToAssembly.Instruction.{
  VenomInstruction, topic_count, label_operands, one_to_one,
}
use vysvm.Common.Errors.{
  Result, ok, err, ◌>>=◌, index_error, value_error, assertion_error, compiler_panic,
  generic_exception,
}
use vysvm.Evm.Assembler.Instructions.{AssemblyInstruction, push_label, mnemonic, label}
use vysvm.Evm.Machine.Pushes.{push_items}
use vysvm.Common.Eq.{str_eq}
use vysvm.Common.Int.{pos, pos_part, ◌+ℤ◌}

-- `mklabel`, with the counter after it.
unfoldable pub mklabel : String → ℕ → String × ℕ
mklabel name counter = (append_text name (append_text "_" (decimal (suc counter))), suc counter)

-- Step 5, in the EVM version of the target.
module _ (version : ℕ) (counter : ℕ) where
  unfoldable pub emit_jnz : VenomInstruction → Result (List AssemblyInstruction)
  emit_jnz inst = elim (label_operands inst.operands) [
    | if_nonzero ∷ if_zero ∷ [] ↦
        ok (push_label if_nonzero ∷ mnemonic "JUMPI" ∷ push_label if_zero ∷ mnemonic "JUMP" ∷ [])
    | _ ↦ err value_error
  ]

  unfoldable pub emit_jmp : VenomInstruction → Result (List AssemblyInstruction)
  emit_jmp inst = elim inst.operands [
    | ir_label target ∷ [] ↦ ok (push_label target ∷ mnemonic "JUMP" ∷ [])
    | _ ∷ [] ↦ err assertion_error
    | _ ↦ err value_error
  ]

  unfoldable pub emit_djmp : VenomInstruction → Result (List AssemblyInstruction)
  emit_djmp inst = elim inst.operands [
    | [] ↦ err index_error
    | variable v ∷ _ ↦ ok (mnemonic "JUMP" ∷ [])
    | _ ↦ err assertion_error
  ]

  unfoldable pub emit_invoke : VenomInstruction → Result (List AssemblyInstruction × ℕ)
  unfolding mklabel
  emit_invoke inst = elim inst.operands [
    | [] ↦ err index_error
    | ir_label target ∷ _ ↦
        let (return_label, next) = mklabel "return_label" counter in
        ok (
          push_label return_label ∷ push_label target ∷ mnemonic "JUMP" ∷ label return_label ∷ [],
          next,
        )
    | _ ↦ err assertion_error
  ]

  unfoldable pub emit_assert_unreachable : List AssemblyInstruction × ℕ
  unfolding mklabel
  emit_assert_unreachable =
      let (end_symbol, next) = mklabel "reachable" counter in
      (push_label end_symbol ∷ mnemonic "JUMPI" ∷ mnemonic "INVALID" ∷ label end_symbol ∷ [], next)

  -- The two words in the scratch space of memory, which starts at 0.
  abbrev pub sha3_64_items : List AssemblyInstruction
  sha3_64_items =
      push_items version 0
      ++ (mnemonic "MSTORE"
          ∷ (push_items version 32
              ++ (mnemonic "MSTORE"
                  ∷ (push_items version 64 ++ (push_items version 0 ++ (mnemonic "SHA3" ∷ []))))))

  -- The address of an immutable, and the access to it. `PUSH` of a negative number is that of 0.
  unfoldable pub immutable_items : Option IrOperand → ℕ → String → Result (List AssemblyInstruction)
  immutable_items none mem_deploy_end access = err index_error
  immutable_items (some (literal n)) mem_deploy_end access =
      ok (push_items version (pos_part (pos mem_deploy_end +ℤ n)) ++ (mnemonic access ∷ []))
  immutable_items (some _) mem_deploy_end access =
      ok (push_items version mem_deploy_end ++ (mnemonic "ADD" ∷ mnemonic access ∷ []))

  abbrev pub unlabelled : Result (List AssemblyInstruction) → Result (List AssemblyInstruction × ℕ)
  unlabelled items = items >>= λ list. ok (list, counter)

  -- The opcodes that are not one-to-one and extend_by no label, nor an access to an immutable.
  unfoldable pub emit_special : VenomInstruction → Result (List AssemblyInstruction)
  unfolding emit_jnz emit_jmp emit_djmp topic_count
  emit_special inst =
      if in_texts inst.opcode
        ("alloca" ∷ "palloca" ∷ "calloca" ∷ "param" ∷ "assign" ∷ "dbname" ∷ "phi" ∷ "nop" ∷ [])
      then ok []
      else if str_eq inst.opcode "jnz"
      then emit_jnz inst
      else if str_eq inst.opcode "jmp"
      then emit_jmp inst
      else if str_eq inst.opcode "djmp"
      then emit_djmp inst
      else if str_eq inst.opcode "ret"
      then ok (mnemonic "JUMP" ∷ [])
      else if str_eq inst.opcode "return"
      then ok (mnemonic "RETURN" ∷ [])
      else if str_eq inst.opcode "sha3"
      then ok (mnemonic "SHA3" ∷ [])
      else if str_eq inst.opcode "sha3_64"
      then ok sha3_64_items
      else if str_eq inst.opcode "assert"
      then ok (mnemonic "ISZERO" ∷ push_label "revert" ∷ mnemonic "JUMPI" ∷ [])
      else if str_eq inst.opcode "log"
      then (topic_count inst.operands >>= λ n. ok (mnemonic (append_text "LOG" (decimal n)) ∷ []))
      else if in_texts inst.opcode ("dload" ∷ "dloadbytes" ∷ "sink" ∷ [])
      then err compiler_panic
      else err generic_exception

  unfoldable pub emit_instruction :
      Result ℕ → VenomInstruction → Result (List AssemblyInstruction × ℕ)
  unfolding emit_invoke emit_assert_unreachable immutable_items emit_special
  emit_instruction mem_deploy_end inst =
      if in_texts inst.opcode one_to_one
      then ok (mnemonic (upper inst.opcode) ∷ [], counter)
      else if str_eq inst.opcode "invoke"
      then emit_invoke inst
      else if str_eq inst.opcode "assert_unreachable"
      then ok emit_assert_unreachable
      else if str_eq inst.opcode "iload"
      then (mem_deploy_end >>= λ end.
          unlabelled (immutable_items (get_elem? inst.operands 0) end "MLOAD"))
      else if str_eq inst.opcode "istore"
      then (mem_deploy_end >>= λ end.
          unlabelled (immutable_items (get_elem? inst.operands 1) end "MSTORE"))
      else unlabelled (emit_special inst)
