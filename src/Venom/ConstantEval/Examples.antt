-- ===== src/Venom/ConstantEval/Examples.antt =====
-- vyper/venom/passes/sccp/eval.py: the theorems at concrete literals, -7 and 2.
use vysvm.Common.{ℕ, ◌^◌, ◌-◌, ◌∷◌, [], ◌≡◌, arith}
use vysvm.Venom.ConstantEval.Words.{IsLiteral, word_of}
use vysvm.Venom.ConstantEval.Folding.{opcode_of, evm_word, op_sub, eval_arith-evm_word}
use vysvm.Venom.ConstantEval.Signed.{
  signed_opcode_of, is_negative, evm_signed, op_sdiv, eval_arith-evm_signed,
}
use vysvm.Venom.ConstantEval.{eval_arith}
use vysvm.Common.Int.{pos, negsuc}
use vysvm.Common.Errors.{ok, err, assertion_error}
use vysvm.Venom.ConstantEval.Shift.{eval_arith-arithmetic_shift}

abbrev seven : ℕ
seven = 2 ^ 256 - 7

eval_arith-evm_word_example :
    eval_arith "sub" (pos 2 ∷ negsuc 6 ∷ []) ≡ ok (pos (evm_word op_sub seven 2))
unfolding IsLiteral word_of opcode_of
eval_arith-evm_word_example =
    eval_arith-evm_word op_sub (negsuc 6) (pos 2) (omega arith) (omega arith)

eval_arith-evm_signed_example :
    eval_arith "sdiv" (pos 2 ∷ negsuc 6 ∷ []) ≡ ok (pos (evm_signed op_sdiv seven 2))
unfolding IsLiteral word_of signed_opcode_of
eval_arith-evm_signed_example =
    eval_arith-evm_signed op_sdiv (negsuc 6) (pos 2) (omega arith) (omega arith)

eval_arith-arithmetic_shift_example :
    eval_arith "sar" (negsuc 6 ∷ pos (2 ^ 255) ∷ []) ≡ err assertion_error
unfolding IsLiteral word_of is_negative
eval_arith-arithmetic_shift_example =
    eval_arith-arithmetic_shift (pos (2 ^ 255)) (negsuc 6) (omega arith) (omega arith)
