-- ===== src/Evm/Assembler/Examples.antt =====
-- The theorems on the assembler at a loop of eight bytes, and tests.
use vysvm.Common.{ℕ, List, ◌∷◌, ◌≡◌, ◌++◌, [], All, ◌<◌, length, ◌*◌, some, refl, ◌+◌, arith}
use vysvm.Evm.Assembler.Core.{assembly_to_evm, emit_all}
use vysvm.Evm.Assembler.Symbols.{SymbolMap, resolve_symbols}
use vysvm.Utils.Bytes.{bytes_to_int}
use vysvm.Evm.Assembler.Instructions.{
  AssemblyInstruction, push, push_n, label, mnemonic, num_to_bytearray, byte, push_label,
}
use vysvm.Common.Errors.{ok, err, compiler_panic, key_error}
use vysvm.Evm.Opcodes.{get_opcodes}
use vysvm.Common.Dict.{get, contains, put}
use vysvm.Evm.Assembler.Push.{bytes_to_int-push, bytes_to_int-push_n}
use vysvm.Evm.Assembler.Links.{assembly_to_evm-code_end, assembly_to_evm-push_label}
use vysvm.Common.Eq.{String_Eq}

abbrev prague : ℕ
prague = 4

-- LABEL loop, PUSH 1, PUSHLABEL loop, JUMPI, PUSHLABEL loop, JUMP
abbrev head : List AssemblyInstruction
head = label "loop" ∷ mnemonic "PUSH1" ∷ byte 1 ∷ []

abbrev tail_part : List AssemblyInstruction
tail_part = mnemonic "JUMPI" ∷ mnemonic "STOP" ∷ []

abbrev program : List AssemblyInstruction
program = head ++ push_label "loop" ∷ tail_part

abbrev bytecode : List ℕ
bytecode = 0x5b ∷ 0x60 ∷ 1 ∷ 0x61 ∷ 0 ∷ 0 ∷ 0x57 ∷ 0x00 ∷ []

assembled : assembly_to_evm prague program ≡ ok bytecode
unfolding assembly_to_evm resolve_symbols num_to_bytearray get_opcodes contains put get push_n
assembled = refl

assembly_to_evm-push_label_example :
    (sm : SymbolMap) × (cm : SymbolMap) × (pre : List ℕ) × (hi : ℕ) × (lo : ℕ) × (post : List ℕ)
    × (pre' : List ℕ) × (post' : List ℕ) × (resolve_symbols prague program ≡ ok (sm, cm))
    × (emit_all prague sm cm head ≡ ok pre)
    × (bytecode ≡ pre ++ (0x61 ∷ hi ∷ lo ∷ post))
    × (emit_all prague sm cm [] ≡ ok pre')
    × (bytecode ≡ pre' ++ 0x5b ∷ post')
    × (hi * 256 + lo ≡ length pre')
assembly_to_evm-push_label_example =
    assembly_to_evm-push_label prague bytecode head tail_part []
      (mnemonic "PUSH1" ∷ byte 1 ∷ push_label "loop" ∷ tail_part) "loop" (omega arith) refl
      assembled

assembly_to_evm-code_end_example :
    (sm : SymbolMap) × (cm : SymbolMap) × (resolve_symbols prague program ≡ ok (sm, cm))
    × (emit_all prague sm cm program ≡ ok bytecode)
    × (get "code_end" sm ≡ some 8)
assembly_to_evm-code_end_example = assembly_to_evm-code_end prague bytecode program assembled

bytes_to_int-push_example : (bytes_to_int (push 2 0) ≡ 0) × All (λ b. b < 256) (push 2 0)
bytes_to_int-push_example = bytes_to_int-push 2 0

bytes_to_int-push_n_example :
    (bs : List ℕ) × (push_n 258 2 ≡ ok bs) × (bytes_to_int bs ≡ 258) × (length bs ≡ 2)
bytes_to_int-push_n_example = bytes_to_int-push_n 258 2 (omega arith)

-- A label that is defined twice, and a symbol that is not defined.
refusals :
    (assembly_to_evm prague (label "a" ∷ label "a" ∷ []) ≡ err compiler_panic)
    × (assembly_to_evm prague (push_label "a" ∷ []) ≡ err key_error)
unfolding assembly_to_evm resolve_symbols get_opcodes contains put get
refusals = (refl, refl)
