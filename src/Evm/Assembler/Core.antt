-- ===== src/Evm/Assembler/Core.antt =====
-- vyper/evm/assembler/core.py: the emission of bytecode.
use Prim.Native.String.{String, slice, len}
use vysvm.Common.{
  ℕ, if◌then◌else◌, Option, List, ltb, ◌+◌, ◌∷◌, length, [], some, none, ◌++◌, ◌^◌, ◌/◌, ◌%◌,
}
use vysvm.Common.Int.{ℤ, pos, ◌+ℤ◌}
use vysvm.Common.Errors.{
  Result, ok, err, value_error, assertion_error, key_error, overflow_error, ◌>>=◌,
}
use vysvm.Evm.Assembler.Symbols.{SymbolMap, resolve_symbols, symbol_size, lookup_symbol}
use vysvm.Common.Dict.{get}
use vysvm.Evm.Assembler.Instructions.{
  DataItem, AssemblyInstruction, push_label, data_bytes, mnemonic, data_label, const, data_header,
  push_n_int, label, push_ofst, code_label, const_ref, push_int, byte, data_item,
}
use vysvm.Evm.Opcodes.{get_opcodes}
use vysvm.Common.Eq.{str_eq, String_Eq}
use text.Mathlib.Text.{starts_with}
use vysvm.Common.Text.{int_of, upper}

abbrev pub push_offset : ℕ
push_offset = 0x5f

abbrev pub dup_offset : ℕ
dup_offset = 0x7f

abbrev pub swap_offset : ℕ
swap_offset = 0x8f

-- `bytearray.append`
unfoldable pub append_byte : ℕ → Result (List ℕ)
append_byte b = if ltb b 256 then ok (b ∷ []) else err value_error

-- A mnemonic that is not in the table.
pub emit_numbered : String → Result (List ℕ)
unfolding int_of append_byte
emit_numbered s =
    if starts_with s "PUSH"
    then (do n ← int_of (slice s 4 (len s)); append_byte (push_offset + n))
    else if starts_with s "DUP"
    then (do n ← int_of (slice s 3 (len s)); append_byte (dup_offset + n))
    else if starts_with s "SWAP"
    then (do n ← int_of (slice s 4 (len s)); append_byte (swap_offset + n))
    else err value_error

unfoldable pub emit_opcode : Option ℕ → Result (List ℕ)
unfolding append_byte
emit_opcode none = err assertion_error
emit_opcode (some opcode) = append_byte opcode

-- `_compile_push_instruction`, from the immediate bytes.
unfoldable pub compile_push_instruction : List ℕ → List ℕ
compile_push_instruction bs = (push_offset + length bs) ∷ bs

unfoldable pub push_symbol : ℤ → Result (List ℕ)
unfolding compile_push_instruction push_n_int
push_symbol value = do bs ← push_n_int value symbol_size; ok (compile_push_instruction bs)

-- `.to_bytes(SYMBOL_SIZE, "big")`
unfoldable pub symbol_bytes : ℕ → Result (List ℕ)
symbol_bytes value =
    if ltb value (256 ^ symbol_size)
    then ok (value / 256 ∷ value % 256 ∷ [])
    else err overflow_error

unfoldable pub emit_jumpdest : ℕ → Result (List ℕ)
unfolding emit_opcode
emit_jumpdest version = elim (get "JUMPDEST" (get_opcodes version)) [
  | none ↦ err key_error
  | some v ↦ emit_opcode v.opcode
]

module _ (version : ℕ) (symbol_map const_map : SymbolMap) where
  -- `_compile_data_item`
  unfoldable pub compile_data_item : DataItem → Result (List ℕ)
  unfolding lookup_symbol symbol_bytes
  compile_data_item (data_bytes bs) = ok bs
  compile_data_item (data_label l) = do value ← lookup_symbol symbol_map l; symbol_bytes value

  -- What one instruction appends.
  unfoldable pub emit : AssemblyInstruction → Result (List ℕ)
  unfolding lookup_symbol push_symbol compile_push_instruction append_byte emit_opcode emit_numbered
      emit_jumpdest compile_data_item upper
  emit (mnemonic s) =
      if str_eq s "DEBUG" then ok [] else elim (get (upper s) (get_opcodes version)) [
        | none ↦ emit_numbered s
        | some v ↦ emit_opcode v.opcode
      ]
  emit (const name value) = ok []
  emit (data_header l) = ok []
  emit (push_label l) = do value ← lookup_symbol symbol_map l; push_symbol (pos value)
  emit (label l) = emit_jumpdest version
  emit (push_ofst (code_label l) ofst) = do
    value ← lookup_symbol symbol_map l
    push_symbol (pos value +ℤ ofst)
  emit (push_ofst (const_ref c) ofst) = do
    value ← lookup_symbol const_map c
    ok (compile_push_instruction (push_int version (pos value +ℤ ofst)))
  emit (byte b) = append_byte b
  emit (data_item item) = compile_data_item item

  -- `_assembly_to_evm`
  unfoldable pub emit_all : List AssemblyInstruction → Result (List ℕ)
  unfolding emit
  emit_all [] = ok []
  emit_all (item ∷ rest) = do bs ← emit item; more ← emit_all rest; ok (bs ++ more)

-- The bytecode of an assembly.
unfoldable pub assembly_to_evm : ℕ → List AssemblyInstruction → Result (List ℕ)
unfolding emit_all
assembly_to_evm version assembly = do
  maps ← resolve_symbols version assembly
  emit_all version maps.0 maps.1 assembly
