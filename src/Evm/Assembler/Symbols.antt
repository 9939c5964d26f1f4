-- ===== src/Evm/Assembler/Symbols.antt =====
-- vyper/evm/assembler/symbols.py: the code location of each label and the value of each constant.
-- The source map, a second output that no code location depends on, is not modelled.
use Prim.Native.String.{String}
use vysvm.Common.{ℕ, List, if◌then◌else◌, ◌∷◌, ltb, ◌+◌, [], none, some, length, Bool, false, not}
use vysvm.Common.Dict.{Dict, contains, put, get}
use vysvm.Common.Errors.{
  Result, ok, err, assertion_error, compiler_panic, ◌>>=◌, key_error, ◌>>◌, unless,
}
use vysvm.Evm.Assembler.Instructions.{
  AssemblyInstruction, mnemonic, label, const, data_header, byte, push_label, push_ofst, code_label,
  const_ref, calc_push_size, data_item, data_bytes, data_label,
}
use vysvm.Evm.Opcodes.{get_opcodes}
use vysvm.Common.Int.{pos, ◌+ℤ◌}
use vysvm.Common.Eq.{str_eq, String_Eq}

abbrev pub symbol_size : ℕ
symbol_size = 2

abbrev pub SymbolMap : Type 0
SymbolMap = Dict String ℕ

-- `_add_to_symbol_map`
unfoldable pub add_to_symbol_map : SymbolMap → String → ℕ → Result SymbolMap
add_to_symbol_map symbol_map item value =
    if contains item symbol_map then err compiler_panic else ok (put item value symbol_map)

-- `symbol_map[label]`
unfoldable pub lookup_symbol : SymbolMap → String → Result ℕ
lookup_symbol map name = elim (get name map) [ none ↦ err key_error | some value ↦ ok value ]

-- The first loop of `resolve_symbols`.
unfoldable pub resolve_consts : SymbolMap → List AssemblyInstruction → Result SymbolMap
unfolding add_to_symbol_map
resolve_consts const_map [] = ok const_map
resolve_consts const_map (const name value ∷ rest) = do
  const_map' ← add_to_symbol_map const_map name value
  resolve_consts const_map' rest
resolve_consts const_map (_ ∷ rest) = resolve_consts const_map rest

module _ (version : ℕ) (const_map : SymbolMap) where
  -- By how much an instruction moves the program counter.
  unfoldable pub pc_step : AssemblyInstruction → Result ℕ
  pc_step (mnemonic s) =
      if str_eq s "DEBUG"
      then ok 0
      else if contains s (get_opcodes version)
      then ok 1
      else err assertion_error
  pc_step (byte b) = if ltb b 256 then ok 1 else err assertion_error
  pc_step (push_label l) = ok (symbol_size + 1)
  pc_step (label l) = ok 1
  pc_step (push_ofst (code_label l) ofst) = ok (symbol_size + 1)
  pc_step (push_ofst (const_ref c) ofst) = do
    value ← lookup_symbol const_map c
    ok (calc_push_size version (pos value +ℤ ofst))
  pc_step (data_item (data_bytes bs)) = ok (length bs)
  pc_step (data_item (data_label l)) = ok symbol_size
  pc_step (data_header l) = ok 0
  pc_step (const name value) = ok 0

  -- What an instruction adds to the symbol map.
  unfoldable pub note_symbol : SymbolMap → ℕ → AssemblyInstruction → Result SymbolMap
  unfolding add_to_symbol_map
  note_symbol symbol_map pc (label l) = add_to_symbol_map symbol_map l pc
  note_symbol symbol_map pc (data_header l) = add_to_symbol_map symbol_map l pc
  note_symbol symbol_map pc _ = ok symbol_map

  -- The second loop of `resolve_symbols`, and the label `code_end`.
  unfoldable pub resolve_labels : SymbolMap → ℕ → List AssemblyInstruction → Result SymbolMap
  unfolding pc_step note_symbol
  resolve_labels symbol_map pc [] = add_to_symbol_map symbol_map "code_end" pc
  resolve_labels symbol_map pc (item ∷ rest) = do
    symbol_map' ← note_symbol symbol_map pc item
    n ← pc_step item
    resolve_labels symbol_map' (pc + n) rest

-- A `JUMP` has an instruction before it.
pub begins_with_jump : List AssemblyInstruction → Bool
begins_with_jump (mnemonic s ∷ _) = str_eq s "JUMP"
begins_with_jump _ = false

-- The symbol map and the map of constants.
unfoldable pub resolve_symbols : ℕ → List AssemblyInstruction → Result (SymbolMap × SymbolMap)
unfolding resolve_consts resolve_labels begins_with_jump
resolve_symbols version assembly = do
  const_map ← resolve_consts [] assembly
  unless assertion_error (not (begins_with_jump assembly))
  symbol_map ← resolve_labels version const_map [] 0 assembly
  ok (symbol_map, const_map)
