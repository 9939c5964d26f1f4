-- ===== src/Evm/Assembler/Sizes.antt =====
-- An instruction appends as many bytes as `resolve_symbols` counts for it.
use Prim.Native.String.{String}
use vysvm.Common.{
  ℕ, List, arith, Option, ◌≡◌, length, [], some, ◌+◌, true, none, suc, ◌/◌, ◌%◌, false, ◌∷◌, zero,
  Option-cases, Bool-cases, inl, inr, refl,
}
use vysvm.Evm.Assembler.Core.{
  append_byte, push_symbol, symbol_bytes, emit_opcode, compile_push_instruction, emit,
  compile_data_item, emit_jumpdest,
}
use vysvm.Evm.Assembler.Instructions.{
  push_n_loop, push_n, push_n_int, push_int, AssemblyInstruction, mnemonic, byte, push_label, label,
  push_ofst, code_label, const_ref, data_item, calc_push_size, data_bytes, data_label, data_header,
  const,
}
use vysvm.Common.Errors.{Result, bind_succeeds, ok}
use vysvm.Evm.Assembler.Symbols.{SymbolMap, pc_step, symbol_size, lookup_symbol}
use vysvm.Common.Int.{ℤ, pos, negsuc, ◌+ℤ◌}
use vysvm.Common.Dict.{contains, contains-get, get}
use vysvm.Evm.Opcodes.{get_opcodes}
use vysvm.Common.Eq.{str_eq, String_Eq}
use vysvm.Evm.Opcodes.Bytes.{get_opcodes-IsKnown}

-- The result, if there is one, has `n` bytes.
abbrev pub HasLength : ℕ → Result (List ℕ) → Type 0
HasLength n r = (bs : List ℕ) → r ≡ ok bs → length bs ≡ n

append_byte-HasLength : (b : ℕ) → HasLength 1 (append_byte b)
unfolding append_byte
append_byte-HasLength b bs h = ground arith

pub length-push_n_loop : (n x : ℕ) (o : List ℕ) → length (push_n_loop n x o).0 ≡ n + length o
unfolding push_n_loop
length-push_n_loop zero x o = omega arith
length-push_n_loop (suc n) x o = omega (arith, length-push_n_loop n (x / 256) (x % 256 ∷ o))

push_n-HasLength : (x n : ℕ) → HasLength n (push_n x n)
unfolding push_n
push_n-HasLength x n bs h = ground (arith, length-push_n_loop n x [])

push_symbol-HasLength : (x : ℤ) → HasLength 3 (push_symbol x)
unfolding push_symbol compile_push_instruction push_n_int
push_symbol-HasLength (pos x) bs h =
    let (im, e, f) = bind_succeeds (push_n x symbol_size) _ h in
    ground (arith, push_n-HasLength x 2 im)
push_symbol-HasLength (negsuc x) bs h = cc

symbol_bytes-HasLength : (x : ℕ) → HasLength 2 (symbol_bytes x)
unfolding symbol_bytes
symbol_bytes-HasLength x bs h = ground arith

emit_opcode-HasLength : (o : Option ℕ) → HasLength 1 (emit_opcode o)
unfolding emit_opcode
emit_opcode-HasLength none bs h = cc
emit_opcode-HasLength (some c) bs h = append_byte-HasLength c bs h

emit_jumpdest-HasLength : (version : ℕ) → HasLength 1 (emit_jumpdest version)
unfolding emit_jumpdest
emit_jumpdest-HasLength version bs h = elim (Option-cases (get "JUMPDEST" (get_opcodes version))) [
  | inl gone ↦ cc (rw (gone, emit_jumpdest) at h)
  | inr (v, found) ↦ emit_opcode-HasLength v.opcode bs (rw (found, emit_jumpdest) at h)
]

module _ (version : ℕ) (symbol_map const_map : SymbolMap) where
  mnemonic-HasLength :
      (s : String)
      → contains s (get_opcodes version) ≡ true
      → str_eq s "DEBUG" ≡ false
      → HasLength 1 (emit version symbol_map const_map (mnemonic s))
  unfolding emit
  mnemonic-HasLength s known other bs h =
      let (v, found) = contains-get s (get_opcodes version) known in
      let up = (get_opcodes-IsKnown version s v found).is_upper in
      emit_opcode-HasLength v.opcode bs (rw (other, up, found) at h)

  const_ref-HasLength :
      (c : String) (ofst : ℤ) (n : ℕ)
      → pc_step version const_map (push_ofst (const_ref c) ofst) ≡ ok n
      → HasLength n (emit version symbol_map const_map (push_ofst (const_ref c) ofst))
  unfolding pc_step emit calc_push_size compile_push_instruction
  const_ref-HasLength c ofst n count bs h =
      let (v, e, f) =
        bind_succeeds (lookup_symbol const_map c) (λ v. ok (calc_push_size version (pos v +ℤ ofst)))
          count in
      let (w, e', f') =
        bind_succeeds (lookup_symbol const_map c)
          (λ w. ok (compile_push_instruction (push_int version (pos w +ℤ ofst)))) h in
      let same : v ≡ w = cc (e, e') in ground (arith, f, f', same)

  mnemonic_count :
      (s : String) (n : ℕ)
      → pc_step version const_map (mnemonic s) ≡ ok n
      → HasLength n (emit version symbol_map const_map (mnemonic s))
  unfolding pc_step
  mnemonic_count s n count bs h = elim (Bool-cases (str_eq s "DEBUG")) [
    | inl debug ↦
        let none_counted : n ≡ 0 = cc (rw debug at count) in
        let nothing : bs ≡ [] = unfold emit in cc (rw debug at h) in rw (none_counted, nothing) refl
    | inr other ↦ elim (Bool-cases (contains s (get_opcodes version))) [
      | inl known ↦
          let one : n ≡ 1 = ground (arith, rw (other, known) at count) in
          rw one (mnemonic-HasLength s known other bs h)
      | inr unknown ↦ cc (rw (other, unknown) at count)
    ]
  ]

  -- Where `resolve_symbols` counts `n` bytes for an instruction, its emission has `n` bytes.
  pub emit-HasLength :
      (item : AssemblyInstruction) (n : ℕ)
      → pc_step version const_map item ≡ ok n
      → HasLength n (emit version symbol_map const_map item)
  unfolding pc_step emit
  emit-HasLength (mnemonic s) n count bs h = mnemonic_count s n count bs h
  emit-HasLength (byte b) n count bs h = ground (arith, append_byte-HasLength b bs)
  emit-HasLength (push_label l) n count bs h =
      let (v, e, f) = bind_succeeds (lookup_symbol symbol_map l) (λ v. push_symbol (pos v)) h in
      ground (arith, push_symbol-HasLength (pos v) bs)
  emit-HasLength (label l) n count bs h = ground (arith, emit_jumpdest-HasLength version bs)
  emit-HasLength (push_ofst (code_label l) ofst) n count bs h =
      let (v, e, f) =
        bind_succeeds (lookup_symbol symbol_map l) (λ v. push_symbol (pos v +ℤ ofst)) h in
      ground (arith, push_symbol-HasLength (pos v +ℤ ofst) bs)
  emit-HasLength (push_ofst (const_ref c) ofst) n count bs h =
      const_ref-HasLength c ofst n count bs h
  emit-HasLength (data_item (data_bytes d)) n count bs h = unfold compile_data_item in ground arith
  emit-HasLength (data_item (data_label l)) n count bs h =
      let (v, e, f) = bind_succeeds (lookup_symbol symbol_map l) symbol_bytes h in
      ground (arith, symbol_bytes-HasLength v bs)
  emit-HasLength (data_header l) n count bs h = ground arith
  emit-HasLength (const name value) n count bs h = ground arith
