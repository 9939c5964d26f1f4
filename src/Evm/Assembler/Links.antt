-- ===== src/Evm/Assembler/Links.antt =====
-- What a `PUSHLABEL` in the bytecode pushes.
use vysvm.Common.{
  ℕ, List, get_elem?, ◌≡◌, ◌++◌, length, ◌∷◌, ◌/◌, ◌%◌, [], ◌<◌, ◌*◌, refl, arith, ◌+◌, sym, ◌∙◌,
  ap, not, some,
}
use vysvm.Evm.Assembler.Instructions.{
  push_n, push_n_int, push_n_loop, AssemblyInstruction, label, push_label,
}
use vysvm.Evm.Assembler.Core.{
  push_symbol, compile_push_instruction, emit_all, emit, assembly_to_evm, emit_opcode, append_byte,
  emit_jumpdest,
}
use vysvm.Evm.Assembler.Symbols.{
  SymbolMap, symbol_size, resolve_symbols, resolve_labels, resolve_consts, begins_with_jump,
  lookup_symbol,
}
use vysvm.Common.Errors.{ok, bind_succeeds, unless, assertion_error, ◌>>=◌, Result}
use mathlib.Core.List.{append_assoc}
use mathlib.Core.Path.{subst}
use Prim.Native.String.{String}
use vysvm.Common.Dict.{get}
use vysvm.Common.Int.{pos}
use vysvm.Evm.Opcodes.Bytes.{jumpdest_opcode}
use vysvm.Common.Eq.{String_Eq}
use vysvm.Evm.Assembler.Addresses.{resolve_labels-get, resolve_labels-code_end}

regroup :
    (bs more pre post code : List ℕ)
    → bs ++ more ≡ code
    → more ≡ pre ++ post
    → code ≡ (bs ++ pre) ++ post
regroup bs more pre post code whole same =
    sym whole ∙ ap (λ (t : List ℕ). bs ++ t) same ∙ sym (append_assoc bs pre post)

module _ (version : ℕ) (sm cm : SymbolMap) where
  emit_all-append :
      (xs ys : List AssemblyInstruction) (code : List ℕ)
      → emit_all version sm cm (xs ++ ys) ≡ ok code
      → (pre : List ℕ) × (post : List ℕ) × (emit_all version sm cm xs ≡ ok pre)
        × (emit_all version sm cm ys ≡ ok post)
        × (code ≡ pre ++ post)
  unfolding emit_all
  emit_all-append [] ys code h = ([], code, refl, h, refl)
  emit_all-append (x ∷ xs) ys code h =
      let (bs, emitted, others) = bind_succeeds (emit version sm cm x) _ h in
      let (more, follow, joined) =
        bind_succeeds (emit_all version sm cm (xs ++ ys)) (λ more. ok (bs ++ more)) others in
      let (pre, post, left, right, same) = emit_all-append xs ys more follow in
      (bs ++ pre, post, rw (emitted, left), right, regroup bs more pre post code (cc joined) same)

  -- The bytes of one instruction, with those before and after it.
  emit_all-split :
      (before : List AssemblyInstruction) (item : AssemblyInstruction)
      (after : List AssemblyInstruction) (code : List ℕ)
      → emit_all version sm cm (before ++ item ∷ after) ≡ ok code
      → (pre : List ℕ) × (bs : List ℕ) × (post : List ℕ) × (emit_all version sm cm before ≡ ok pre)
        × (emit version sm cm item ≡ ok bs)
        × (code ≡ pre ++ (bs ++ post))
  unfolding emit_all
  emit_all-split before item after code h =
      let (pre, rest, left, right, same) = emit_all-append before (item ∷ after) code h in
      let (bs, emitted, others) = bind_succeeds (emit version sm cm item) _ right in
      let (post, follow, joined) =
        bind_succeeds (emit_all version sm cm after) (λ more. ok (bs ++ more)) others in
      let whole : bs ++ post ≡ rest = cc joined in
      (pre, bs, post, left, emitted, same ∙ ap (λ (t : List ℕ). pre ++ t) (sym whole))

push_n_two :
    (x : ℕ) (o : List ℕ) → push_n x 2 ≡ ok o → (o ≡ x / 256 % 256 ∷ x % 256 ∷ []) × (x < 65536)
unfolding push_n push_n_loop
push_n_two x o h = ground arith

push_symbol_bytes :
    (x : ℕ) (bs : List ℕ)
    → push_symbol (pos x) ≡ ok bs
    → (hi : ℕ) × (lo : ℕ) × (bs ≡ 0x61 ∷ hi ∷ lo ∷ []) × (hi * 256 + lo ≡ x)
unfolding push_symbol compile_push_instruction push_n_int
push_symbol_bytes x bs h =
    let (o, e, f) = bind_succeeds (push_n x symbol_size) (λ o. ok (compile_push_instruction o)) h in
    let (same, small) = push_n_two x o e in
    let whole : compile_push_instruction o ≡ bs = cc f in
    (x / 256 % 256, x % 256, sym whole ∙ ap compile_push_instruction same, omega arith)

get_elem?-append : (xs ys : List ℕ) → get_elem? (xs ++ ys) (length xs) ≡ get_elem? ys 0
get_elem?-append [] ys = refl
get_elem?-append (x ∷ xs) ys = get_elem?-append xs ys

module _ (version : ℕ) (sm cm : SymbolMap) (l : String) where
  emit_label_bytes :
      version < 5 → (bs : List ℕ) → emit version sm cm (label l) ≡ ok bs → bs ≡ 0x5b ∷ []
  unfolding emit emit_opcode append_byte
  emit_label_bytes known bs h =
      let (v, found, opcode) = jumpdest_opcode version known in
      let here = rw (found, emit_jumpdest) at h in
      let byte : ◌≡◌ {A = Result (List ℕ)} (ok (0x5b ∷ [])) (ok bs) = rw opcode at here in cc

  emit_push_label_bytes :
      (pc : ℕ) (bs : List ℕ)
      → get l sm ≡ some pc
      → emit version sm cm (push_label l) ≡ ok bs
      → (hi : ℕ) × (lo : ℕ) × (bs ≡ 0x61 ∷ hi ∷ lo ∷ []) × (hi * 256 + lo ≡ pc)
  unfolding emit
  emit_push_label_bytes pc bs found h =
      let (v, e, f) = bind_succeeds (lookup_symbol sm l) (λ v. push_symbol (pos v)) h in
      let value_of : ◌≡◌ {A = Result ℕ} (ok pc) (ok v) = rw (found, lookup_symbol) at e in
      let same : v ≡ pc = cc in
      let (hi, lo, pushed, value) = push_symbol_bytes v bs f in (hi, lo, pushed, value ∙ same)

-- The two loops of resolve_symbols.
pub resolve_symbols-parts :
    (version : ℕ) (items : List AssemblyInstruction) (sm cm : SymbolMap)
    → resolve_symbols version items ≡ ok (sm, cm)
    → (resolve_consts [] items ≡ ok cm) × (resolve_labels version cm [] 0 items ≡ ok sm)
unfolding resolve_symbols
resolve_symbols-parts version items sm cm h =
    let (cm', consts, more) = bind_succeeds (resolve_consts [] items) _ h in
    let (u, passed, others) =
      bind_succeeds (unless assertion_error (not (begins_with_jump items)))
        (λ _. resolve_labels version cm' [] 0 items >>= λ sm. ok (sm, cm')) more in
    let (sm', labels, pair) =
      bind_succeeds (resolve_labels version cm' [] 0 items) (λ sm. ok (sm, cm')) others in
    let same_sm : sm' ≡ sm = cc pair in
    let same_cm : cm' ≡ cm = cc pair in (rw same_cm at consts, rw (same_sm, same_cm) at labels)

module _ (version : ℕ) (code : List ℕ) where
  -- The maps that the bytecode was made with.
  assembly_to_evm-maps :
      (items : List AssemblyInstruction)
      → assembly_to_evm version items ≡ ok code
      → (sm : SymbolMap) × (cm : SymbolMap) × (resolve_symbols version items ≡ ok (sm, cm))
        × (resolve_labels version cm [] 0 items ≡ ok sm)
        × (emit_all version sm cm items ≡ ok code)
  unfolding assembly_to_evm
  assembly_to_evm-maps items h =
      let ((sm, cm), resolved, emitted) = bind_succeeds (resolve_symbols version items) _ h in
      (sm, cm, resolved, (resolve_symbols-parts version items sm cm resolved).1, emitted)

  -- The byte at the location of a label is a `JUMPDEST`.
  label_byte :
      (sm cm : SymbolMap) (before after : List AssemblyInstruction) (l : String)
      → version < 5
      → resolve_labels version cm [] 0 (before ++ label l ∷ after) ≡ ok sm
      → emit_all version sm cm (before ++ label l ∷ after) ≡ ok code
      → (pre : List ℕ) × (post : List ℕ) × (emit_all version sm cm before ≡ ok pre)
        × (code ≡ pre ++ 0x5b ∷ post)
        × (get l sm ≡ some (length pre))
  label_byte sm cm before after l known labels emitted =
      let (pre, bs, post, left, here, whole) =
        emit_all-split version sm cm before (label l) after code emitted in
      let found =
        resolve_labels-get version cm sm before (label l) after [] 0 sm pre l refl labels left in
      let at_pre : 0 + length pre ≡ length pre = omega arith in
      let jumpdest : bs ≡ 0x5b ∷ [] = emit_label_bytes version sm cm l known bs here in
      (pre, post, left, subst (λ b. code ≡ pre ++ (b ++ post)) jumpdest whole, rw at_pre at found)

  -- In bytecode that the assembler returns, each `PUSHLABEL` of a label that the assembly has as a
  -- jump destination has become, behind the bytes of the instructions before it, a `PUSH2` of the
  -- number of bytes that are emitted for the instructions before that destination, and a
  -- `JUMPDEST` stands there. The bytes are those under the maps of resolve_symbols.
  pub assembly_to_evm-push_label :
      (before after before' after' : List AssemblyInstruction) (l : String)
      → version < 5
      → before ++ push_label l ∷ after ≡ before' ++ label l ∷ after'
      → assembly_to_evm version (before ++ push_label l ∷ after) ≡ ok code
      → (sm : SymbolMap) × (cm : SymbolMap) × (pre : List ℕ) × (hi : ℕ) × (lo : ℕ) × (post : List ℕ)
        × (pre' : List ℕ) × (post' : List ℕ) × (resolve_symbols version
              (before ++ push_label l ∷ after)
            ≡ ok (sm, cm))
        × (emit_all version sm cm before ≡ ok pre)
        × (code ≡ pre ++ (0x61 ∷ hi ∷ lo ∷ post))
        × (emit_all version sm cm before' ≡ ok pre')
        × (code ≡ pre' ++ 0x5b ∷ post')
        × (hi * 256 + lo ≡ length pre')
  assembly_to_evm-push_label before after before' after' l known same h =
      let (sm, cm, resolved, labels, emitted) =
        assembly_to_evm-maps (before ++ push_label l ∷ after) h in
      let (pre', post', left', whole', found) =
        label_byte sm cm before' after' l known
          (subst (λ is. resolve_labels version cm [] 0 is ≡ ok sm) same labels)
          (subst (λ is. emit_all version sm cm is ≡ ok code) same emitted) in
      let (pre, bs, post, left, here, whole) =
        emit_all-split version sm cm before (push_label l) after code emitted in
      let (hi, lo, pushed, value) =
        emit_push_label_bytes version sm cm l (length pre') bs found here in
      (
        sm,
        cm,
        pre,
        hi,
        lo,
        post,
        pre',
        post',
        resolved,
        left,
        subst (λ b. code ≡ pre ++ (b ++ post)) pushed whole,
        left',
        whole',
        value,
      )

  -- The symbol map of resolve_symbols, under which the bytecode is emitted, has the length of the
  -- bytecode for code_end.
  pub assembly_to_evm-code_end :
      (items : List AssemblyInstruction)
      → assembly_to_evm version items ≡ ok code
      → (sm : SymbolMap) × (cm : SymbolMap) × (resolve_symbols version items ≡ ok (sm, cm))
        × (emit_all version sm cm items ≡ ok code)
        × (get "code_end" sm ≡ some (length code))
  assembly_to_evm-code_end items h =
      let (sm, cm, resolved, labels, emitted) = assembly_to_evm-maps items h in
      let found = resolve_labels-code_end version cm sm items [] 0 sm code labels emitted in
      let at_end : 0 + length code ≡ length code = omega arith in
      (sm, cm, resolved, emitted, rw at_end at found)
