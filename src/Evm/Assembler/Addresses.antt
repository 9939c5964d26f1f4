-- ===== src/Evm/Assembler/Addresses.antt =====
-- The locations in the symbol map are the offsets in the bytecode.
use Prim.Native.String.{String}
use vysvm.Evm.Assembler.Instructions.{AssemblyInstruction, label, data_header}
use vysvm.Evm.Assembler.Symbols.{SymbolMap, note_symbol, add_to_symbol_map, resolve_labels, pc_step}
use vysvm.Common.{
  ℕ, Option, ◌≡◌, some, List, ◌++◌, none, Bool-cases, ◌∷◌, ◌+◌, length, arith, inl, [], inr, ◌≢◌,
  length-append, ap, ◌∙◌,
}
use vysvm.Evm.Assembler.Core.{emit_all, emit}
use vysvm.Common.Errors.{ok, bind_succeeds}
use vysvm.Common.Dict.{get, contains, put, get-put_self, get_absent, get-put_ne}
use mathlib.Core.Path.{subst}
use vysvm.Common.Eq.{String_Eq}
use vysvm.Evm.Assembler.Sizes.{emit-HasLength}

abbrev pub defines : AssemblyInstruction → Option String
defines (label l) = some l
defines (data_header l) = some l
defines _ = none

module _ (sm : SymbolMap) (l : String) (pc : ℕ) {out : SymbolMap}
    (added : add_to_symbol_map sm l pc ≡ ok out) where
  pub get-add : get l out ≡ some pc
  unfolding add_to_symbol_map
  get-add = elim (Bool-cases (contains l sm)) [
    | inl old ↦ cc (rw old at added)
    | inr new ↦
        let e : put l pc sm ≡ out = cc (rw new at added) in
        subst (λ d. get l d ≡ some pc) e (get-put_self l pc sm)
  ]

  add-keeps : (k : String) (v : ℕ) → get k sm ≡ some v → get k out ≡ some v
  unfolding add_to_symbol_map
  add-keeps k v h = elim (Bool-cases (contains l sm)) [
    | inl old ↦ cc (rw old at added)
    | inr new ↦
        let e : put l pc sm ≡ out = cc (rw new at added) in
        let other : l ≢ k = λ same. cc (get_absent l sm new, rw (← same) at h) in
        subst (λ d. get k d ≡ some v) e (get-put_ne l k pc sm other ∙ h)
  ]

note_symbol-keeps :
    (version : ℕ) (cm sm out : SymbolMap) (pc : ℕ) (item : AssemblyInstruction) (k : String) (v : ℕ)
    → note_symbol version cm sm pc item ≡ ok out
    → get k sm ≡ some v
    → get k out ≡ some v
unfolding note_symbol
note_symbol-keeps version cm sm out pc (label l) k v h g = add-keeps sm l pc h k v g
note_symbol-keeps version cm sm out pc (data_header l) k v h g = add-keeps sm l pc h k v g
note_symbol-keeps version cm sm out pc _ k v h g =
    let e : sm ≡ out = cc h in subst (λ d. get k d ≡ some v) e g

pub note_symbol-defines :
    (version : ℕ) (cm sm out : SymbolMap) (pc : ℕ) (item : AssemblyInstruction) (l : String)
    → defines item ≡ some l
    → note_symbol version cm sm pc item ≡ ok out
    → get l out ≡ some pc
unfolding note_symbol
note_symbol-defines version cm sm out pc (label m) l d h =
    let e : m ≡ l = cc d in subst (λ k. get k out ≡ some pc) e (get-add sm m pc h)
note_symbol-defines version cm sm out pc (data_header m) l d h =
    let e : m ≡ l = cc d in subst (λ k. get k out ≡ some pc) e (get-add sm m pc h)
note_symbol-defines version cm sm out pc _ l d h = cc d

module _ (version : ℕ) (cm : SymbolMap) where
  pub resolve_labels-keeps :
      (sm : SymbolMap) (pc : ℕ) (items : List AssemblyInstruction) (out : SymbolMap) (k : String)
      (v : ℕ)
      → resolve_labels version cm sm pc items ≡ ok out
      → get k sm ≡ some v
      → get k out ≡ some v
  unfolding resolve_labels
  resolve_labels-keeps sm pc [] out k v h g = add-keeps sm "code_end" pc h k v g
  resolve_labels-keeps sm pc (x ∷ xs) out k v h g =
      let (sm', noted, rest) = bind_succeeds (note_symbol version cm sm pc x) _ h in
      let (n, counted, last) =
        bind_succeeds (pc_step version cm x) (λ n. resolve_labels version cm sm' (pc + n) xs)
          rest in
      resolve_labels-keeps sm' (pc + n) xs out k v last
        (note_symbol-keeps version cm sm sm' pc x k v noted g)

  module _ (final : SymbolMap) where
    -- A symbol stands for the number of bytes that are emitted before its definition.
    pub resolve_labels-get :
        (before : List AssemblyInstruction) (item : AssemblyInstruction)
        (after : List AssemblyInstruction) (sm : SymbolMap) (pc : ℕ) (out : SymbolMap)
        (pre : List ℕ) (l : String)
        → defines item ≡ some l
        → resolve_labels version cm sm pc (before ++ item ∷ after) ≡ ok out
        → emit_all version final cm before ≡ ok pre
        → get l out ≡ some (pc + length pre)
    unfolding resolve_labels emit_all
    resolve_labels-get [] item after sm pc out pre l d h e =
        let (sm', noted, rest) = bind_succeeds (note_symbol version cm sm pc item) _ h in
        let (n, counted, last) =
          bind_succeeds (pc_step version cm item)
            (λ n. resolve_labels version cm sm' (pc + n) after) rest in
        let none_before : length pre ≡ 0 = ground (arith, e) in
        let here : pc + length pre ≡ pc = omega arith in
        rw here (
          resolve_labels-keeps sm' (pc + n) after out l pc last
            (note_symbol-defines version cm sm sm' pc item l d noted))
    resolve_labels-get (x ∷ xs) item after sm pc out pre l d h e =
        let (sm', noted, rest) = bind_succeeds (note_symbol version cm sm pc x) _ h in
        let (n, counted, last) =
          bind_succeeds (pc_step version cm x)
            (λ n. resolve_labels version cm sm' (pc + n) (xs ++ item ∷ after)) rest in
        let (bs, emitted, others) = bind_succeeds (emit version final cm x) _ e in
        let (more, follow, joined) =
          bind_succeeds (emit_all version final cm xs) (λ more. ok (bs ++ more)) others in
        let whole : bs ++ more ≡ pre = cc joined in
        let size : pc + n + length more ≡ pc + length pre = omega (
          arith,
          emit-HasLength version final cm x n counted bs emitted,
          length-append bs more,
          ap length whole,
        ) in
        rw (← size) (resolve_labels-get xs item after sm' (pc + n) out more l d last follow)

    pub resolve_labels-code_end :
        (items : List AssemblyInstruction) (sm : SymbolMap) (pc : ℕ) (out : SymbolMap)
        (code : List ℕ)
        → resolve_labels version cm sm pc items ≡ ok out
        → emit_all version final cm items ≡ ok code
        → get "code_end" out ≡ some (pc + length code)
    unfolding resolve_labels emit_all
    resolve_labels-code_end [] sm pc out code h e =
        let nothing : length code ≡ 0 = ground (arith, e) in
        let here : pc + length code ≡ pc = omega arith in rw here (get-add sm "code_end" pc h)
    resolve_labels-code_end (x ∷ xs) sm pc out code h e =
        let (sm', noted, rest) = bind_succeeds (note_symbol version cm sm pc x) _ h in
        let (n, counted, last) =
          bind_succeeds (pc_step version cm x) (λ n. resolve_labels version cm sm' (pc + n) xs)
            rest in
        let (bs, emitted, others) = bind_succeeds (emit version final cm x) _ e in
        let (more, follow, joined) =
          bind_succeeds (emit_all version final cm xs) (λ more. ok (bs ++ more)) others in
        let whole : bs ++ more ≡ code = cc joined in
        let size : pc + n + length more ≡ pc + length code = omega (
          arith,
          emit-HasLength version final cm x n counted bs emitted,
          length-append bs more,
          ap length whole,
        ) in
        rw (← size) (resolve_labels-code_end xs sm' (pc + n) out more last follow)
