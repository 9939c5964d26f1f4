-- ===== src/Evm/Optimizer/Pruning.antt =====
-- vyper/evm/assembler/optimizer.py: what `_prune_unused_jumpdests` removes, nothing refers to.
-- The assembler of vyper/evm/assembler/core.py is the judge of that.
use Prim.Native.String.{String}
use vysvm.Common.{
  or_left, or_right, ℕ, List, All, ◌∷◌, [], ◌≡◌, ◌≢◌, true, false, not, refl, ◌∙◌, Bool,
}
use vysvm.Common.Errors.{ok, err, key_error, unless, assertion_error, bind_succeeds}
use vysvm.Common.Dict.{get}
use vysvm.Common.Eq.{String_Eq}
use vysvm.Evm.Assembler.Instructions.{AssemblyInstruction}
use vysvm.Evm.Assembler.Symbols.{
  SymbolMap, resolve_consts, resolve_labels, resolve_symbols, begins_with_jump,
}
use vysvm.Evm.Assembler.Core.{emit_all, assembly_to_evm}
use vysvm.Evm.Assembler.Links.{resolve_symbols-parts}
use vysvm.Evm.Optimizer.Jumps.{Assembly, uses, used_in, remove_unused, prune_unused_jumpdests}
use vysvm.Evm.Optimizer.PruningSymbols.{
  resolve_labels-defined, resolve_labels-has, remove_unused-defined, remove_unused-All,
}
use vysvm.Evm.Optimizer.Lookups.{
  Finds, Finds->>=, Counted, Emitted, Resolved, resolve_consts-remove_unused,
  resolve_labels-Counted, resolve_labels-Finds, emit_all-Emitted, Emitted-Resolved, emit_all-Finds,
}

Used : Assembly → AssemblyInstruction → Type 0
Used whole item = (l : String) → uses l item ≡ true → used_in l whole ≡ true

-- What an instruction of the assembly uses, the assembly does.
All-Used :
    (whole items : Assembly)
    → ((l : String) → used_in l items ≡ true → used_in l whole ≡ true)
    → All (Used whole) items
unfolding used_in Used
All-Used whole [] h = tt
All-Used whole (x ∷ xs) h = (
  λ l u. h l (or_left (uses l x) (used_in l xs) u),
  All-Used whole xs (λ l u. h l (or_right (uses l x) (used_in l xs) u)),
)

All-both {κ ν} :
    {P : AssemblyInstruction → Type κ} {Q : AssemblyInstruction → Type ν}
    (R : AssemblyInstruction → Type 0) (items : Assembly)
    → ((item : AssemblyInstruction) → P item → Q item → R item)
    → All P items
    → All Q items
    → All R items
All-both R [] f a b = tt
All-both R (x ∷ xs) f a b = (f x a.0 b.0, All-both R xs f a.1 b.1)

unless-Finds : (b : Bool) → Finds (unless assertion_error b)
unless-Finds true = λ q. cc
unless-Finds false = λ q. cc

module _ (version : ℕ) (items : Assembly) (cm : SymbolMap) where
  resolve_symbols-Finds :
      resolve_consts [] items ≡ ok cm
      → All (Counted version cm) items
      → Finds (resolve_symbols version items)
  unfolding resolve_symbols
  resolve_symbols-Finds h a =
      Finds->>= (resolve_consts [] items) _ (λ q. cc (h, q))
        (λ cm' e.
          let same : cm ≡ cm' = cc (h, e) in
          Finds->>= (unless assertion_error (not (begins_with_jump items))) _
            (unless-Finds (not (begins_with_jump items)))
            (λ u passed.
              Finds->>= (resolve_labels version cm' [] 0 items) _
                (rw (← same) (resolve_labels-Finds version cm [] 0 items a)) (λ sm f q. cc)))

module _ (version : ℕ) (assembly : Assembly) (cm sm sm' : SymbolMap)
    (labels : resolve_labels version cm [] 0 assembly ≡ ok sm)
    (labels' : resolve_labels version cm [] 0 (remove_unused assembly assembly).0 ≡ ok sm') where
  -- What an instruction refers to is in the symbol map of what is left.
  Resolved-left :
      (item : AssemblyInstruction)
      → Emitted version cm sm item
      → Used assembly item
      → Emitted version cm sm item × Resolved version cm sm' item
  unfolding Resolved Used get
  Resolved-left item e used = (
    e,
    λ l u.
        let (v, g) = Emitted-Resolved version cm sm item e l u in
        resolve_labels-has version cm l [] 0 (remove_unused assembly assembly).0 sm' labels' (
          remove_unused-defined assembly assembly l (used l u)
            (resolve_labels-defined version cm l [] 0 assembly sm v labels refl g)),
  )

  left-Finds :
      (code : List ℕ)
      → emit_all version sm cm assembly ≡ ok code
      → Finds (emit_all version sm' cm (remove_unused assembly assembly).0)
  left-Finds code emitted = emit_all-Finds version cm sm sm' (remove_unused assembly assembly).0 (
      remove_unused-All (λ item. Emitted version cm sm item × Resolved version cm sm' item) assembly
        assembly
        (All-both _ assembly Resolved-left (emit_all-Emitted version cm sm assembly code emitted)
          (All-Used assembly assembly (λ l u. u))))

-- Where the assembler makes bytecode of an assembly, it never fails for a symbol or a constant that
-- is missing on what prune_unused_jumpdests leaves of that assembly.
pub prune_unused_jumpdests-assembly_to_evm :
    (version : ℕ) (assembly : Assembly) (code : List ℕ)
    → assembly_to_evm version assembly ≡ ok code
    → assembly_to_evm version (prune_unused_jumpdests assembly).0 ≢ err key_error
unfolding prune_unused_jumpdests assembly_to_evm
prune_unused_jumpdests-assembly_to_evm version assembly code h =
    let ((sm, cm), resolved, emitted) = bind_succeeds (resolve_symbols version assembly) _ h in
    let (consts, labels) = resolve_symbols-parts version assembly sm cm resolved in
    let left = (remove_unused assembly assembly).0 in
    let consts' : resolve_consts [] left ≡ ok cm =
      resolve_consts-remove_unused assembly assembly [] ∙ consts in
    Finds->>= (resolve_symbols version left) _
      (resolve_symbols-Finds version left cm consts' (
        remove_unused-All (Counted version cm) assembly assembly
          (resolve_labels-Counted version cm [] 0 assembly sm labels)))
      (λ maps e.
        let (consts'', labels'') = resolve_symbols-parts version left maps.0 maps.1 e in
        let same : cm ≡ maps.1 = cc (consts', consts'') in
        rw (← same)
          (left-Finds version assembly cm sm maps.0 labels (rw (← same) at labels'') code emitted))
