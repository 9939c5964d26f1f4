-- ===== src/Evm/Optimizer/PruningSymbols.antt =====
-- vyper/evm/assembler/optimizer.py and symbols.py: the symbols that an assembly defines, and those
-- that are left after `_prune_unused_jumpdests`.
use Prim.Native.String.{String}
use mathlib.Core.Path.{subst}
use vysvm.Common.{
  ℕ, Bool, All, ◌∷◌, [], ◌≡◌, ◌≢◌, none, some, true, false, Bool-cases, inl, inr, refl, ◌+◌, ◌||◌,
  ◌∙◌,
}
use vysvm.Common.Dict.{get, contains, put, get-put_ne}
use vysvm.Common.Eq.{str_eq, String_Eq}
use vysvm.Common.Errors.{ok, bind_succeeds}
use vysvm.Evm.Assembler.Instructions.{
  AssemblyInstruction, label, data_header, mnemonic, byte, push_label, push_ofst, data_item, const,
}
use vysvm.Evm.Assembler.Symbols.{SymbolMap, resolve_labels, pc_step, note_symbol, add_to_symbol_map}
use vysvm.Evm.Assembler.Addresses.{get-add, note_symbol-defines, resolve_labels-keeps}
use vysvm.Evm.Optimizer.Jumps.{Assembly, used_in, is_unused, remove_unused, keep, mark_changed}

pub defines_symbol : String → AssemblyInstruction → Bool
defines_symbol l (label m) = str_eq m l
defines_symbol l (data_header m) = str_eq m l
defines_symbol l _ = false

-- `code_end` is a symbol of every assembly.
pub defined_in : String → Assembly → Bool
unfolding defines_symbol
defined_in l [] = str_eq "code_end" l
defined_in l (item ∷ rest) = defines_symbol l item || defined_in l rest

add-other :
    (sm out : SymbolMap) (k l : String) (pc : ℕ)
    → add_to_symbol_map sm k pc ≡ ok out
    → k ≢ l
    → get l out ≡ get l sm
unfolding add_to_symbol_map
add-other sm out k l pc h other = elim (Bool-cases (contains k sm)) [
  | inl old ↦ cc (rw old at h)
  | inr new ↦
      let e : put k pc sm ≡ out = cc (rw new at h) in
      subst (λ d. get l d ≡ get l sm) e (get-put_ne k l pc sm other)
]

str_eq-ne : (a b : String) → str_eq a b ≡ false → a ≢ b
str_eq-ne a b h = λ e. cc (h, (String_Eq.eqb_iff a b).1 e)

module _ (version : ℕ) (cm : SymbolMap) (l : String) where
  note_symbol-other :
      (sm out : SymbolMap) (pc : ℕ) (item : AssemblyInstruction)
      → note_symbol version cm sm pc item ≡ ok out
      → defines_symbol l item ≡ false
      → get l out ≡ get l sm
  unfolding note_symbol defines_symbol
  note_symbol-other sm out pc (label m) h d = add-other sm out m l pc h (str_eq-ne m l d)
  note_symbol-other sm out pc (data_header m) h d = add-other sm out m l pc h (str_eq-ne m l d)
  note_symbol-other sm out pc _ h d =
      let e : sm ≡ out = cc h in subst (λ s. get l s ≡ get l sm) e refl

  note_symbol-here :
      (sm out : SymbolMap) (pc : ℕ) (item : AssemblyInstruction)
      → note_symbol version cm sm pc item ≡ ok out
      → defines_symbol l item ≡ true
      → get l out ≡ some pc
  unfolding defines_symbol
  note_symbol-here sm out pc (label m) h d =
      note_symbol-defines version cm sm out pc (label m) l
        (let e : m ≡ l = (String_Eq.eqb_iff m l).0 d in rw e refl) h
  note_symbol-here sm out pc (data_header m) h d =
      note_symbol-defines version cm sm out pc (data_header m) l
        (let e : m ≡ l = (String_Eq.eqb_iff m l).0 d in rw e refl) h
  note_symbol-here sm out pc _ h d = cc d

  -- A symbol of the map is one that the assembly defines.
  pub resolve_labels-defined :
      (sm : SymbolMap) (pc : ℕ) (items : Assembly) (out : SymbolMap) (v : ℕ)
      → resolve_labels version cm sm pc items ≡ ok out
      → get l sm ≡ none
      → get l out ≡ some v
      → defined_in l items ≡ true
  unfolding resolve_labels defined_in
  resolve_labels-defined sm pc [] out v h new g = elim (Bool-cases (str_eq "code_end" l)) [
    | inl p ↦ p
    | inr p ↦ cc (add-other sm out "code_end" l pc h (str_eq-ne "code_end" l p), new, g)
  ]
  resolve_labels-defined sm pc (x ∷ xs) out v h new g =
      let (sm', noted, rest) = bind_succeeds (note_symbol version cm sm pc x) _ h in
      let (n, counted, last) =
        bind_succeeds (pc_step version cm x) (λ n. resolve_labels version cm sm' (pc + n) xs)
          rest in
      elim (Bool-cases (defines_symbol l x)) [
        | inl p ↦ rw p refl
        | inr p ↦ rw p (
            resolve_labels-defined sm' (pc + n) xs out v last
              (note_symbol-other sm sm' pc x noted p ∙ new) g)
      ]

  -- What an assembly defines is in the map.
  pub resolve_labels-has :
      (sm : SymbolMap) (pc : ℕ) (items : Assembly) (out : SymbolMap)
      → resolve_labels version cm sm pc items ≡ ok out
      → defined_in l items ≡ true
      → (v : ℕ) × (get l out ≡ some v)
  unfolding resolve_labels defined_in
  resolve_labels-has sm pc [] out h d =
      let e : "code_end" ≡ l = (String_Eq.eqb_iff "code_end" l).0 d in
      (pc, subst (λ k. get k out ≡ some pc) e (get-add sm "code_end" pc h))
  resolve_labels-has sm pc (x ∷ xs) out h d =
      let (sm', noted, rest) = bind_succeeds (note_symbol version cm sm pc x) _ h in
      let (n, counted, last) =
        bind_succeeds (pc_step version cm x) (λ n. resolve_labels version cm sm' (pc + n) xs)
          rest in
      elim (Bool-cases (defines_symbol l x)) [
        | inl p ↦ (
          pc,
          resolve_labels-keeps version cm sm' (pc + n) xs out l pc last
              (note_symbol-here sm sm' pc x noted p),
        )
        | inr p ↦ resolve_labels-has sm' (pc + n) xs out last (rw p at d)
      ]

module _ (whole rest : Assembly) (item : AssemblyInstruction) where
  pub removed :
      is_unused whole item ≡ true
      → remove_unused whole (item ∷ rest) ≡ mark_changed (remove_unused whole rest)
  unfolding remove_unused
  removed p = rw (p, remove_unused) refl

  pub kept :
      is_unused whole item ≡ false
      → remove_unused whole (item ∷ rest) ≡ keep item (remove_unused whole rest)
  unfolding remove_unused
  kept p = rw (p, remove_unused) refl

unused-other :
    (whole : Assembly) (l : String) (item : AssemblyInstruction)
    → used_in l whole ≡ true
    → is_unused whole item ≡ true
    → defines_symbol l item ≡ false
unfolding defines_symbol is_unused
unused-other whole l (label m) u h = elim (Bool-cases (str_eq m l)) [
  | inl p ↦ let e : m ≡ l = (String_Eq.eqb_iff m l).0 p in cc (rw (e, u) at h)
  | inr p ↦ p
]
unused-other whole l (mnemonic _) u h = cc
unused-other whole l (byte _) u h = cc
unused-other whole l (push_label _) u h = cc
unused-other whole l (push_ofst _ _) u h = cc
unused-other whole l (data_item _) u h = cc
unused-other whole l (data_header _) u h = cc
unused-other whole l (const _ _) u h = cc

-- A symbol that something uses stays defined.
pub remove_unused-defined :
    (whole items : Assembly) (l : String)
    → used_in l whole ≡ true
    → defined_in l items ≡ true
    → defined_in l (remove_unused whole items).0 ≡ true
unfolding keep mark_changed defined_in
remove_unused-defined whole [] l u d = unfold remove_unused in d
remove_unused-defined whole (item ∷ rest) l u d = elim (Bool-cases (is_unused whole item)) [
  | inl p ↦
      rw (removed whole rest item p)
        (remove_unused-defined whole rest l u (rw (unused-other whole l item u p) at d))
  | inr p ↦ elim (Bool-cases (defines_symbol l item)) [
    | inl q ↦ rw (kept whole rest item p, q) refl
    | inr q ↦ rw (kept whole rest item p, q) (remove_unused-defined whole rest l u (rw q at d))
  ]
]

pub remove_unused-All {κ} :
    (P : AssemblyInstruction → Type κ) (whole items : Assembly)
    → All P items
    → All P (remove_unused whole items).0
unfolding keep mark_changed
remove_unused-All P whole [] a = unfold remove_unused in a
remove_unused-All P whole (item ∷ rest) a = elim (Bool-cases (is_unused whole item)) [
  | inl p ↦ rw (removed whole rest item p) (remove_unused-All P whole rest a.1)
  | inr p ↦ rw (kept whole rest item p) (a.0, remove_unused-All P whole rest a.1)
]
