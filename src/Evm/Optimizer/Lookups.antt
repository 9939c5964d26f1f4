-- ===== src/Evm/Optimizer/Lookups.antt =====
-- vyper/evm/assembler/symbols.py and core.py: when the assembler finds the symbols that it looks up.
use Prim.Native.String.{String}
use mathlib.Core.Path.{subst}
use text.Mathlib.TextEquality.{eq_iff}
use vysvm.Common.{
  ℕ, List, All, ◌∷◌, [], ◌≡◌, ◌≢◌, some, true, Bool-cases, inl, inr, refl, arith, ◌+◌, ◌++◌,
  Option-cases,
}
use vysvm.Common.Dict.{get, contains}
use vysvm.Common.Eq.{str_eq, String_Eq}
use vysvm.Common.Int.{ℤ, pos, negsuc, ◌+ℤ◌}
use vysvm.Common.Errors.{Result, ok, err, ◌>>=◌, bind_succeeds, key_error}
use vysvm.Evm.Assembler.Instructions.{
  AssemblyInstruction, label, data_header, mnemonic, byte, push_label, push_ofst, data_item, const,
  code_label, const_ref, data_label, data_bytes, push_n_int, push_n,
}
use vysvm.Evm.Assembler.Symbols.{
  SymbolMap, resolve_consts, resolve_labels, pc_step, note_symbol, add_to_symbol_map, lookup_symbol,
}
use vysvm.Evm.Assembler.Core.{emit, emit_all, push_symbol, symbol_bytes, compile_data_item}
use vysvm.Evm.Optimizer.PruningSymbols.{removed, kept}
use vysvm.Evm.Optimizer.Jumps.{Assembly, uses, is_unused, remove_unused, keep, mark_changed}

-- Whatever comes of it, it is not a missing symbol.
abbrev pub Finds {ℓ} : {A : Type ℓ} → Result A → Type ℓ
Finds r = r ≢ err key_error

pub Finds->>= {ℓ κ} :
    {A : Type ℓ} {B : Type κ} (first : Result A) (rest : A → Result B)
    → Finds first
    → ((a : A) → first ≡ ok a → Finds (rest a))
    → Finds (first >>= rest)
Finds->>= (ok a) rest h k = k a refl
Finds->>= {A = A} {B = B} (err e) rest h k =
    λ q. h (let same : e ≡ key_error = cc q in rw same refl)

>>=-same {ℓ κ} :
    {A : Type ℓ} {B : Type κ} (first : Result A) (f g : A → Result B)
    → ((a : A) → f a ≡ g a)
    → (first >>= f) ≡ (first >>= g)
>>=-same (ok a) f g h = h a
>>=-same (err e) f g h = refl

-- The constants stay.
pub resolve_consts-remove_unused :
    (whole items : Assembly) (cm : SymbolMap)
    → resolve_consts cm (remove_unused whole items).0 ≡ resolve_consts cm items
unfolding remove_unused resolve_consts keep mark_changed is_unused
resolve_consts-remove_unused whole [] cm = refl
resolve_consts-remove_unused whole (label l ∷ rest) cm =
    elim (Bool-cases (is_unused whole (label l))) [
      | inl p ↦ rw (removed whole rest (label l) p) (resolve_consts-remove_unused whole rest cm)
      | inr p ↦ rw (kept whole rest (label l) p) (resolve_consts-remove_unused whole rest cm)
    ]
resolve_consts-remove_unused whole (const name value ∷ rest) cm =
    >>=-same (add_to_symbol_map cm name value) _ _ (resolve_consts-remove_unused whole rest)
resolve_consts-remove_unused whole (mnemonic _ ∷ rest) cm =
    resolve_consts-remove_unused whole rest cm
resolve_consts-remove_unused whole (byte _ ∷ rest) cm = resolve_consts-remove_unused whole rest cm
resolve_consts-remove_unused whole (push_label _ ∷ rest) cm =
    resolve_consts-remove_unused whole rest cm
resolve_consts-remove_unused whole (push_ofst _ _ ∷ rest) cm =
    resolve_consts-remove_unused whole rest cm
resolve_consts-remove_unused whole (data_item _ ∷ rest) cm =
    resolve_consts-remove_unused whole rest cm
resolve_consts-remove_unused whole (data_header _ ∷ rest) cm =
    resolve_consts-remove_unused whole rest cm

add_to_symbol_map-Finds : (sm : SymbolMap) (l : String) (v : ℕ) → Finds (add_to_symbol_map sm l v)
unfolding add_to_symbol_map
add_to_symbol_map-Finds sm l v = elim (Bool-cases (contains l sm)) [
  | inl p ↦ rw p (λ q. cc)
  | inr p ↦ rw p (λ q. cc)
]

push_symbol-Finds : (v : ℤ) → Finds (push_symbol v)
unfolding push_symbol push_n_int push_n
push_symbol-Finds (pos v) = λ q. ground arith
push_symbol-Finds (negsuc v) = λ q. cc

symbol_bytes-Finds : (v : ℕ) → Finds (symbol_bytes v)
unfolding symbol_bytes
symbol_bytes-Finds v = λ q. ground arith

module _ (version : ℕ) (cm : SymbolMap) where
  note_symbol-Finds :
      (sm : SymbolMap) (pc : ℕ) (item : AssemblyInstruction)
      → Finds (note_symbol version cm sm pc item)
  unfolding note_symbol
  note_symbol-Finds sm pc (label l) = add_to_symbol_map-Finds sm l pc
  note_symbol-Finds sm pc (data_header l) = add_to_symbol_map-Finds sm l pc
  note_symbol-Finds sm pc _ = λ q. cc

  -- The instruction was counted in the assembly that the assembler accepted.
  unfoldable pub Counted : AssemblyInstruction → Type 0
  Counted item = (n : ℕ) × (pc_step version cm item ≡ ok n)

  pub resolve_labels-Counted :
      (sm : SymbolMap) (pc : ℕ) (items : Assembly) (out : SymbolMap)
      → resolve_labels version cm sm pc items ≡ ok out
      → All Counted items
  unfolding resolve_labels Counted
  resolve_labels-Counted sm pc [] out h = tt
  resolve_labels-Counted sm pc (x ∷ xs) out h =
      let (sm', noted, rest) = bind_succeeds (note_symbol version cm sm pc x) _ h in
      let (n, counted, last) =
        bind_succeeds (pc_step version cm x) (λ n. resolve_labels version cm sm' (pc + n) xs)
          rest in
      ((n, counted), resolve_labels-Counted sm' (pc + n) xs out last)

  pub resolve_labels-Finds :
      (sm : SymbolMap) (pc : ℕ) (items : Assembly)
      → All Counted items
      → Finds (resolve_labels version cm sm pc items)
  unfolding resolve_labels Counted
  resolve_labels-Finds sm pc [] a = add_to_symbol_map-Finds sm "code_end" pc
  resolve_labels-Finds sm pc (x ∷ xs) a =
      Finds->>= (note_symbol version cm sm pc x) _ (note_symbol-Finds sm pc x) (λ sm' noted.
        Finds->>= (pc_step version cm x) _ (λ q. cc (q, a.0.1))
          (λ n counted. resolve_labels-Finds sm' (pc + n) xs a.1))

  module _ (sm : SymbolMap) where
    unfoldable pub Emitted : AssemblyInstruction → Type 0
    Emitted item = (bs : List ℕ) × (emit version sm cm item ≡ ok bs)

    pub emit_all-Emitted :
        (items : Assembly) (code : List ℕ)
        → emit_all version sm cm items ≡ ok code
        → All Emitted items
    unfolding emit_all Emitted
    emit_all-Emitted [] code h = tt
    emit_all-Emitted (x ∷ xs) code h =
        let (bs, emitted, others) = bind_succeeds (emit version sm cm x) _ h in
        let (more, follow, joined) =
          bind_succeeds (emit_all version sm cm xs) (λ more. ok (bs ++ more)) others in
        ((bs, emitted), emit_all-Emitted xs more follow)

    -- What the instruction refers to has a place in the map.
    unfoldable pub Resolved : AssemblyInstruction → Type 0
    Resolved item = (l : String) → uses l item ≡ true → (v : ℕ) × (get l sm ≡ some v)

    lookup-found : (l : String) (v : ℕ) → lookup_symbol sm l ≡ ok v → get l sm ≡ some v
    unfolding lookup_symbol
    lookup-found l v h = elim (Option-cases (get l sm)) [
      | inl p ↦ cc (rw (lookup_symbol, p) at h)
      | inr (w, p) ↦ let e : ◌≡◌ {A = Result ℕ} (ok w) (ok v) = rw (lookup_symbol, p) at h in cc
    ]

    lookup-Finds : (l : String) (v : ℕ) → get l sm ≡ some v → Finds (lookup_symbol sm l)
    unfolding lookup_symbol
    lookup-Finds l v h = rw (lookup_symbol, h) (λ q. cc)

    resolved_as :
        (l m : String) (v : ℕ)
        → lookup_symbol sm m ≡ ok v
        → str_eq m l ≡ true
        → (w : ℕ) × (get l sm ≡ some w)
    resolved_as l m v h e =
        let same : m ≡ l = (eq_iff m l).0 e in
        (v, subst (λ k. get k sm ≡ some v) same (lookup-found m v h))

    pub Emitted-Resolved : (item : AssemblyInstruction) → Emitted item → Resolved item
    unfolding Emitted Resolved emit uses compile_data_item
    Emitted-Resolved (push_label m) (bs, h) =
        λ l u. let (v, e, f) = bind_succeeds (lookup_symbol sm m) _ h in resolved_as l m v e u
    Emitted-Resolved (push_ofst (code_label m) ofst) (bs, h) =
        λ l u. let (v, e, f) = bind_succeeds (lookup_symbol sm m) _ h in resolved_as l m v e u
    Emitted-Resolved (data_item (data_label m)) (bs, h) =
        λ l u. let (v, e, f) = bind_succeeds (lookup_symbol sm m) _ h in resolved_as l m v e u
    Emitted-Resolved (push_ofst (const_ref c) ofst) (bs, h) = λ l u. cc
    Emitted-Resolved (data_item (data_bytes d)) (bs, h) = λ l u. cc
    Emitted-Resolved (mnemonic _) (bs, h) = λ l u. cc
    Emitted-Resolved (byte _) (bs, h) = λ l u. cc
    Emitted-Resolved (label _) (bs, h) = λ l u. cc
    Emitted-Resolved (data_header _) (bs, h) = λ l u. cc
    Emitted-Resolved (const _ _) (bs, h) = λ l u. cc

  module _ (sm sm' : SymbolMap) where
    found_self :
        (l : String)
        → ((k : String) → str_eq l k ≡ true → (v : ℕ) × (get k sm' ≡ some v))
        → Finds (lookup_symbol sm' l)
    found_self l r = let (v, h) = r l ((eq_iff l l).1 refl) in lookup-Finds sm' l v h

    -- An instruction that could be emitted can be under another map that has its symbols.
    emit-Finds :
        (item : AssemblyInstruction)
        → Emitted sm item
        → Resolved sm' item
        → Finds (emit version sm' cm item)
    unfolding Emitted Resolved emit uses compile_data_item
    emit-Finds (push_label m) e r =
        Finds->>= (lookup_symbol sm' m) _ (found_self m r) (λ v f. push_symbol-Finds (pos v))
    emit-Finds (push_ofst (code_label m) ofst) e r =
        Finds->>= (lookup_symbol sm' m) _ (found_self m r)
          (λ v f. push_symbol-Finds (pos v +ℤ ofst))
    emit-Finds (data_item (data_label m)) e r =
        Finds->>= (lookup_symbol sm' m) _ (found_self m r) (λ v f. symbol_bytes-Finds v)
    emit-Finds (push_ofst (const_ref c) ofst) (bs, h) r = λ q. cc (h, q)
    emit-Finds (data_item (data_bytes d)) (bs, h) r = λ q. cc (h, q)
    emit-Finds (mnemonic _) (bs, h) r = λ q. cc (h, q)
    emit-Finds (byte _) (bs, h) r = λ q. cc (h, q)
    emit-Finds (label _) (bs, h) r = λ q. cc (h, q)
    emit-Finds (data_header _) (bs, h) r = λ q. cc
    emit-Finds (const _ _) (bs, h) r = λ q. cc

    pub emit_all-Finds :
        (items : Assembly)
        → All (λ item. Emitted sm item × Resolved sm' item) items
        → Finds (emit_all version sm' cm items)
    unfolding emit_all
    emit_all-Finds [] a = λ q. cc
    emit_all-Finds (x ∷ xs) a =
        Finds->>= (emit version sm' cm x) _ (emit-Finds x a.0.0 a.0.1) (λ bs h.
          Finds->>= (emit_all version sm' cm xs) _ (emit_all-Finds xs a.1) (λ more f. λ q. cc))
