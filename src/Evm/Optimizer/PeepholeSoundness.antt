-- ===== src/Evm/Optimizer/PeepholeSoundness.antt =====
-- vyper/evm/assembler/optimizer.py: `_stack_peephole_opts` keeps what the assembly does.
use vysvm.Evm.Machine.{
  run_items, run_item, do_swap, stack_op, Other, do_op, exchange_top, reading, ready, with_stack,
}
use vysvm.Evm.Optimizer.Jumps.{one_of, Assembly, Pass, is_op}
use vysvm.Evm.Optimizer.Peephole.{commutative, same_swap, drop_swaps, drop_copied, swaps, rewritten}
use Prim.Native.String.{String}
use vysvm.Common.{
  ℕ, List, ◌≡◌, some, true, ◌∷◌, Option-cases, get_elem?, none, Bool-cases, [], inl, All-get_elem?,
  inr, set, false, refl, sym, suc, ap, get_elem?-set_self, ◌∙◌, ◌&&◌, get_elem?_bounded, and_parts,
  set-set_same,
}
use vysvm.Evm.Assembler.Instructions.{AssemblyInstruction, mnemonic}
use vysvm.Evm.Optimizer.PeepholeRules.{
  Improves, is_op_iff, copied_same, copied_below, copied_away, popped_both,
}
use vysvm.Common.Errors.{ok}
use vysvm.Common.Eq.{str_eq, String_Eq}
use vysvm.Evm.Machine.Pushes.{run_items-stack_op_fails, run_items-stack_op}
use vysvm.Evm.Machine.Names.{swap_names-stack_op}

do_swap_twice :
    (n : ℕ) (stack swapped : List ℕ)
    → do_swap n stack ≡ some swapped
    → do_swap n swapped ≡ some stack
unfolding do_swap
do_swap_twice n [] swapped h = cc
do_swap_twice n (t ∷ rest) swapped h = elim (Option-cases (get_elem? rest n)) [
  | inl e ↦ cc (rw (do_swap, e) at h)
  | inr (x, e) ↦
      let d : x ∷ set rest n t ≡ swapped = cc (rw (do_swap, e) at h) in
      rw (sym d, do_swap, get_elem?-set_self rest n t (get_elem?_bounded rest n x e))
        (ap (λ l. some (t ∷ l)) (set-set_same rest n x t e))
]

pub listed :
    (names : List String) (item : AssemblyInstruction)
    → one_of names item ≡ true
    → (s : String) × (item ≡ mnemonic s) × (n : ℕ) × (get_elem? names n ≡ some s)
unfolding one_of
listed [] item h = cc
listed (name ∷ names) item h = elim (Bool-cases (is_op name item)) [
  | inl e ↦ (name, is_op_iff name item e, 0, refl)
  | inr e ↦ let (s, same, n, g) = listed names item (rw e at h) in (s, same, suc n, g)
]

pub commutative-stack_op :
    (item : AssemblyInstruction)
    → commutative item ≡ true
    → (s : String) × (item ≡ mnemonic s) × (stack_op s ≡ none)
unfolding commutative stack_op
commutative-stack_op item h =
    let names = "ADD" ∷ "MUL" ∷ "EQ" ∷ "NE" ∷ "AND" ∷ "OR" ∷ "XOR" ∷ [] in
    let (s, same, n, g) = listed names item h in
    (
      s,
      same,
      All-get_elem? (λ t. stack_op t ≡ none) names n s
          (refl, (refl, (refl, (refl, (refl, (refl, (refl, tt))))))) g,
    )

same_swap_iff :
    (a b : AssemblyInstruction)
    → same_swap a b ≡ true
    → (s : String) × (n : ℕ) × (a ≡ mnemonic s)
      × (b ≡ mnemonic s)
      × (stack_op s ≡ some (exchange_top n))
unfolding same_swap
same_swap_iff (mnemonic a) (mnemonic b) h = elim (Bool-cases (str_eq a b)) [
  | inl e ↦
      let (s, same, n, g) = listed swaps (mnemonic a) (rw e at h) in
      let d : a ≡ b = (String_Eq.eqb_iff a b).0 e in
      (s, n, same, sym (ap mnemonic d) ∙ same, swap_names-stack_op n s g)
  | inr e ↦ cc (rw e at h)
]
same_swap_iff _ _ h = cc

three_ops :
    (s t u : String) (a b c : AssemblyInstruction)
    → (is_op s a && is_op t b && is_op u c) ≡ true
    → (a ≡ mnemonic s) × (b ≡ mnemonic t) × (c ≡ mnemonic u)
three_ops s t u a b c h =
    let (p, q) = and_parts (is_op s a && is_op t b) (is_op u c) h in
    let (r, v) = and_parts (is_op s a) (is_op t b) p in
    (is_op_iff s a r, is_op_iff t b v, is_op_iff u c q)

pub swap1 : stack_op "SWAP1" ≡ some (exchange_top 0)
unfolding stack_op
swap1 = refl

module _ {W : Type 0} (address : String → ℕ) (other : Other W) where
  swapped_twice :
      (s : String) (n : ℕ) (rest : Assembly)
      → stack_op s ≡ some (exchange_top n)
      → Improves address other (mnemonic s ∷ mnemonic s ∷ rest) rest
  unfolding run_items run_item do_op with_stack
  swapped_twice s n rest e (reading k word stack w) end h = cc
  swapped_twice s n rest e (ready stack w) end h = elim (Option-cases (do_swap n stack)) [
    | inl p ↦ cc (
        run_items-stack_op_fails address other s (exchange_top n) (mnemonic s ∷ rest) stack w e
          (ap (with_stack w) p))
    | inr (swapped, p) ↦
        sym (
          run_items-stack_op address other s (exchange_top n) (mnemonic s ∷ rest) stack w
            (ready swapped w) e (ap (with_stack w) p)
          ∙ run_items-stack_op address other s (exchange_top n) rest swapped w (ready stack w) e
              (ap (with_stack w) (do_swap_twice n stack swapped p)))
        ∙ h
  ]

  pub drop_swaps-Improves :
      (assembly : Assembly) → Improves address other assembly (drop_swaps assembly).0
  unfolding drop_swaps
  drop_swaps-Improves [] start end h = h
  drop_swaps-Improves (a ∷ []) start end h = h
  drop_swaps-Improves (a ∷ b ∷ rest) start end h = elim (Bool-cases (same_swap a b)) [
    | inl e ↦
        let (s, n, p, q, o) = same_swap_iff a b e in
        rw (drop_swaps, e) (swapped_twice s n rest o start end (rw (p, q) at h))
    | inr e ↦ rw (drop_swaps, e) h
  ]

  pub drop_copied-Improves :
      (assembly : Assembly) (left : Pass)
      → drop_copied assembly ≡ ok left
      → Improves address other assembly left.0
  unfolding drop_copied
  drop_copied-Improves [] left k start end h = cc
  drop_copied-Improves (a ∷ []) left k start end h = elim (Bool-cases (is_op "DUP1" a)) [
    | inl e ↦ cc (rw e at k)
    | inr e ↦ let d : (a ∷ [], false) ≡ left = cc (rw e at k) in rw (sym d) h
  ]
  drop_copied-Improves (a ∷ b ∷ rest) left k start end h =
      elim (Bool-cases (is_op "DUP1" a && is_op "SWAP1" b)) [
        | inl e ↦
            let d : (a ∷ rest, true) ≡ left = cc (rw e at k) in
            let (p, q) = and_parts (is_op "DUP1" a) (is_op "SWAP1" b) e in
            let s = is_op_iff "DUP1" a p in
            let t = is_op_iff "SWAP1" b q in
            rw (sym d, s) (copied_same address other rest start end (rw (s, t) at h))
        | inr e ↦ let d : (a ∷ b ∷ rest, false) ≡ left = cc (rw e at k) in rw (sym d) h
      ]

  pub rewritten-Improves :
      (assembly shorter : Assembly)
      → rewritten assembly ≡ some shorter
      → Improves address other assembly shorter
  unfolding rewritten
  rewritten-Improves [] shorter k start end h = cc
  rewritten-Improves (a ∷ []) shorter k start end h = cc
  rewritten-Improves (a ∷ b ∷ []) shorter k start end h = cc
  rewritten-Improves (a ∷ b ∷ c ∷ rest) shorter k start end h =
      elim (Bool-cases (is_op "DUP1" a && is_op "SWAP2" b && is_op "SWAP1" c)) [
        | inl e ↦
            let (p, q, r) = three_ops "DUP1" "SWAP2" "SWAP1" a b c e in
            let d : mnemonic "SWAP1" ∷ mnemonic "DUP2" ∷ rest ≡ shorter = cc (rw e at k) in
            rw (sym d) (copied_below address other rest start end (rw (p, q, r) at h))
        | inr e ↦ elim (Bool-cases (is_op "DUP1" a && is_op "SWAP1" b && is_op "POP" c)) [
          | inl f ↦
              let (p, q, r) = three_ops "DUP1" "SWAP1" "POP" a b c f in
              let d : rest ≡ shorter = cc (rw (e, f) at k) in
              rw (sym d) (copied_away address other rest start end (rw (p, q, r) at h))
          | inr f ↦ elim (Bool-cases (is_op "SWAP1" a && is_op "POP" b && is_op "POP" c)) [
            | inl g ↦
                let (p, q, r) = three_ops "SWAP1" "POP" "POP" a b c g in
                let d : b ∷ c ∷ rest ≡ shorter = cc (rw (e, f, g) at k) in
                rw (sym d, q, r) (popped_both address other rest start end (rw (p, q, r) at h))
            | inr g ↦ cc (rw (e, f, g) at k)
          ]
        ]
      ]
