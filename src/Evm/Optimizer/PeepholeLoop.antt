-- ===== src/Evm/Optimizer/PeepholeLoop.antt =====
-- vyper/evm/assembler/optimizer.py: the loop of `_stack_peephole_opts` keeps what the assembly does.
use vysvm.Evm.Machine.{
  run_items, run_item, Other, do_op, with_stack, do_swap, stack_op, Machine, reading, ready,
  exchange_top,
}
use Prim.Native.String.{String}
use vysvm.Common.{
  ℕ, List, ◌≡◌, true, ◌∷◌, none, some, Bool-cases, false, length, sym, inl, suc, ltb, inr, ◌&&◌,
  Option-cases, [], and_parts, ◌∙◌, zero, refl,
}
use vysvm.Evm.Optimizer.Peephole.{
  commutative, drop_commuted, peephole_round, keep_first, peephole_from, stack_peephole_opts,
  drop_swaps, drop_copied, rewritten,
}
use vysvm.Evm.Assembler.Instructions.{mnemonic}
use vysvm.Evm.Optimizer.Jumps.{Assembly, keep, mark_changed, Pass, is_op}
use vysvm.Common.Errors.{Result, ok, bind_case}
use vysvm.Evm.Optimizer.PeepholeRules.{Improves, Improves-cons, is_op_iff}
use vysvm.Evm.Machine.Pushes.{run_items-stack_op_fails, run_items-other_same, run_items-stack_op}
use mathlib.Core.Path.{subst}
use vysvm.Evm.Optimizer.PeepholeSoundness.{
  drop_copied-Improves, swap1, drop_swaps-Improves, commutative-stack_op, rewritten-Improves,
}

-- An instruction that does the same on its first two words in either order.
module _ {W : Type 0} (address : String → ℕ) (other : Other W)
    (commutes : (s : String) (a b : ℕ) (stack : List ℕ) (w : W)
      → commutative (mnemonic s) ≡ true
      → other (mnemonic s) (a ∷ b ∷ stack) w ≡ other (mnemonic s) (b ∷ a ∷ stack) w) where
  swapped_commutes :
      (s : String) (rest : Assembly)
      → stack_op s ≡ none
      → commutative (mnemonic s) ≡ true
      → Improves address other (mnemonic "SWAP1" ∷ mnemonic s ∷ rest) (mnemonic s ∷ rest)
  unfolding run_items run_item do_op with_stack do_swap
  swapped_commutes s rest e c (reading k word stack w) end h = cc
  swapped_commutes s rest e c (ready [] w) end h = cc (
      run_items-stack_op_fails address other "SWAP1" (exchange_top 0) (mnemonic s ∷ rest) [] w swap1
        refl)
  swapped_commutes s rest e c (ready (a ∷ []) w) end h = cc (
      run_items-stack_op_fails address other "SWAP1" (exchange_top 0) (mnemonic s ∷ rest) (a ∷ []) w
        swap1 refl)
  swapped_commutes s rest e c (ready (a ∷ b ∷ stack) w) end h =
      run_items-other_same address other s rest (a ∷ b ∷ stack) (b ∷ a ∷ stack) w e
        (commutes s a b stack w c)
      ∙ sym (
          run_items-stack_op address other "SWAP1" (exchange_top 0) (mnemonic s ∷ rest)
            (a ∷ b ∷ stack) w (ready (b ∷ a ∷ stack) w) swap1 refl)
      ∙ h

  drop_commuted-Improves :
      (assembly : Assembly) (left : Pass)
      → drop_commuted assembly ≡ ok left
      → Improves address other assembly left.0
  unfolding drop_commuted
  drop_commuted-Improves [] left k start end h = cc
  drop_commuted-Improves (a ∷ []) left k start end h = elim (Bool-cases (is_op "SWAP1" a)) [
    | inl e ↦ cc (rw e at k)
    | inr e ↦ let d : (a ∷ [], false) ≡ left = cc (rw e at k) in rw (sym d) h
  ]
  drop_commuted-Improves (a ∷ b ∷ rest) left k start end h =
      elim (Bool-cases (is_op "SWAP1" a && commutative b)) [
        | inl e ↦
            let d : (b ∷ rest, true) ≡ left = cc (rw e at k) in
            let (p, q) = and_parts (is_op "SWAP1" a) (commutative b) e in
            let (s, same, free) = commutative-stack_op b q in
            let t = is_op_iff "SWAP1" a p in
            rw (sym d, same)
              (swapped_commutes s rest free (rw same at q) start end (rw (t, same) at h))
        | inr e ↦ let d : (a ∷ b ∷ rest, false) ≡ left = cc (rw e at k) in rw (sym d) h
      ]

  peephole_round-Improves :
      (assembly : Assembly) (left : Pass)
      → peephole_round assembly ≡ ok left
      → Improves address other assembly left.0
  unfolding peephole_round
  peephole_round-Improves assembly left k start end h =
      bind_case (drop_commuted (drop_swaps assembly).0) _ k (λ second p l.
        bind_case (drop_copied second.0) _ l (λ third q m.
          let d : third.0 ≡ left.0 = cc in
          subst (λ x. run_items address other x start ≡ some end) d
            (drop_copied-Improves address other second.0 third q start end (
              drop_commuted-Improves (drop_swaps assembly).0 second p start end
                (drop_swaps-Improves address other assembly start end h)))))

  keep_first-Improves :
      (assembly : Assembly) (loop : Assembly → Result Pass) (result : Pass)
      → ((rest : Assembly) (r : Pass) → loop rest ≡ ok r → Improves address other rest r.0)
      → keep_first assembly loop ≡ ok result
      → Improves address other assembly result.0
  unfolding keep_first keep
  keep_first-Improves [] loop result sound k start end h =
      let d : ([], false) ≡ result = cc in rw (sym d) h
  keep_first-Improves (a ∷ rest) loop result sound k start end h =
      bind_case (loop rest) _ k (λ r p l.
        let d : a ∷ r.0 ≡ result.0 = cc in
        subst (λ x. run_items address other x start ≡ some end) d
          (Improves-cons address other a rest r.0 (sound rest r p) start end h))

  peephole_from-Improves :
      (rounds : ℕ) (assembly : Assembly) (result : Pass)
      → peephole_from rounds assembly ≡ ok result
      → Improves address other assembly result.0
  unfolding peephole_from mark_changed
  peephole_from-Improves zero assembly result k start end h =
      let d : (assembly, false) ≡ result = cc in rw (sym d) h
  peephole_from-Improves (suc rounds) assembly result k start end h =
      elim (Bool-cases (ltb (length assembly) 3)) [
        | inl e ↦
            let d : (assembly, false) ≡ result = cc (rw (peephole_from, e) at k) in rw (sym d) h
        | inr e ↦ elim (Option-cases (rewritten assembly)) [
          | inr (shorter, p) ↦
              bind_case (peephole_from rounds shorter) _ (rw (peephole_from, e, p) at k) (λ r q l.
                let d : r.0 ≡ result.0 = cc in
                subst (λ x. run_items address other x start ≡ some end) d
                  (peephole_from-Improves rounds shorter r q start end
                    (rewritten-Improves address other assembly shorter p start end h)))
          | inl p ↦
              bind_case (peephole_round assembly) _ (rw (peephole_from, e, p) at k) (λ left q l.
                bind_case (keep_first left.0 (peephole_from rounds)) _ l (λ r u m.
                  let d : r.0 ≡ result.0 = cc in
                  subst (λ x. run_items address other x start ≡ some end) d
                    (keep_first-Improves left.0 (peephole_from rounds) r
                      (λ rest s v. peephole_from-Improves rounds rest s v) u start end
                      (peephole_round-Improves assembly left q start end h))))
        ]
      ]

  -- Where the assembly runs to an end and `_stack_peephole_opts` succeeds on it, what it returns
  -- runs to the same end, if the instructions that it takes as commutative do the same on their
  -- two words in either order.
  pub stack_peephole_opts-run_items :
      (assembly : Assembly) (result : Pass) (start end : Machine W)
      → stack_peephole_opts assembly ≡ ok result
      → run_items address other assembly start ≡ some end
      → run_items address other result.0 start ≡ some end
  unfolding stack_peephole_opts
  stack_peephole_opts-run_items assembly result start end k h =
      peephole_from-Improves (length assembly) assembly result k start end h
