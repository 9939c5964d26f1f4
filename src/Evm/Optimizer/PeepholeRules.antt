-- ===== src/Evm/Optimizer/PeepholeRules.antt =====
-- vyper/evm/assembler/optimizer.py: the sequences that `_stack_peephole_opts` replaces do the same on
-- the EVM's stack, wherever they run.
use vysvm.Common.Eq.{String_Eq}
use vysvm.Evm.Machine.{
  run_items, run_item, Other, do_mnemonic, Machine, stack_op, do_op, do_dup, do_swap, with_stack,
  do_pop, reading, ready,
}
use Prim.Native.String.{String}
use vysvm.Common.{ℕ, ◌∷◌, ◌≡◌, some, Option-cases, true, inl, ap, inr, []}
use vysvm.Evm.Optimizer.Jumps.{Assembly, is_op}
use vysvm.Evm.Assembler.Instructions.{
  AssemblyInstruction, mnemonic, byte, push_label, label, push_ofst, data_item, data_header, const,
}

pub is_op_iff :
    (name : String) (item : AssemblyInstruction) → is_op name item ≡ true → item ≡ mnemonic name
unfolding is_op
is_op_iff name (mnemonic s) h = ap mnemonic ((String_Eq.eqb_iff s name).0 h)
is_op_iff name (byte b) h = cc
is_op_iff name (push_label l) h = cc
is_op_iff name (label l) h = cc
is_op_iff name (push_ofst t n) h = cc
is_op_iff name (data_item d) h = cc
is_op_iff name (data_header l) h = cc
is_op_iff name (const c n) h = cc

module _ {W : Type 0} (address : String → ℕ) (other : Other W) where
  -- Where the first runs to an end, so does the second, to the same.
  abbrev pub Improves : Assembly → Assembly → Type 0
  Improves first second =
      (start end : Machine W)
      → run_items address other first start ≡ some end
      → run_items address other second start ≡ some end

  pub Improves-cons :
      (item : AssemblyInstruction) (first second : Assembly)
      → Improves first second
      → Improves (item ∷ first) (item ∷ second)
  unfolding run_items
  Improves-cons item first second better start end h =
      elim (Option-cases (run_item address other item start)) [
        | inl e ↦ cc (rw (run_items, e) at h)
        | inr (next, e) ↦ rw (run_items, e) (better next end (rw (run_items, e) at h))
      ]

  pub copied_below :
      (rest : Assembly)
      → Improves
          (mnemonic "DUP1" ∷ mnemonic "SWAP2" ∷ mnemonic "SWAP1" ∷ rest)
          (mnemonic "SWAP1" ∷ mnemonic "DUP2" ∷ rest)
  unfolding run_items run_item do_mnemonic stack_op do_op do_dup do_swap with_stack
  copied_below rest (reading n word stack w) end h = cc
  copied_below rest (ready [] w) end h = cc
  copied_below rest (ready (a ∷ []) w) end h = cc
  copied_below rest (ready (a ∷ b ∷ stack) w) end h = h

  pub copied_away :
      (rest : Assembly) → Improves (mnemonic "DUP1" ∷ mnemonic "SWAP1" ∷ mnemonic "POP" ∷ rest) rest
  unfolding run_items run_item do_mnemonic stack_op do_op do_dup do_swap do_pop with_stack
  copied_away rest (reading n word stack w) end h = cc
  copied_away rest (ready [] w) end h = cc
  copied_away rest (ready (a ∷ stack) w) end h = h

  pub popped_both :
      (rest : Assembly)
      → Improves
          (mnemonic "SWAP1" ∷ mnemonic "POP" ∷ mnemonic "POP" ∷ rest)
          (mnemonic "POP" ∷ mnemonic "POP" ∷ rest)
  unfolding run_items run_item do_mnemonic stack_op do_op do_swap do_pop with_stack
  popped_both rest (reading n word stack w) end h = cc
  popped_both rest (ready [] w) end h = cc
  popped_both rest (ready (a ∷ []) w) end h = cc
  popped_both rest (ready (a ∷ b ∷ stack) w) end h = h

  pub copied_same :
      (rest : Assembly)
      → Improves (mnemonic "DUP1" ∷ mnemonic "SWAP1" ∷ rest) (mnemonic "DUP1" ∷ rest)
  unfolding run_items run_item do_mnemonic stack_op do_op do_dup do_swap with_stack
  copied_same rest (reading n word stack w) end h = cc
  copied_same rest (ready [] w) end h = cc
  copied_same rest (ready (a ∷ stack) w) end h = h
