-- ===== src/Evm/Optimizer/Examples.antt =====
-- vyper/evm/assembler/optimizer.py: the theorems on a short piece of code.
use vysvm.Evm.Assembler.Instructions.{push_label, mnemonic, label}
use vysvm.Evm.Optimizer.Pruning.{prune_unused_jumpdests-assembly_to_evm}
use vysvm.Evm.Optimizer.Control.{Control, next, jump, halt}
use vysvm.Evm.Assembler.Core.{assembly_to_evm}
use vysvm.Evm.Assembler.Symbols.{resolve_symbols}
use vysvm.Evm.Assembler.Instructions.{
  AssemblyInstruction, push_ofst, code_label, num_to_bytearray, push_n,
}
use vysvm.Evm.Opcodes.{get_opcodes}
use vysvm.Common.Dict.{get, contains, put}
use vysvm.Common.Int.{pos, ◌+ℤ◌}
use vysvm.Common.{
  ◌≡◌, ◌≢◌, ◌∷◌, [], refl, if◌then◌else◌, ℕ, List, some, ◌+◌, true, ◌%◌, arith, ◌^◌, none,
}
use vysvm.Common.Errors.{err, index_error, key_error, ok}
use vysvm.Evm.Optimizer.Jumps.{Assembly, prune_unused_jumpdests, is_op, one_of, keep, mark_changed}
use vysvm.Evm.Optimizer.Peephole.{
  stack_peephole_opts, peephole_from, rewritten, peephole_round, drop_commuted, drop_swaps,
  same_swap, drop_copied, commutative, keep_first,
}
use vysvm.Evm.Machine.{
  Other, run_items, run_item, ready, do_mnemonic, stack_op, do_op, do_dup, do_swap, do_pop,
  with_stack,
}
use Prim.Native.String.{String}
use vysvm.Common.Eq.{str_eq}
use vysvm.Evm.Optimizer.PeepholeLoop.{stack_peephole_opts-run_items}

abbrev code : Assembly
code =
    push_label "loop"
    ∷ mnemonic "JUMP"
    ∷ mnemonic "POP"
    ∷ label "loop"
    ∷ push_ofst (code_label "table") (pos 1)
    ∷ mnemonic "STOP"
    ∷ label "unused"
    ∷ label "table"
    ∷ []

assembled :
    assembly_to_evm 4 code
    ≡ ok (0x61 ∷ 0 ∷ 5 ∷ 0x56 ∷ 0x50 ∷ 0x5b ∷ 0x61 ∷ 0 ∷ 12 ∷ 0x00 ∷ 0x5b ∷ 0x5b ∷ [])
unfolding assembly_to_evm resolve_symbols num_to_bytearray get_opcodes contains put get push_n ◌+ℤ◌
assembled = refl

-- Each jump goes to "loop", and any instruction that goes on adds one.
abbrev walk : AssemblyInstruction → ℕ → Control ℕ
walk (mnemonic s) n =
    if str_eq s "JUMP" then jump "loop" n else if str_eq s "POP" then next (n + 1) else halt n
walk _ n = next (n + 1)

prune_unused_jumpdests-assembly_to_evm_example :
    assembly_to_evm 4 (prune_unused_jumpdests code).0 ≢ err key_error
prune_unused_jumpdests-assembly_to_evm_example =
    prune_unused_jumpdests-assembly_to_evm 4 code
      (0x61 ∷ 0 ∷ 5 ∷ 0x56 ∷ 0x50 ∷ 0x5b ∷ 0x61 ∷ 0 ∷ 12 ∷ 0x00 ∷ 0x5b ∷ 0x5b ∷ []) assembled

swaps_at_the_end :
    stack_peephole_opts (mnemonic "SWAP1" ∷ mnemonic "SWAP1" ∷ mnemonic "SWAP1" ∷ [])
    ≡ err index_error
unfolding stack_peephole_opts peephole_from rewritten is_op peephole_round drop_commuted drop_swaps
    same_swap one_of
swaps_at_the_end = refl

-- Addition of words, and nothing else but the stack.
abbrev addition : Other (Unit {0})
addition (mnemonic s) (a ∷ b ∷ rest) w =
    if str_eq s "ADD" then some (ready ((a + b) % 2 ^ 256 ∷ rest) w) else none
addition _ _ _ = none

addition_commutes :
    (s : String) (a b : ℕ) (stack : List ℕ) (w : Unit {0})
    → commutative (mnemonic s) ≡ true
    → addition (mnemonic s) (a ∷ b ∷ stack) w ≡ addition (mnemonic s) (b ∷ a ∷ stack) w
addition_commutes s a b stack w h = let e : a + b ≡ b + a = omega arith in rw e refl

abbrev sum : Assembly
sum = mnemonic "DUP1" ∷ mnemonic "SWAP2" ∷ mnemonic "SWAP1" ∷ mnemonic "ADD" ∷ mnemonic "POP" ∷ []

abbrev shorter_sum : Assembly
shorter_sum = mnemonic "SWAP1" ∷ mnemonic "DUP2" ∷ mnemonic "ADD" ∷ mnemonic "POP" ∷ []

shortened : stack_peephole_opts sum ≡ ok (shorter_sum, true)
unfolding stack_peephole_opts peephole_from rewritten is_op peephole_round drop_commuted drop_copied
    drop_swaps same_swap one_of commutative keep_first keep mark_changed
shortened = refl

runs : run_items (λ l. 0) addition sum (ready (3 ∷ 4 ∷ []) tt) ≡ some (ready (3 ∷ []) tt)
unfolding run_items run_item do_mnemonic stack_op do_op do_dup do_swap do_pop with_stack
runs = refl

stack_peephole_opts-run_items_example :
    run_items (λ l. 0) addition shorter_sum (ready (3 ∷ 4 ∷ []) tt) ≡ some (ready (3 ∷ []) tt)
stack_peephole_opts-run_items_example =
    stack_peephole_opts-run_items (λ l. 0) addition addition_commutes sum (shorter_sum, true)
      (ready (3 ∷ 4 ∷ []) tt) (ready (3 ∷ []) tt) shortened runs
