-- ===== src/Evm/Optimizer/Peephole.antt =====
-- vyper/evm/assembler/optimizer.py: `_stack_peephole_opts`.
use vysvm.Common.{
  List, Bool, true, false, ◌||◌, ℕ, length, ◌∷◌, Option, suc, [], ◌&&◌, if◌then◌else◌, zero, none,
  some, ltb,
}
use Prim.Native.String.{String}
use vysvm.Evm.Assembler.Instructions.{AssemblyInstruction, mnemonic}
use vysvm.Common.Eq.{str_eq}
use vysvm.Common.Errors.{Result, ◌>>=◌, err, ok, index_error}
use vysvm.Evm.Optimizer.Jumps.{one_of, Assembly, Pass, is_op, keep, mark_changed}

unfoldable pub commutative : AssemblyInstruction → Bool
commutative item = one_of ("ADD" ∷ "MUL" ∷ "EQ" ∷ "NE" ∷ "AND" ∷ "OR" ∷ "XOR" ∷ []) item

-- `assembly[i].startswith("SWAP")`, for the mnemonics of the opcode table.
abbrev pub swaps : List String
swaps =
    "SWAP1" ∷ "SWAP2" ∷ "SWAP3" ∷ "SWAP4" ∷ "SWAP5" ∷ "SWAP6" ∷ "SWAP7" ∷ "SWAP8" ∷ "SWAP9"
    ∷ "SWAP10" ∷ "SWAP11" ∷ "SWAP12" ∷ "SWAP13" ∷ "SWAP14" ∷ "SWAP15" ∷ "SWAP16" ∷ []

-- The three tests at the end of the round of `_stack_peephole_opts`, each on what the one before
-- left. The second item raises `IndexError` where there is none.
unfoldable pub same_swap : AssemblyInstruction → AssemblyInstruction → Bool
same_swap (mnemonic a) (mnemonic b) = str_eq a b && one_of swaps (mnemonic a)
same_swap _ _ = false

unfoldable pub drop_swaps : Assembly → Pass
drop_swaps (a ∷ b ∷ rest) = if same_swap a b then (rest, true) else (a ∷ b ∷ rest, false)
drop_swaps assembly = (assembly, false)

unfoldable pub drop_commuted : Assembly → Result Pass
drop_commuted [] = err index_error
drop_commuted (a ∷ []) = if is_op "SWAP1" a then err index_error else ok (a ∷ [], false)
drop_commuted (a ∷ b ∷ rest) =
    if is_op "SWAP1" a && commutative b then ok (b ∷ rest, true) else ok (a ∷ b ∷ rest, false)

unfoldable pub drop_copied : Assembly → Result Pass
drop_copied [] = err index_error
drop_copied (a ∷ []) = if is_op "DUP1" a then err index_error else ok (a ∷ [], false)
drop_copied (a ∷ b ∷ rest) =
    if is_op "DUP1" a && is_op "SWAP1" b then ok (a ∷ rest, true) else ok (a ∷ b ∷ rest, false)

unfoldable pub peephole_round : Assembly → Result Pass
peephole_round assembly = do
  second ← drop_commuted (drop_swaps assembly).0
  third ← drop_copied second.0
  ok (third.0, (drop_swaps assembly).1 || second.1 || third.1)

-- The sequences after which the round starts again at the same place.
unfoldable pub rewritten : Assembly → Option Assembly
rewritten (a ∷ b ∷ c ∷ rest) =
    if is_op "DUP1" a && is_op "SWAP2" b && is_op "SWAP1" c
    then some (mnemonic "SWAP1" ∷ mnemonic "DUP2" ∷ rest)
    else if is_op "DUP1" a && is_op "SWAP1" b && is_op "POP" c
    then some rest
    else if is_op "SWAP1" a && is_op "POP" b && is_op "POP" c
    then some (b ∷ c ∷ rest)
    else none
rewritten _ = none

unfoldable pub keep_first : Assembly → (Assembly → Result Pass) → Result Pass
keep_first [] loop = ok ([], false)
keep_first (a ∷ rest) loop = do result ← loop rest; ok (keep a result)

-- Each round shortens what is left, so that as many rounds as it has items are enough.
unfoldable pub peephole_from : ℕ → Assembly → Result Pass
peephole_from zero assembly = ok (assembly, false)
peephole_from (suc rounds) assembly =
    if ltb (length assembly) 3 then ok (assembly, false) else elim (rewritten assembly) [
      | some shorter ↦ peephole_from rounds shorter >>= λ result. ok (mark_changed result)
      | none ↦ peephole_round assembly >>= λ left.
          keep_first left.0 (peephole_from rounds) >>= λ result. ok (result.0, left.1 || result.1)
    ]

unfoldable pub stack_peephole_opts : Assembly → Result Pass
stack_peephole_opts assembly = peephole_from (length assembly) assembly
