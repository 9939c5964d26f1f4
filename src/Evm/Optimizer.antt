-- ===== src/Evm/Optimizer.antt =====
-- vyper/evm/assembler/optimizer.py. Each loop walks the list in place with an index; here it walks
-- what is left of the list, and gives the list after it and whether it changed.
pub mod Control
pub mod Jumps
pub mod Lookups
pub mod Peephole
pub mod PeepholeLoop
pub mod PeepholeRules
pub mod PeepholeSoundness
pub mod Pruning
pub mod PruningSymbols
pub mod Reachable
pub mod Examples
use vysvm.Common.{
  List, Bool, true, false, ◌||◌, ℕ, length, ◌∷◌, Option, get_elem?, ◌-◌, suc, [], ◌&&◌, not,
  if◌then◌else◌, ◌+◌, zero, none, some, ltb,
}
use Prim.Native.String.{String}
use vysvm.Evm.Assembler.Instructions.{
  AssemblyInstruction, mnemonic, label, push_label, data_header, push_ofst, code_label, data_item,
  data_label,
}
use vysvm.Common.Eq.{str_eq}
use vysvm.Common.Errors.{Result, ◌>>=◌, err, ok, index_error, compiler_panic}
use vysvm.Evm.Optimizer.Jumps.{
  Assembly, Pass, prune_unreachable_code, merge_iszero, merge_jumpdests, prune_inefficient_jumps,
  optimize_inefficient_jumps, prune_unused_jumpdests,
}
use vysvm.Evm.Optimizer.Peephole.{stack_peephole_opts}

-- The passes of one round in the order of the source.
pub optimize_round : Assembly → Result Pass
optimize_round assembly =
    let (a1, c1) = prune_unreachable_code assembly in
    let (a2, c2) = merge_iszero a1 in
    let (a3, c3) = merge_jumpdests a2 in
    let (a4, c4) = prune_inefficient_jumps a3 in
    let (a5, c5) = optimize_inefficient_jumps a4 in
    let (a6, c6) = prune_unused_jumpdests a5 in
    stack_peephole_opts a6 >>= λ last. ok (last.0, c1 || c2 || c3 || c4 || c5 || c6 || last.1)

-- `for _ in range(1024)`
pub optimize_rounds : ℕ → Assembly → Result Assembly
optimize_rounds zero assembly = err compiler_panic
optimize_rounds (suc rounds) assembly = do
  result ← optimize_round assembly
  elim result.1 [ false ↦ ok result.0 | true ↦ optimize_rounds rounds result.0 ]

pub optimize_assembly : Assembly → Result Assembly
optimize_assembly assembly = optimize_rounds 1024 assembly
