-- ===== src/Evm/Optimizer/Reachable.antt =====
-- vyper/evm/assembler/optimizer.py: what `_prune_unreachable_code` removes is never run.
use Prim.Native.String.{String}
use vysvm.Evm.Optimizer.Control.{Control}
