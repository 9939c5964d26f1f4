-- ===== src/Venom/MemoryLocation/Access.antt =====
-- vyper/venom/memory_location.py: what a location keeps of operands fits their values at run time.
-- The values that the variables hold.
use Prim.Native.String.{String}
use vysvm.Venom.Operand.{IrOperand, literal, variable, ir_label}
use vysvm.Venom.MemoryLocation.{MemoryLocation}
use vysvm.Common.{ℕ, Option, some, none}
use vysvm.Common.Int.{ℤ, pos}

abbrev pub Env : Type 0
Env = String → ℕ

-- What an operand stands for, a literal for its integer; a label has no value here.
unfoldable pub operand_in : Env → IrOperand → Option ℤ
operand_in env (literal n) = some n
operand_in env (variable x) = some (pos (env x))
operand_in env (ir_label _) = none
