-- ===== src/Evm/StackNames.antt =====
-- The EVM's mnemonics for the stack, in the order of their numbers: the table in
-- vyper/evm/opcodes.py spells them out, and code generation makes them from the number.
use Prim.Native.String.{String}
use vysvm.Common.{List, ◌∷◌, []}

-- From SWAP1 and from DUP1 on.
abbrev pub swap_names : List String
swap_names =
    "SWAP1" ∷ "SWAP2" ∷ "SWAP3" ∷ "SWAP4" ∷ "SWAP5" ∷ "SWAP6" ∷ "SWAP7" ∷ "SWAP8" ∷ "SWAP9"
    ∷ "SWAP10" ∷ "SWAP11" ∷ "SWAP12" ∷ "SWAP13" ∷ "SWAP14" ∷ "SWAP15" ∷ "SWAP16" ∷ []

abbrev pub dup_names : List String
dup_names =
    "DUP1" ∷ "DUP2" ∷ "DUP3" ∷ "DUP4" ∷ "DUP5" ∷ "DUP6" ∷ "DUP7" ∷ "DUP8" ∷ "DUP9" ∷ "DUP10"
    ∷ "DUP11" ∷ "DUP12" ∷ "DUP13" ∷ "DUP14" ∷ "DUP15" ∷ "DUP16" ∷ []

-- From PUSH0 on.
abbrev pub push_names : List String
push_names =
    "PUSH0" ∷ "PUSH1" ∷ "PUSH2" ∷ "PUSH3" ∷ "PUSH4" ∷ "PUSH5" ∷ "PUSH6" ∷ "PUSH7" ∷ "PUSH8"
    ∷ "PUSH9" ∷ "PUSH10" ∷ "PUSH11" ∷ "PUSH12" ∷ "PUSH13" ∷ "PUSH14" ∷ "PUSH15" ∷ "PUSH16"
    ∷ "PUSH17" ∷ "PUSH18" ∷ "PUSH19" ∷ "PUSH20" ∷ "PUSH21" ∷ "PUSH22" ∷ "PUSH23" ∷ "PUSH24"
    ∷ "PUSH25" ∷ "PUSH26" ∷ "PUSH27" ∷ "PUSH28" ∷ "PUSH29" ∷ "PUSH30" ∷ "PUSH31" ∷ "PUSH32" ∷ []
