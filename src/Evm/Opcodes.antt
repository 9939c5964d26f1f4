-- ===== src/Evm/Opcodes.antt =====
-- vyper/evm/opcodes.py: the table of opcodes and its version of each EVM ruleset.
-- The opcodes of the intermediate representation are in Pseudo.
pub mod Bytes
pub mod Pseudo
use Prim.Native.String.{String}
use vysvm.Common.Eq.{String_Eq}
use vysvm.Common.{ℕ, Option, List, ◌∷◌, some, none, ◌++◌, get_elem?, []}

-- The gas cost is one number, or one for each EVM version, absent where the version has no such opcode.
pub data GasCost : Type 0 where
  flat : ℕ → GasCost
  by_version : List (Option ℕ) → GasCost

pub record OpcodeValue : Type 0 where
  pub opcode : Option ℕ
  pub pops : ℕ
  pub pushes : ℕ
  pub gas : GasCost

pub record OpcodeRulesetValue : Type 0 where
  pub opcode : Option ℕ
  pub pops : ℕ
  pub pushes : ℕ
  pub gas : ℕ

-- The versions by their index.
abbrev pub evm_versions : List String
evm_versions = "london" ∷ "paris" ∷ "shanghai" ∷ "cancun" ∷ "prague" ∷ []

abbrev entry : String → ℕ → ℕ → ℕ → GasCost → String × OpcodeValue
entry name code m n g = (name, record { opcode = some code; pops = m; pushes = n; gas = g })

pub opcodes_arithmetic : List (String × OpcodeValue)
opcodes_arithmetic =
    entry "STOP" 0x00 0 0 (flat 0)
    ∷ entry "ADD" 0x01 2 1 (flat 3)
    ∷ entry "MUL" 0x02 2 1 (flat 5)
    ∷ entry "SUB" 0x03 2 1 (flat 3)
    ∷ entry "DIV" 0x04 2 1 (flat 5)
    ∷ entry "SDIV" 0x05 2 1 (flat 5)
    ∷ entry "MOD" 0x06 2 1 (flat 5)
    ∷ entry "SMOD" 0x07 2 1 (flat 5)
    ∷ entry "ADDMOD" 0x08 3 1 (flat 8)
    ∷ entry "MULMOD" 0x09 3 1 (flat 8)
    ∷ entry "EXP" 0x0a 2 1 (flat 10)
    ∷ entry "SIGNEXTEND" 0x0b 2 1 (flat 5)
    ∷ entry "LT" 0x10 2 1 (flat 3)
    ∷ entry "GT" 0x11 2 1 (flat 3)
    ∷ entry "SLT" 0x12 2 1 (flat 3)
    ∷ entry "SGT" 0x13 2 1 (flat 3)
    ∷ entry "EQ" 0x14 2 1 (flat 3)
    ∷ entry "ISZERO" 0x15 1 1 (flat 3)
    ∷ entry "AND" 0x16 2 1 (flat 3)
    ∷ entry "OR" 0x17 2 1 (flat 3)
    ∷ entry "XOR" 0x18 2 1 (flat 3)
    ∷ entry "NOT" 0x19 1 1 (flat 3)
    ∷ entry "BYTE" 0x1a 2 1 (flat 3)
    ∷ entry "SHL" 0x1b 2 1 (flat 3)
    ∷ entry "SHR" 0x1c 2 1 (flat 3)
    ∷ entry "SAR" 0x1d 2 1 (flat 3)
    ∷ entry "SHA3" 0x20 2 1 (flat 30)
    ∷ []

pub opcodes_environment : List (String × OpcodeValue)
opcodes_environment =
    entry "ADDRESS" 0x30 0 1 (flat 2)
    ∷ entry "BALANCE" 0x31 1 1 (flat 700)
    ∷ entry "ORIGIN" 0x32 0 1 (flat 2)
    ∷ entry "CALLER" 0x33 0 1 (flat 2)
    ∷ entry "CALLVALUE" 0x34 0 1 (flat 2)
    ∷ entry "CALLDATALOAD" 0x35 1 1 (flat 3)
    ∷ entry "CALLDATASIZE" 0x36 0 1 (flat 2)
    ∷ entry "CALLDATACOPY" 0x37 3 0 (flat 3)
    ∷ entry "CODESIZE" 0x38 0 1 (flat 2)
    ∷ entry "CODECOPY" 0x39 3 0 (flat 3)
    ∷ entry "GASPRICE" 0x3a 0 1 (flat 2)
    ∷ entry "EXTCODESIZE" 0x3b 1 1 (flat 2600)
    ∷ entry "EXTCODECOPY" 0x3c 4 0 (flat 2600)
    ∷ entry "RETURNDATASIZE" 0x3d 0 1 (flat 2)
    ∷ entry "RETURNDATACOPY" 0x3e 3 0 (flat 3)
    ∷ entry "EXTCODEHASH" 0x3f 1 1 (flat 2600)
    ∷ entry "BLOCKHASH" 0x40 1 1 (flat 20)
    ∷ entry "COINBASE" 0x41 0 1 (flat 2)
    ∷ entry "TIMESTAMP" 0x42 0 1 (flat 2)
    ∷ entry "NUMBER" 0x43 0 1 (flat 2)
    ∷ entry "DIFFICULTY" 0x44 0 1 (flat 2)
    ∷ entry "PREVRANDAO" 0x44 0 1 (flat 2)
    ∷ entry "GASLIMIT" 0x45 0 1 (flat 2)
    ∷ entry "CHAINID" 0x46 0 1 (flat 2)
    ∷ entry "SELFBALANCE" 0x47 0 1 (flat 5)
    ∷ entry "BASEFEE" 0x48 0 1 (flat 2)
    ∷ entry "BLOBHASH" 0x49 1 1 (by_version (none ∷ none ∷ none ∷ some 3 ∷ some 3 ∷ []))
    ∷ entry "BLOBBASEFEE" 0x4a 0 1 (by_version (none ∷ none ∷ none ∷ some 2 ∷ some 2 ∷ []))
    ∷ entry "POP" 0x50 1 0 (flat 2)
    ∷ entry "MLOAD" 0x51 1 1 (flat 3)
    ∷ entry "MSTORE" 0x52 2 0 (flat 3)
    ∷ entry "MSTORE8" 0x53 2 0 (flat 3)
    ∷ entry "SLOAD" 0x54 1 1 (flat 2100)
    ∷ entry "SSTORE" 0x55 2 0 (flat 20000)
    ∷ entry "JUMP" 0x56 1 0 (flat 8)
    ∷ entry "JUMPI" 0x57 2 0 (flat 10)
    ∷ entry "PC" 0x58 0 1 (flat 2)
    ∷ entry "MSIZE" 0x59 0 1 (flat 2)
    ∷ entry "GAS" 0x5a 0 1 (flat 2)
    ∷ entry "JUMPDEST" 0x5b 0 0 (flat 1)
    ∷ []

pub opcodes_push : List (String × OpcodeValue)
opcodes_push =
    entry "MCOPY" 0x5e 3 0 (by_version (none ∷ none ∷ none ∷ some 3 ∷ some 3 ∷ []))
    ∷ entry "PUSH0" 0x5f 0 1 (flat 2)
    ∷ entry "PUSH1" 0x60 0 1 (flat 3)
    ∷ entry "PUSH2" 0x61 0 1 (flat 3)
    ∷ entry "PUSH3" 0x62 0 1 (flat 3)
    ∷ entry "PUSH4" 0x63 0 1 (flat 3)
    ∷ entry "PUSH5" 0x64 0 1 (flat 3)
    ∷ entry "PUSH6" 0x65 0 1 (flat 3)
    ∷ entry "PUSH7" 0x66 0 1 (flat 3)
    ∷ entry "PUSH8" 0x67 0 1 (flat 3)
    ∷ entry "PUSH9" 0x68 0 1 (flat 3)
    ∷ entry "PUSH10" 0x69 0 1 (flat 3)
    ∷ entry "PUSH11" 0x6a 0 1 (flat 3)
    ∷ entry "PUSH12" 0x6b 0 1 (flat 3)
    ∷ entry "PUSH13" 0x6c 0 1 (flat 3)
    ∷ entry "PUSH14" 0x6d 0 1 (flat 3)
    ∷ entry "PUSH15" 0x6e 0 1 (flat 3)
    ∷ entry "PUSH16" 0x6f 0 1 (flat 3)
    ∷ entry "PUSH17" 0x70 0 1 (flat 3)
    ∷ entry "PUSH18" 0x71 0 1 (flat 3)
    ∷ entry "PUSH19" 0x72 0 1 (flat 3)
    ∷ entry "PUSH20" 0x73 0 1 (flat 3)
    ∷ entry "PUSH21" 0x74 0 1 (flat 3)
    ∷ entry "PUSH22" 0x75 0 1 (flat 3)
    ∷ entry "PUSH23" 0x76 0 1 (flat 3)
    ∷ entry "PUSH24" 0x77 0 1 (flat 3)
    ∷ entry "PUSH25" 0x78 0 1 (flat 3)
    ∷ entry "PUSH26" 0x79 0 1 (flat 3)
    ∷ entry "PUSH27" 0x7a 0 1 (flat 3)
    ∷ entry "PUSH28" 0x7b 0 1 (flat 3)
    ∷ entry "PUSH29" 0x7c 0 1 (flat 3)
    ∷ entry "PUSH30" 0x7d 0 1 (flat 3)
    ∷ entry "PUSH31" 0x7e 0 1 (flat 3)
    ∷ entry "PUSH32" 0x7f 0 1 (flat 3)
    ∷ []

pub opcodes_stack : List (String × OpcodeValue)
opcodes_stack =
    entry "DUP1" 0x80 1 2 (flat 3)
    ∷ entry "DUP2" 0x81 1 2 (flat 3)
    ∷ entry "DUP3" 0x82 1 2 (flat 3)
    ∷ entry "DUP4" 0x83 1 2 (flat 3)
    ∷ entry "DUP5" 0x84 1 2 (flat 3)
    ∷ entry "DUP6" 0x85 1 2 (flat 3)
    ∷ entry "DUP7" 0x86 1 2 (flat 3)
    ∷ entry "DUP8" 0x87 1 2 (flat 3)
    ∷ entry "DUP9" 0x88 1 2 (flat 3)
    ∷ entry "DUP10" 0x89 1 2 (flat 3)
    ∷ entry "DUP11" 0x8a 1 2 (flat 3)
    ∷ entry "DUP12" 0x8b 1 2 (flat 3)
    ∷ entry "DUP13" 0x8c 1 2 (flat 3)
    ∷ entry "DUP14" 0x8d 1 2 (flat 3)
    ∷ entry "DUP15" 0x8e 1 2 (flat 3)
    ∷ entry "DUP16" 0x8f 1 2 (flat 3)
    ∷ entry "SWAP1" 0x90 2 2 (flat 3)
    ∷ entry "SWAP2" 0x91 2 2 (flat 3)
    ∷ entry "SWAP3" 0x92 2 2 (flat 3)
    ∷ entry "SWAP4" 0x93 2 2 (flat 3)
    ∷ entry "SWAP5" 0x94 2 2 (flat 3)
    ∷ entry "SWAP6" 0x95 2 2 (flat 3)
    ∷ entry "SWAP7" 0x96 2 2 (flat 3)
    ∷ entry "SWAP8" 0x97 2 2 (flat 3)
    ∷ entry "SWAP9" 0x98 2 2 (flat 3)
    ∷ entry "SWAP10" 0x99 2 2 (flat 3)
    ∷ entry "SWAP11" 0x9a 2 2 (flat 3)
    ∷ entry "SWAP12" 0x9b 2 2 (flat 3)
    ∷ entry "SWAP13" 0x9c 2 2 (flat 3)
    ∷ entry "SWAP14" 0x9d 2 2 (flat 3)
    ∷ entry "SWAP15" 0x9e 2 2 (flat 3)
    ∷ entry "SWAP16" 0x9f 2 2 (flat 3)
    ∷ entry "LOG0" 0xa0 2 0 (flat 375)
    ∷ entry "LOG1" 0xa1 3 0 (flat 750)
    ∷ entry "LOG2" 0xa2 4 0 (flat 1125)
    ∷ entry "LOG3" 0xa3 5 0 (flat 1500)
    ∷ entry "LOG4" 0xa4 6 0 (flat 1875)
    ∷ []

pub opcodes_system : List (String × OpcodeValue)
opcodes_system =
    entry "CREATE" 0xf0 3 1 (flat 32000)
    ∷ entry "CALL" 0xf1 7 1 (flat 2100)
    ∷ entry "CALLCODE" 0xf2 7 1 (flat 2100)
    ∷ entry "RETURN" 0xf3 2 0 (flat 0)
    ∷ entry "DELEGATECALL" 0xf4 6 1 (flat 2100)
    ∷ entry "CREATE2" 0xf5 4 1 (flat 32000)
    ∷ entry "SELFDESTRUCT" 0xff 1 0 (flat 25000)
    ∷ entry "STATICCALL" 0xfa 6 1 (flat 2100)
    ∷ entry "REVERT" 0xfd 2 0 (flat 0)
    ∷ entry "INVALID" 0xfe 0 0 (flat 0)
    ∷ entry "DEBUG" 0xa5 1 0 (flat 0)
    ∷ entry "BREAKPOINT" 0xa6 0 0 (flat 0)
    ∷ entry "TLOAD" 0x5c 1 1 (by_version (none ∷ none ∷ none ∷ some 100 ∷ some 100 ∷ []))
    ∷ entry "TSTORE" 0x5d 2 0 (by_version (none ∷ none ∷ none ∷ some 100 ∷ some 100 ∷ []))
    ∷ []

pub opcodes : List (String × OpcodeValue)
unfolding opcodes_arithmetic opcodes_environment opcodes_push opcodes_stack opcodes_system
opcodes =
    opcodes_arithmetic ++ opcodes_environment ++ opcodes_push ++ opcodes_stack ++ opcodes_system

abbrev last_cost : Option ℕ → List (Option ℕ) → Option ℕ
last_cost g [] = g
last_cost g (h ∷ gs) = last_cost h gs

-- A tuple that is too short stands for its last cost; `none` where there is no such opcode.
abbrev cost_at : ℕ → List (Option ℕ) → Option ℕ
cost_at idx gs = elim (get_elem? gs idx) [ some g ↦ g | none ↦ last_cost none gs ]

abbrev cost : GasCost → ℕ → Option ℕ
cost (flat g) idx = some g
cost (by_version gs) idx = cost_at idx gs

-- `_gas`
pub gas_value : OpcodeValue → ℕ → Option OpcodeRulesetValue
gas_value v idx = elim (cost v.gas idx) [
  | none ↦ none
  | some g ↦ some (record { opcode = v.opcode; pops = v.pops; pushes = v.pushes; gas = g })
]

pub keep_opcode :
    String
    → Option OpcodeRulesetValue
    → List (String × OpcodeRulesetValue)
    → List (String × OpcodeRulesetValue)
keep_opcode k none rest = rest
keep_opcode k (some g) rest = (k, g) ∷ rest

-- `_mk_version_opcodes`
pub mk_version_opcodes : List (String × OpcodeValue) → ℕ → List (String × OpcodeRulesetValue)
unfolding gas_value keep_opcode
mk_version_opcodes [] idx = []
mk_version_opcodes ((k, v) ∷ rest) idx =
    keep_opcode k (gas_value v idx) (mk_version_opcodes rest idx)

-- The ruleset of the active version.
unfoldable pub get_opcodes : ℕ → List (String × OpcodeRulesetValue)
unfolding opcodes mk_version_opcodes
get_opcodes version = mk_version_opcodes opcodes version
