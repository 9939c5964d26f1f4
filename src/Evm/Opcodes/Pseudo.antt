-- ===== src/Evm/Opcodes/Pseudo.antt =====
-- vyper/evm/opcodes.py: the opcodes of the IR.
use vysvm.Common.{Option, none, some, ◌&&◌, leb, Bool}
use vysvm.Common.Errors.{Result, ok, err, compiler_panic}
use vysvm.Evm.Opcodes.{get_opcodes, OpcodeRulesetValue}
use vysvm.Common.{ℕ, List, ◌∷◌, map, Option, [], ◌++◌, Bool}
use Prim.Native.String.{String}
use vysvm.Common.Errors.{Result}

-- The instructions of the IR that the EVM does not have: inputs, outputs and cost, without a byte.
pub record PseudoOpcode : Type 0 where
  pub inputs : ℕ
  pub outputs : ℕ
  pub gas_cost : ℕ

abbrev pseudo : String → ℕ → ℕ → ℕ → String × PseudoOpcode
pseudo name inputs outputs gas_cost =
    (name, record { inputs = inputs; outputs = outputs; gas_cost = gas_cost })

pub pseudo_opcodes : List (String × PseudoOpcode)
pseudo_opcodes =
    pseudo "CLAMP" 3 1 70
    ∷ pseudo "UCLAMPLT" 2 1 25
    ∷ pseudo "UCLAMPLE" 2 1 30
    ∷ pseudo "CLAMP_NONZERO" 1 1 19
    ∷ pseudo "ASSERT" 1 0 85
    ∷ pseudo "ASSERT_UNREACHABLE" 1 0 17
    ∷ pseudo "PASS" 0 0 0
    ∷ pseudo "DUMMY" 0 1 0
    ∷ pseudo "BREAK" 0 0 20
    ∷ pseudo "CLEANUP_REPEAT" 0 0 20
    ∷ pseudo "CONTINUE" 0 0 20
    ∷ pseudo "SHA3_32" 1 1 72
    ∷ pseudo "SHA3_64" 2 1 109
    ∷ pseudo "SLE" 2 1 10
    ∷ pseudo "SGE" 2 1 10
    ∷ pseudo "LE" 2 1 10
    ∷ pseudo "GE" 2 1 10
    ∷ pseudo "CEIL32" 1 1 20
    ∷ pseudo "SET" 2 0 20
    ∷ pseudo "NE" 2 1 6
    ∷ pseudo "DEBUGGER" 0 0 0
    ∷ pseudo "ILOAD" 1 1 6
    ∷ pseudo "ISTORE" 2 0 6
    ∷ pseudo "DLOAD" 1 1 9
    ∷ pseudo "DLOADBYTES" 3 0 3
    ∷ []

-- The names in `get_ir_opcodes`, for the EVM version with that number.
pub get_ir_opcodes : ℕ → List String
get_ir_opcodes version =
    map (λ (o : String × OpcodeRulesetValue). o.0) (get_opcodes version)
    ++ map (λ (o : String × PseudoOpcode). o.0) pseudo_opcodes

-- `version_check`, with the numbers of the versions; `none` where a bound is not given.
pub version_check : ℕ → Option ℕ → Option ℕ → Result Bool
version_check active none none = err compiler_panic
version_check active none (some end_idx) = ok (leb active end_idx)
version_check active (some begin_idx) none = ok (leb begin_idx active && leb active 4)
version_check active (some begin_idx) (some end_idx) =
    ok (leb begin_idx active && leb active end_idx)
