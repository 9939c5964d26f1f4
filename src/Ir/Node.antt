-- ===== src/Ir/Node.antt =====
-- vyper/codegen/ir_node.py: the nodes of the IR, by what the optimizer reads of them. The
-- constructor of the source refuses an integer below -2**255 or above 2**256 - 1.
use vysvm.Common.Int.{ℤ}
use vysvm.Common.{Bool, List, ℕ, false, ◌||◌, ◌∷◌, ◌&&◌, [], true, not}
use Prim.Native.String.{String}
use vysvm.Common.Eq.{str_eq}
use vysvm.Common.Text.{lower, upper}
use vysvm.Evm.Opcodes.Pseudo.{get_ir_opcodes}

pub data IrValue : Type 0 where
  number : ℤ → IrValue
  text : String → IrValue

mutual
  -- The flag is for a bytes literal of the source that has no bytes.
  pub data IrNode : Type 0 where
    ir_node : IrValue → IrNodes → Bool → IrNode

  pub data IrNodes : Type 0 where
    no_nodes : IrNodes
    followed_by : IrNode → IrNodes → IrNodes

unfoldable pub value_of : IrNode → IrValue
value_of (ir_node value args empty) = value

unfoldable pub args_of : IrNode → IrNodes
args_of (ir_node value args empty) = args

pub is_named : String → IrValue → Bool
is_named s (number _) = false
is_named s (text t) = str_eq t s

unfoldable pub no_more : IrNodes → Bool
no_more no_nodes = true
no_more (followed_by n ns) = false

mutual
  pub is_empty_intrinsic : IrNode → Bool
  is_empty_intrinsic (ir_node value args empty) =
      is_named "~empty" value || empty || (is_named "seq" value && only_empty args)

  -- A single node that is empty.
  pub only_empty : IrNodes → Bool
  only_empty no_nodes = false
  only_empty (followed_by n ns) = is_empty_intrinsic n && no_more ns

pub one_of_names : List String → String → Bool
one_of_names [] s = false
one_of_names (t ∷ ts) s = str_eq s t || one_of_names ts s

pub valid_ir_macros : List String
valid_ir_macros =
    "assert" ∷ "break" ∷ "iload" ∷ "istore" ∷ "dload" ∷ "dloadbytes" ∷ "ceil32" ∷ "continue"
    ∷ "debugger" ∷ "ge" ∷ "if" ∷ "select" ∷ "le" ∷ "deploy" ∷ "ne" ∷ "pass" ∷ "repeat" ∷ "seq"
    ∷ "set" ∷ "sge" ∷ "sha3_32" ∷ "sha3_64" ∷ "sle" ∷ "with" ∷ "label" ∷ "goto" ∷ "djump"
    ∷ "~extcode" ∷ "~selfcode" ∷ "~calldata" ∷ "~empty" ∷ "var_list" ∷ []

-- Whether the node must be evaluated exactly once, under an EVM version.
pub is_complex_ir : ℕ → IrNode → Bool
is_complex_ir version (ir_node (number _) args empty) = false
is_complex_ir version (ir_node (text s) args empty) =
    (one_of_names valid_ir_macros (lower s) || one_of_names (get_ir_opcodes version) (upper s))
    && not (one_of_names ("~empty" ∷ "calldatasize" ∷ "callvalue" ∷ []) (lower s))
    && not (is_empty_intrinsic (ir_node (text s) args empty))
