-- ===== src/Ir/Optimizer/Term.antt =====
-- vyper/ir/optimizer.py: the new value and arguments of a rewriting, before they become a node.
use vysvm.Ir.Arith.{Binop, name_of}
use vysvm.Common.Int.{ℤ}
use vysvm.Common.{Bool, ℕ, true, false, Option, ◌||◌, if◌then◌else◌, ◌&&◌, not, none, some}
use Prim.Native.String.{String}
use vysvm.Ir.Node.{IrNode, ir_node, text, number, no_nodes, is_complex_ir, followed_by}

-- `left` and `right` are the two arguments themselves, as objects.
pub data Term : Type 0 where
  left right : Term
  literal : ℤ → Term
  seq iszero bit_not : Term → Term
  shl shr : Term → Term → Term
  binary : Binop → Term → Term → Term

-- `_deep_contains(new_args, args[0])`
pub contains_left : Term → Bool
contains_left left = true
contains_left right = false
contains_left (literal _) = false
contains_left (seq t) = contains_left t
contains_left (iszero t) = contains_left t
contains_left (bit_not t) = contains_left t
contains_left (shl s t) = contains_left s || contains_left t
contains_left (shr s t) = contains_left s || contains_left t
contains_left (binary _ s t) = contains_left s || contains_left t

pub contains_right : Term → Bool
contains_right left = false
contains_right right = true
contains_right (literal _) = false
contains_right (seq t) = contains_right t
contains_right (iszero t) = contains_right t
contains_right (bit_not t) = contains_right t
contains_right (shl s t) = contains_right s || contains_right t
contains_right (shr s t) = contains_right s || contains_right t
contains_right (binary _ s t) = contains_right s || contains_right t

unfoldable pub unary : String → IrNode → IrNode
unary s a = ir_node (text s) (followed_by a no_nodes) false

unfoldable pub pair : String → IrNode → IrNode → IrNode
pair s a b = ir_node (text s) (followed_by a (followed_by b no_nodes)) false

-- `IRnode.from_list`
unfoldable pub build : Term → IrNode → IrNode → IrNode
build left a b = a
build right a b = b
build (literal v) a b = ir_node (number v) no_nodes false
build (seq t) a b = unary "seq" (build t a b)
build (iszero t) a b = unary "iszero" (build t a b)
build (bit_not t) a b = unary "not" (build t a b)
build (shl s t) a b = pair "shl" (build s a b) (build t a b)
build (shr s t) a b = pair "shr" (build s a b) (build t a b)
build (binary o s t) a b = pair (name_of o) (build s a b) (build t a b)

-- The rewriting is dropped if an argument that must be evaluated once is not in it.
unfoldable pub finalize : ℕ → IrNode → IrNode → Term → Option Term
finalize version a b t =
    if (is_complex_ir version a && not (contains_left t))
      || (is_complex_ir version b && not (contains_right t))
    then none
    else some t
