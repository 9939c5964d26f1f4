-- ===== src/Ir/Optimizer/Meaning.antt =====
-- vyper/ir/optimizer.py: what terms and nodes compute, and when a rewriting is right.
use vysvm.Ir.Arith.{
  Binop, add, sub, mul, div, sdiv, op_mod, smod, exp, eq_op, ne_op, lt_op, le_op, gt_op, ge_op, slt,
  sle, sgt, sge, or_op, and_op, xor_op, name_of, binop_of, evm_int,
}
use vysvm.Venom.ConstantEval.Folding.{op_shl, op_shr, evm_word, truth}
use vysvm.Ir.Optimizer.Term.{
  Term, build, unary, pair, literal, seq, iszero, bit_not, shl, shr, binary, left, right,
}
use Prim.Native.String.{String}
use vysvm.Ir.Node.{IrValue, IrNode, IrNodes, ir_node, number, text, followed_by, no_nodes}
use vysvm.Common.{
  Bool, ℕ, ◌≡◌, List, false, ◌<◌, some, ◌∷◌, [], ◌==◌, true, ◌^◌, refl, if◌then◌else◌, arith, sym,
  ◌-◌, ◌∙◌, none,
}
use vysvm.Ir.Optimizer.Literals.{eqb_ℤ, reads_as}
use vysvm.Ir.Arith.Words.{read, evm_int-read, evm}
use vysvm.Venom.ConstantEval.Words.{signed_of, word_of, IsLiteral}
use vysvm.Common.Int.{ℤ, pos, negsuc}
use vysvm.Common.Eq.{str_eq}

-- A term on the words of the two arguments.
unfoldable pub eval_term : Term → ℕ → ℕ → ℕ
eval_term left x y = x
eval_term right x y = y
eval_term (literal v) x y = word_of v
eval_term (seq t) x y = eval_term t x y
eval_term (iszero t) x y = truth (eval_term t x y == 0)
eval_term (bit_not t) x y = 2 ^ 256 - 1 - eval_term t x y
eval_term (shl s t) x y = evm_word op_shl (eval_term s x y) (eval_term t x y)
eval_term (shr s t) x y = evm_word op_shr (eval_term s x y) (eval_term t x y)
eval_term (binary o s t) x y = evm o (eval_term s x y) (eval_term t x y)

-- What the nodes of other names evaluate to.
abbrev pub Env : Type 0
Env = String → IrNodes → ℕ

-- A node whose arguments evaluate to these words.
unfoldable pub eval_call : Env → String → IrNodes → List ℕ → ℕ
eval_call env s args (x ∷ []) =
    if str_eq s "seq"
    then x
    else if str_eq s "iszero"
    then truth (x == 0)
    else if str_eq s "not"
    then 2 ^ 256 - 1 - x
    else env s args
eval_call env s args (x ∷ y ∷ []) = elim (binop_of s) [
  | some o ↦ evm o x y
  | none ↦
      if str_eq s "shl"
      then evm_word op_shl x y
      else if str_eq s "shr"
      then evm_word op_shr x y
      else env s args
]
eval_call env s args _ = env s args

unfoldable pub eval_value : Env → IrValue → IrNodes → List ℕ → ℕ
eval_value env (number v) args xs = word_of v
eval_value env (text s) args xs = eval_call env s args xs

unfoldable mutual
  pub eval : Env → IrNode → ℕ
  eval env (ir_node value args empty) = eval_value env value args (eval_all env args)

  pub eval_all : Env → IrNodes → List ℕ
  eval_all env no_nodes = []
  eval_all env (followed_by n ns) = eval env n ∷ eval_all env ns

-- The value is kept, or where only its truth counts, that.
unfoldable pub Agrees : Bool → ℕ → ℕ → Type 0
Agrees true u v = (u == 0) ≡ (v == 0)
Agrees false u v = u ≡ v

pub Agrees-eq : (truthy : Bool) (u v : ℕ) → u ≡ v → Agrees truthy u v
unfolding Agrees
Agrees-eq true u v e = rw e refl
Agrees-eq false u v e = e

-- An argument that is an integer has the word that it stands for.
unfoldable pub Reads : IrNode → ℕ → Type 0
Reads (ir_node (number v) args empty) x = IsLiteral v × (x ≡ word_of v)
Reads (ir_node (text s) args empty) x = Unit

pub eqb_ℤ_sound : (a b : ℤ) → eqb_ℤ a b ≡ true → a ≡ b
unfolding eqb_ℤ
eqb_ℤ_sound a b h = ground arith

small_read : (u : Bool) (y k : ℕ) → y < 2 ^ 256 → k < 2 ^ 255 → read u y ≡ pos k → y ≡ k
unfolding read signed_of
small_read true y k p q e = cc
small_read false y k p q e = ground arith

minus_read : (y : ℕ) → y < 2 ^ 256 → read false y ≡ negsuc 0 → y ≡ 2 ^ 256 - 1
unfolding read signed_of
minus_read y p e = ground arith

-- An argument that passes the test for an integer has its word.
pub reads_as-read :
    (u : Bool) (k : ℤ) (n : IrNode) (y : ℕ) → Reads n y → reads_as u k n ≡ true → read u y ≡ k
unfolding Reads reads_as
reads_as-read u k (ir_node (number v) args empty) y (l, e) h =
    rw e (sym (evm_int-read v u l) ∙ eqb_ℤ_sound (evm_int v u) k h)
reads_as-read u k (ir_node (text s) args empty) y r h = cc

pub Reads-small :
    (u : Bool) (k : ℕ) (n : IrNode) (y : ℕ)
    → Reads n y
    → y < 2 ^ 256
    → k < 2 ^ 255
    → reads_as u (pos k) n ≡ true
    → y ≡ k
Reads-small u k n y r p q h = small_read u y k p q (reads_as-read u (pos k) n y r h)

pub Reads-ones :
    (n : IrNode) (y : ℕ)
    → Reads n y
    → y < 2 ^ 256
    → reads_as false (negsuc 0) n ≡ true
    → y ≡ 2 ^ 256 - 1
Reads-ones n y r p h = minus_read y p (reads_as-read false (negsuc 0) n y r h)

binop_of-name_of : (o : Binop) → binop_of (name_of o) ≡ some o
unfolding binop_of
binop_of-name_of add = refl
binop_of-name_of sub = refl
binop_of-name_of mul = refl
binop_of-name_of div = refl
binop_of-name_of sdiv = refl
binop_of-name_of op_mod = refl
binop_of-name_of smod = refl
binop_of-name_of exp = refl
binop_of-name_of eq_op = refl
binop_of-name_of ne_op = refl
binop_of-name_of lt_op = refl
binop_of-name_of le_op = refl
binop_of-name_of gt_op = refl
binop_of-name_of ge_op = refl
binop_of-name_of slt = refl
binop_of-name_of sle = refl
binop_of-name_of sgt = refl
binop_of-name_of sge = refl
binop_of-name_of or_op = refl
binop_of-name_of and_op = refl
binop_of-name_of xor_op = refl

module _ (env : Env) (args : IrNodes) (x y : ℕ) where
  call_shl : eval_call env "shl" args (x ∷ y ∷ []) ≡ evm_word op_shl x y
  unfolding eval_call binop_of
  call_shl = refl

  call_shr : eval_call env "shr" args (x ∷ y ∷ []) ≡ evm_word op_shr x y
  unfolding eval_call binop_of
  call_shr = refl

  call_binary : (o : Binop) → eval_call env (name_of o) args (x ∷ y ∷ []) ≡ evm o x y
  unfolding eval_call
  call_binary o = rw (binop_of-name_of o, eval_call) refl

module _ (env : Env) (args : IrNodes) (x : ℕ) where
  call_seq : eval_call env "seq" args (x ∷ []) ≡ x
  unfolding eval_call
  call_seq = refl

  call_iszero : eval_call env "iszero" args (x ∷ []) ≡ truth (x == 0)
  unfolding eval_call
  call_iszero = refl

  call_not : eval_call env "not" args (x ∷ []) ≡ 2 ^ 256 - 1 - x
  unfolding eval_call
  call_not = refl

-- A term becomes a node of the same value.
pub eval-build :
    (env : Env) (t : Term) (a b : IrNode)
    → eval env (build t a b) ≡ eval_term t (eval env a) (eval env b)
unfolding eval eval_value build eval_term unary pair
eval-build env left a b = refl
eval-build env right a b = refl
eval-build env (literal v) a b = refl
eval-build env (seq t) a b = call_seq env _ _ ∙ eval-build env t a b
eval-build env (iszero t) a b = rw (eval-build env t a b) (call_iszero env _ _)
eval-build env (bit_not t) a b = rw (eval-build env t a b) (call_not env _ _)
eval-build env (shl s t) a b = rw (eval-build env s a b, eval-build env t a b) (call_shl env _ _ _)
eval-build env (shr s t) a b = rw (eval-build env s a b, eval-build env t a b) (call_shr env _ _ _)
eval-build env (binary o s t) a b =
    rw (eval-build env s a b, eval-build env t a b) (call_binary env _ _ _ o)
