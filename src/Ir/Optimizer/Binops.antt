-- ===== src/Ir/Optimizer/Binops.antt =====
-- vyper/ir/optimizer.py: `_optimize_binop` keeps the value of the node, or where only its truth
-- counts, that.
use native.Mathlib.Nat.{mul_comm}
use vysvm.Ir.Optimizer.Arguments.{
  exponents-IsRight, truthy_rules-IsRight, equal_arguments-IsRight, complement-IsRight,
  eval-conservative_eq,
}
use vysvm.Ir.Arith.{
  Binop, is_commutative, add, mul, eq_op, ne_op, and_op, or_op, xor_op, is_comparison,
}
use vysvm.Ir.Optimizer.Soundness.{IsRight, or_else-IsRight, and_left}
use vysvm.Ir.Optimizer.Rules.{
  ◌or_else◌, rules, arithmetic_rules, optimize_binop, is_truthy, truthy_rules, neutral_zero,
  equal_arguments, absorbing_zero, modulo_one, neutral_one, minus_one, all_ones, complement,
  exponents, power_of_two, finalized, eq_zero, ne_zero, eq_max, optimize_other,
}
use vysvm.Ir.Optimizer.Meaning.{Reads, Agrees, Env, eval, eval_value, eval-build, Agrees-eq}
use vysvm.Ir.Optimizer.Term.{Term, finalize, build}
use vysvm.Ir.Node.{no_nodes, IrNode, ir_node, number, text}
use vysvm.Ir.Arith.Words.{evm}
use vysvm.Common.{
  Bool, ℕ, Option, ◌<◌, ◌^◌, ◌≡◌, true, arith, if◌then◌else◌, none, false, some, refl, not,
  Bool-cases, inl, inr, sym, ◌&&◌,
}
use vysvm.Venom.ConstantEval.Folding.{truth, evm_word}
use vysvm.Ir.Optimizer.Literals.{conservative_eq, is_int}
use Prim.Native.String.{String}
use vysvm.Common.Bits.{bit_and_comm, bit_or_comm, bit_xor_comm}
use vysvm.Common.Errors.{ok, ◌>>=◌}
use vysvm.Ir.Optimizer.Arithmetic.{
  neutral_zero-IsRight, absorbing_zero-IsRight, modulo_one-IsRight, neutral_one-IsRight,
  minus_one-IsRight, all_ones-IsRight, power_of_two-IsRight, eq_zero-IsRight, ne_zero-IsRight,
  weaken, eq_max-IsRight,
}
use vysvm.Venom.ConstantEval.Words.{IsLiteral}
use vysvm.Ir.Optimizer.Comparison.{comparison_helper}
use vysvm.Ir.Optimizer.CompareRules.{comparison_helper-Settles}
use vysvm.Ir.Optimizer.ComparisonSoundness.{Settles}
use vysvm.Ir.Arith.Constants.{fold-evm}

commutes : (o : Binop) (x y : ℕ) → is_commutative o ≡ true → evm o x y ≡ evm o y x
unfolding evm evm_word is_commutative truth
commutes add x y h = ground arith
commutes mul x y h = rw (mul_comm x y) refl
commutes eq_op x y h = ground arith
commutes ne_op x y h = ground arith
commutes and_op x y h = bit_and_comm x y
commutes or_op x y h = bit_or_comm x y
commutes xor_op x y h = bit_xor_comm x y
commutes _ x y h = cc

module _ (truthy : Bool) (o : Binop) (x y : ℕ) where
  first :
      (r s : Option Term)
      → IsRight truthy o x y r
      → IsRight truthy o x y s
      → IsRight truthy o x y (r or_else s)
  first r s p q = or_else-IsRight truthy o x y r s p q

module _ (version : ℕ) (o : Binop) (x y : ℕ) (p : x < 2 ^ 256) (q : y < 2 ^ 256) (a b : IrNode)
    (l : Reads a x) (r : Reads b y) (same : conservative_eq version a b ≡ true → x ≡ y)
    (parent_op : Option String) where
  truthy-IsRight :
      (truthy : Bool) → IsRight truthy o x y (if truthy then truthy_rules o b parent_op else none)
  truthy-IsRight true = truthy_rules-IsRight o x y b parent_op r
  truthy-IsRight false = tt

  arithmetic_rules-IsRight :
      IsRight (is_truthy parent_op) o x y (arithmetic_rules version o a b parent_op)
  unfolding arithmetic_rules
  arithmetic_rules-IsRight =
      let t = is_truthy parent_op in
      let c = first t o x y in
      c (neutral_zero o b) _ (neutral_zero-IsRight t o x y p q b r) (
        c (equal_arguments o a b (conservative_eq version a b)) _
          (equal_arguments-IsRight t o x y p q a b l r (conservative_eq version a b) same)
          (c (absorbing_zero o b) _ (absorbing_zero-IsRight t o x y p q b r) (
            c (modulo_one o b) _ (modulo_one-IsRight t o x y p q b r) (
              c (neutral_one o b) _ (neutral_one-IsRight t o x y p q b r) (
                c (minus_one o b) _ (minus_one-IsRight t o x y p q b r) (
                  c (all_ones o b) _ (all_ones-IsRight t o x y p q b r) (
                    c (complement o a b) _ (complement-IsRight t o x y p q a b l r) (
                      c (exponents o a b) _ (exponents-IsRight t o x y p q a b l r) (
                        c (power_of_two o b) _ (power_of_two-IsRight t o x y p q b r) (
                          c (eq_zero o b) _ (eq_zero-IsRight t o x y p q b r) (
                            c (ne_zero o b) _ (ne_zero-IsRight t o x y p q b r) (
                              c (eq_max o b) _ (eq_max-IsRight t o x y p q b r)
                                (truthy-IsRight t)))))))))))))

  after_arithmetic :
      (t : Option Term)
      → IsRight (is_truthy parent_op) o x y t
      → (s : Option Term) × ((elim t [
        | some u ↦ ok (some u)
        | none ↦
            if is_comparison o then comparison_helper o a b (not (is_truthy parent_op)) else ok none
      ])
          ≡ ok s)
        × IsRight (is_truthy parent_op) o x y s
  unfolding Settles
  after_arithmetic (some t) h = (some t, refl, h)
  after_arithmetic none h = elim (Bool-cases (is_comparison o)) [
    | inl c ↦
        let (s, e, k) = comparison_helper-Settles o c x y p q a b l r (not (is_truthy parent_op)) in
        rw (c, e) (s, refl, weaken (is_truthy parent_op) o x y s k)
    | inr c ↦ rw c (none, refl, tt)
  ]

  pub rules-IsRight :
      (s : Option Term) × (rules version o a b parent_op ≡ ok s)
      × IsRight (is_truthy parent_op) o x y s
  unfolding rules
  rules-IsRight =
      after_arithmetic (arithmetic_rules version o a b parent_op) arithmetic_rules-IsRight

-- An integer that a node can have.
unfoldable pub InBounds : IrNode → Type 0
InBounds (ir_node (number v) args empty) = IsLiteral v
InBounds (ir_node (text s) args empty) = Unit

reads : (env : Env) (n : IrNode) → InBounds n → Reads n (eval env n)
unfolding InBounds Reads eval eval_value
reads env (ir_node (number v) args empty) l = (l, refl)
reads env (ir_node (text s) args empty) l = tt

-- The new node, if there is one, is as good as the operation.
pub Keeps : Env → Binop → IrNode → IrNode → Option String → Option IrNode → Type 0
Keeps env o a b parent_op none = Unit
Keeps env o a b parent_op (some n) =
    Agrees (is_truthy parent_op) (eval env n) (evm o (eval env a) (eval env b))

module _ (env : Env) (version : ℕ) (o : Binop) (parent_op : Option String) where
  -- The rewriting may be dropped.
  dropped :
      (a b : IrNode) (t : Term) (c : Bool)
      → IsRight (is_truthy parent_op) o (eval env a) (eval env b) (some t)
      → Keeps env o a b parent_op
          (elim (if c then none else some t) [ none ↦ none | some u ↦ some (build u a b) ])
  unfolding Keeps
  dropped a b t true h = tt
  dropped a b t false h = rw (eval-build env t a b) h

  finalized-Keeps :
      (a b : IrNode) (t : Option Term)
      → IsRight (is_truthy parent_op) o (eval env a) (eval env b) t
      → Keeps env o a b parent_op (finalized version a b t)
  unfolding finalized finalize Keeps
  finalized-Keeps a b none h = tt
  finalized-Keeps a b (some t) h = dropped a b t _ h

  Keeps-swapped :
      (a b : IrNode) (r : Option IrNode)
      → evm o (eval env a) (eval env b) ≡ evm o (eval env b) (eval env a)
      → Keeps env o a b parent_op r
      → Keeps env o b a parent_op r
  unfolding Keeps
  Keeps-swapped a b none e h = tt
  Keeps-swapped a b (some n) e h = rw (sym e) h

  module _ (a b : IrNode) (p : eval env a < 2 ^ 256) (q : eval env b < 2 ^ 256) (l : InBounds a)
      (m : InBounds b) where
    straight :
        (r : Option IrNode) × ((rules version o a b parent_op >>= λ t. ok (finalized version a b t))
          ≡ ok r)
        × Keeps env o a b parent_op r
    straight =
        let (t, e, h) =
          rules-IsRight version o (eval env a) (eval env b) p q a b (reads env a l) (reads env b m)
            (eval-conservative_eq env version a b) parent_op in
        rw e (finalized version a b t, refl, finalized-Keeps a b t h)

  module _ (a b : IrNode) (p : eval env a < 2 ^ 256) (q : eval env b < 2 ^ 256) (l : InBounds a)
      (m : InBounds b) where
    other-Keeps :
        (r : Option IrNode) × (optimize_other version o a b parent_op ≡ ok r)
        × Keeps env o a b parent_op r
    unfolding optimize_other
    other-Keeps = elim (Bool-cases (is_commutative o && is_int a)) [
      | inl c ↦
          let (r, e, h) = straight b a q p m l in
          let d = commutes o (eval env b) (eval env a) (and_left _ (is_int a) c) in
          rw c (r, e, Keeps-swapped b a r d h)
      | inr c ↦ rw c (straight a b p q l m)
    ]

-- For arguments that evaluate to words, with integers in the bounds of a node, `_optimize_binop`
-- raises nothing, and the node that it returns, if any, has the value of the operation on the
-- words; under an operation that only asks for truth it is zero exactly if that value is.
pub optimize_binop-Keeps :
    (env : Env) (version : ℕ) (o : Binop) (a b : IrNode) (parent_op : Option String)
    → eval env a < 2 ^ 256
    → eval env b < 2 ^ 256
    → InBounds a
    → InBounds b
    → (r : Option IrNode) × (optimize_binop version o a b parent_op ≡ ok r)
      × Keeps env o a b parent_op r
unfolding optimize_binop InBounds Keeps eval eval_value
optimize_binop-Keeps env version o (ir_node (number v) xs e) (ir_node (number w) ys f) parent_op p q
      l m =
    let (r, g, d, i) = fold-evm o v w l m in
    let n : IrNode = ir_node (number r) no_nodes false in
    rw g (some n, refl, Agrees-eq (is_truthy parent_op) _ _ d)
optimize_binop-Keeps env version o (ir_node (number v) xs e) (ir_node (text s) ys f) parent_op p q l
      m =
    other-Keeps env version o parent_op (ir_node (number v) xs e) (ir_node (text s) ys f) p q l m
optimize_binop-Keeps env version o (ir_node (text t) xs e) b parent_op p q l m =
    other-Keeps env version o parent_op (ir_node (text t) xs e) b p q l m
