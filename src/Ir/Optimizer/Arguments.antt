-- ===== src/Ir/Optimizer/Arguments.antt =====
-- vyper/ir/optimizer.py: the rules that look at both arguments, and those for truth, are right.
use vysvm.Ir.Arith.{Binop, eq_op, ne_op, or_op, is_unsigned, evm_int, exp, sub, name_of}
use vysvm.Ir.Optimizer.Soundness.{
  IsRight, rule-IsRight, and_right, and_left, or_else-IsRight, complements, exp_zero, zero_exp,
  same_zero, one_exp, exp_one, strict_same, unstrict_same,
}
use vysvm.Ir.Optimizer.Rules.{rule, truthy_rules, complement, exponents, equal_arguments}
use vysvm.Ir.Optimizer.Meaning.{
  Reads, Agrees, Env, eval, eval_term, eqb_ℤ_sound, Reads-ones, Reads-small, Agrees-eq,
}
use vysvm.Ir.Optimizer.Term.{Term, seq, iszero, bit_not, binary, left, right, literal}
use vysvm.Ir.Node.{
  IrNode, IrValue, IrNodes, ir_node, number, text, no_nodes, followed_by, no_more, args_of,
  value_of,
}
use package.text.Mathlib.TextEquality.{eq_iff}
use vysvm.Ir.Optimizer.Literals.{eq_ir_value, conservative_eq, member, is_int, reads_as, eqb_ℤ}
use vysvm.Common.{
  Bool, ◌||◌, ℕ, ◌≡◌, ◌∷◌, ◌<◌, true, [], ◌^◌, bit_xor, ◌&&◌, Option, ap, ◌⊎◌, ◌==◌, not, refl, inl,
  Bool-cases, ◌≢◌, some, inr, none, sym, arith, ==_iff, false, ◌∙◌, bit_or,
}
use vysvm.Ir.Arith.Words.{evm}
use vysvm.Venom.ConstantEval.Folding.{truth}
use vysvm.Common.Int.{pos, ◌+ℤ◌, ℤ, negsuc}
use Prim.Native.String.{String}
use vysvm.Venom.ConstantEval.Words.{word_of, IsLiteral}
use vysvm.Common.Bits.{eq_of_bit_xor, bit_xor_self, zero_of_bit_or}
use vysvm.Ir.Optimizer.Arithmetic.{guarded}

eq_ir_value_sound : (v w : IrValue) → eq_ir_value v w ≡ true → v ≡ w
unfolding eq_ir_value
eq_ir_value_sound (number a) (number b) h = ap number (eqb_ℤ_sound a b h)
eq_ir_value_sound (text s) (text t) h = ap text ((eq_iff s t).0 h)
eq_ir_value_sound (number a) (text t) h = cc
eq_ir_value_sound (text s) (number b) h = cc

no_more_sound : (ns : IrNodes) → no_more ns ≡ true → ns ≡ no_nodes
unfolding no_more
no_more_sound no_nodes h = refl
no_more_sound (followed_by n ns) h = cc

first_three : (a b c d : Bool) → (a && b && c && d) ≡ true → (a ≡ true) × (b ≡ true) × (c ≡ true)
first_three a b c d h = ground arith

-- Arguments that pass for equal have the same value.
pub eval-conservative_eq :
    (env : Env) (version : ℕ) (a b : IrNode)
    → conservative_eq version a b ≡ true
    → eval env a ≡ eval env b
unfolding conservative_eq eval args_of value_of
eval-conservative_eq env version (ir_node v ms e) (ir_node w ns f) h =
    let (i, j, k) = first_three (no_more ms) (no_more ns) (eq_ir_value v w) _ h in
    let l = no_more_sound ms i in
    let m = no_more_sound ns j in let d = eq_ir_value_sound v w k in cc

exp_only : (o : Binop) → member (exp ∷ []) o ≡ true → o ≡ exp
unfolding member name_of
exp_only exp h = refl
exp_only _ h = cc

sub_only : (o : Binop) → member (sub ∷ []) o ≡ true → o ≡ sub
unfolding member name_of
sub_only sub h = refl
sub_only _ h = cc

either : (a b : Bool) → (a || b) ≡ true → (a ≡ true) ⊎ (b ≡ true)
either true b h = inl refl
either false b h = inr h

module _ (truthy : Bool) (o : Binop) (x y : ℕ) (p : x < 2 ^ 256) (q : y < 2 ^ 256) (a b : IrNode)
    (l : Reads a x) (r : Reads b y) where
  pub complement-IsRight : IsRight truthy o x y (complement o a b)
  unfolding complement eval_term
  complement-IsRight = rule-IsRight truthy o x y _ (bit_not right) (λ c.
      let e = Reads-ones a x l p (and_right (member (sub ∷ []) o) _ c) in
      rw (e, sub_only o (and_left _ (reads_as false (negsuc 0) a) c)) (sym (complements x y p q)))

  exponent_rule :
      (c : Bool) (t : Term)
      → (c ≡ true → eval_term t x y ≡ evm exp x y)
      → IsRight truthy o x y (rule (member (exp ∷ []) o && c) t)
  exponent_rule c t h =
      rule-IsRight truthy o x y _ t (λ d. rw (exp_only o (and_left _ c d)) (h (and_right _ c d)))

  -- One of the operands is zero or one.
  constant_exp :
      (u : Bool) → (reads_as u (pos 0) b || reads_as u (pos 1) a) ≡ true → 1 ≡ evm exp x y
  constant_exp u h = elim (either _ _ h) [
    | inl e ↦ rw (Reads-small u 0 b y r q (omega arith) e) (sym (exp_zero x y p q))
    | inr e ↦ rw (Reads-small u 1 a x l p (omega arith) e) (sym (one_exp x y p q))
  ]

  pub exponents-IsRight : IsRight truthy o x y (exponents o a b)
  unfolding exponents eval_term word_of
  exponents-IsRight =
      or_else-IsRight truthy o x y _ _
        (exponent_rule _ (literal (pos 1)) (constant_exp (is_unsigned o)))
        (or_else-IsRight truthy o x y _ _
          (exponent_rule _ (iszero right) (λ e.
            rw (Reads-small (is_unsigned o) 0 a x l p (omega arith) e) (sym (zero_exp x y p q))))
          (exponent_rule _ (seq left) (λ e.
            rw (Reads-small (is_unsigned o) 1 b y r q (omega arith) e) (sym (exp_one x y p q)))))

  same_rule :
      (same : Bool)
      → (same ≡ true → x ≡ y)
      → (c : Bool) (k : ℕ) → (c ≡ true → evm o x x ≡ k)
      → IsRight truthy o x y (rule (c && same) (literal (pos k)))
  unfolding eval_term word_of
  same_rule same h c k e =
      rule-IsRight truthy o x y _ (literal (pos k))
        (λ d. rw (sym (h (and_right c same d))) (sym (e (and_left c same d))))

  pub equal_arguments-IsRight :
      (same : Bool) → (same ≡ true → x ≡ y) → IsRight truthy o x y (equal_arguments o a b same)
  unfolding equal_arguments eval_term word_of
  equal_arguments-IsRight same h =
      or_else-IsRight truthy o x y _ _ (same_rule same h _ 0 (same_zero x y p q o)) (
        or_else-IsRight truthy o x y _ _ (same_rule same h _ 0 (strict_same x y p q o))
          (same_rule same h _ 1 (unstrict_same x y p q o)))

xor_test : (x y : ℕ) → truth (bit_xor x y == 0) ≡ evm eq_op x y
unfolding evm
xor_test x y = elim (Bool-cases (bit_xor x y == 0)) [
  | inl e ↦ let d = eq_of_bit_xor x y ((==_iff _ 0).0 e) in ap truth (e ∙ sym ((==_iff x y).1 d))
  | inr e ↦ elim (Bool-cases (x == y)) [
    | inl d ↦ absurd (ground (arith, bit_xor_self x))
    | inr d ↦ ap truth (e ∙ sym d)
  ]
]

literal_test :
    (v : ℤ) (y : ℕ)
    → IsLiteral v
    → y ≡ word_of v
    → not (eqb_ℤ (evm_int v true) (pos 0)) ≡ true
    → y ≢ 0
unfolding eqb_ℤ evm_int word_of IsLiteral ◌+ℤ◌
literal_test (pos n) y l e h = ground arith
literal_test (negsuc n) y l e h = ground arith

ne_test : (x y : ℕ) → truth (truth (x == y) == 0) ≡ evm ne_op x y
unfolding evm truth
ne_test x y = ground arith

nonzero_or : (x y : ℕ) → y ≢ 0 → (1 == 0) ≡ (bit_or x y == 0)
nonzero_or x y h = elim (Bool-cases (bit_or x y == 0)) [
  | inl e ↦ absurd (h (zero_of_bit_or x y ((==_iff _ 0).0 e)))
  | inr e ↦ sym e
]

nonzero_literal :
    (b : IrNode) (y : ℕ) → Reads b y → (is_int b && not (reads_as true (pos 0) b)) ≡ true → y ≢ 0
unfolding is_int reads_as Reads
nonzero_literal (ir_node (number v) args empty) y (l, e) h = literal_test v y l e h
nonzero_literal (ir_node (text s) args empty) y r h = cc

pub truthy_rules-IsRight :
    (o : Binop) (x y : ℕ) (b : IrNode) (parent_op : Option String)
    → Reads b y
    → IsRight true o x y (truthy_rules o b parent_op)
unfolding truthy_rules evm eval_term Agrees word_of
truthy_rules-IsRight eq_op x y b parent_op r = Agrees-eq true _ _ (xor_test x y)
truthy_rules-IsRight ne_op x y b (some s) r =
    rule-IsRight true ne_op x y _ (iszero (binary eq_op left right)) (λ c. ne_test x y)
truthy_rules-IsRight ne_op x y b none r = tt
truthy_rules-IsRight or_op x y b parent_op r =
    guarded true or_op x y _ (some (literal (pos 1)))
      (λ c. nonzero_or x y (nonzero_literal b y r c))
truthy_rules-IsRight _ x y b parent_op r = tt
