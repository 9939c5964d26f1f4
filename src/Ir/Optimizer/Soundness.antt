-- ===== src/Ir/Optimizer/Soundness.antt =====
-- vyper/ir/optimizer.py: each arithmetic rule keeps the value.
use native.Mathlib.Nat.{pow-zero}
use vysvm.Ir.Arith.{
  Binop, add, sub, mul, div, sdiv, op_mod, smod, exp, eq_op, ne_op, lt_op, le_op, gt_op, ge_op, slt,
  sle, sgt, sge, or_op, and_op, xor_op, name_of, is_strict, is_comparison,
}
use vysvm.Common.{
  Bool, ℕ, Option, ◌&&◌, ◌<◌, ◌≡◌, ◌^◌, none, true, some, false, refl, ◌∷◌, [], arith, ◌-◌, bit_and,
  bit_or, bit_xor, ◌*◌, ◌==◌, ◌+◌, ap, ◌||◌, ◌∙◌, sym, ◌%◌, suc, zero,
}
use vysvm.Ir.Optimizer.Term.{Term}
use vysvm.Ir.Optimizer.Rules.{◌or_else◌, rule, ones_term, is_unstrict}
use vysvm.Ir.Optimizer.Literals.{member}
use vysvm.Ir.Optimizer.Meaning.{Agrees, eval_term, Agrees-eq, Reads}
use vysvm.Ir.Arith.Words.{evm}
use vysvm.Venom.ConstantEval.Folding.{evm_word, truth}
use vysvm.Venom.ConstantEval.Signed.{
  evm_signed, magnitude, signed_word, differ, is_negative, signed_less,
}
use vysvm.Common.Bits.{
  bit_xor-zero, bit_and-zero, bit_or-zero, bit_or_mask, bit_xor_mask, bit_xor_self, bit_and_mask,
}
use vysvm.Ir.Node.{IrNode, ir_node, number, text}
use vysvm.Ir.Optimizer.Powers.{one_pow, pow_one, zero_pow}

-- The rewriting, if there is one, is right.
abbrev pub IsRight : Bool → Binop → ℕ → ℕ → Option Term → Type 0
IsRight truthy o x y r = elim r [
  | none ↦ Unit
  | some t ↦ Agrees truthy (eval_term t x y) (evm o x y)
]

pub or_else-IsRight :
    (truthy : Bool) (o : Binop) (x y : ℕ) (r s : Option Term)
    → IsRight truthy o x y r
    → IsRight truthy o x y s
    → IsRight truthy o x y (r or_else s)
or_else-IsRight truthy o x y none s p q = q
or_else-IsRight truthy o x y (some t) s p q = p

pub rule-IsRight :
    (truthy : Bool) (o : Binop) (x y : ℕ) (c : Bool) (t : Term)
    → (c ≡ true → eval_term t x y ≡ evm o x y)
    → IsRight truthy o x y (rule c t)
rule-IsRight truthy o x y true t h = Agrees-eq truthy _ _ (h refl)
rule-IsRight truthy o x y false t h = tt

pub and_left : (a b : Bool) → (a && b) ≡ true → a ≡ true
and_left true b h = refl
and_left false b h = cc

pub and_right : (a b : Bool) → (a && b) ≡ true → b ≡ true
and_right true b h = h
and_right false b h = cc

-- An operand of ones: the mask laws at 256 digits.
ones_and : (x : ℕ) → x < 2 ^ 256 → bit_and x (2 ^ 256 - 1) ≡ x
ones_and x h =
    let e : x ≡ 0 * 2 ^ 256 + x = omega arith in
    ap (λ (t : ℕ). bit_and t (2 ^ 256 - 1)) e ∙ bit_and_mask 256 0 x h

ones_or : (x : ℕ) → x < 2 ^ 256 → bit_or x (2 ^ 256 - 1) ≡ 2 ^ 256 - 1
ones_or x h = bit_or_mask 256 x h

ones_xor : (x : ℕ) → x < 2 ^ 256 → bit_xor x (2 ^ 256 - 1) ≡ 2 ^ 256 - 1 - x
ones_xor x h = bit_xor_mask 256 x h

zero_exp_lem : (y : ℕ) → (0 ^ y) % 2 ^ 256 ≡ truth (y == 0)
unfolding truth
zero_exp_lem zero = omega (arith, pow-zero 0)
zero_exp_lem (suc y) = ground (arith, zero_pow y)

module _ (x y : ℕ) (p : x < 2 ^ 256) (q : y < 2 ^ 256) where
  -- The equations behind the rules, for the operations in the set.
  pub zero_neutral : (o : Binop) → member (add ∷ sub ∷ xor_op ∷ or_op ∷ []) o ≡ true → evm o x 0 ≡ x
  unfolding member evm evm_word name_of
  zero_neutral add h = omega arith
  zero_neutral sub h = omega arith
  zero_neutral xor_op h = bit_xor-zero x
  zero_neutral or_op h = bit_or-zero x
  zero_neutral _ h = cc

  pub zero_absorbs :
      (o : Binop) → member (mul ∷ div ∷ sdiv ∷ op_mod ∷ smod ∷ and_op ∷ []) o ≡ true → evm o x 0 ≡ 0
  unfolding member evm evm_word evm_signed name_of
  zero_absorbs mul h = omega arith
  zero_absorbs div h = refl
  zero_absorbs sdiv h = refl
  zero_absorbs op_mod h = refl
  zero_absorbs smod h = refl
  zero_absorbs and_op h = bit_and-zero x
  zero_absorbs _ h = cc

  pub one_absorbs : (o : Binop) → member (op_mod ∷ smod ∷ []) o ≡ true → evm o x 1 ≡ 0
  unfolding member evm evm_word evm_signed name_of magnitude signed_word
  one_absorbs op_mod h = ground arith
  one_absorbs smod h = ground arith
  one_absorbs _ h = cc

  pub one_neutral : (o : Binop) → member (mul ∷ div ∷ sdiv ∷ []) o ≡ true → evm o x 1 ≡ x
  unfolding member evm evm_word evm_signed name_of magnitude signed_word differ is_negative
  one_neutral mul h = omega arith
  one_neutral div h = ground arith
  one_neutral sdiv h = ground arith
  one_neutral _ h = cc

  pub minus_negates :
      (o : Binop) → member (mul ∷ sdiv ∷ []) o ≡ true → evm o x (2 ^ 256 - 1) ≡ evm sub 0 x
  unfolding member evm evm_word evm_signed name_of magnitude signed_word differ is_negative
  minus_negates mul h = omega arith
  minus_negates sdiv h = ground arith
  minus_negates _ h = cc

  pub ones_right :
      (o : Binop) (b : IrNode)
      → Reads b (2 ^ 256 - 1)
      → member (and_op ∷ or_op ∷ xor_op ∷ []) o ≡ true
      → IsRight false o x (2 ^ 256 - 1) (ones_term o b)
  unfolding member evm name_of ones_term eval_term Reads
  ones_right and_op b r h = Agrees-eq false _ _ (sym (ones_and x p))
  ones_right xor_op b r h = Agrees-eq false _ _ (sym (ones_xor x p))
  ones_right or_op (ir_node (number v) args empty) (l, e) h =
      Agrees-eq false _ _ (sym e ∙ sym (ones_or x p))
  ones_right or_op (ir_node (text s) args empty) r h = tt
  ones_right _ b r h = cc

  pub complements : evm sub (2 ^ 256 - 1) y ≡ 2 ^ 256 - 1 - y
  unfolding evm evm_word
  complements = omega arith

  pub exp_zero : evm exp x 0 ≡ 1
  unfolding evm evm_word
  exp_zero = omega (arith, pow-zero x)

  pub one_exp : evm exp 1 y ≡ 1
  unfolding evm evm_word
  one_exp = omega (arith, one_pow y)

  pub zero_exp : evm exp 0 y ≡ truth (y == 0)
  unfolding evm evm_word
  zero_exp = zero_exp_lem y

  pub exp_one : evm exp x 1 ≡ x
  unfolding evm evm_word
  exp_one = omega (arith, pow_one x)

  pub same_zero : (o : Binop) → member (sub ∷ xor_op ∷ ne_op ∷ []) o ≡ true → evm o x x ≡ 0
  unfolding member evm evm_word name_of truth
  same_zero sub h = omega arith
  same_zero xor_op h = bit_xor_self x
  same_zero ne_op h = ground arith
  same_zero _ h = cc

  pub strict_same : (o : Binop) → is_strict o ≡ true → evm o x x ≡ 0
  unfolding is_strict evm truth signed_less differ
  strict_same lt_op h = ground arith
  strict_same gt_op h = ground arith
  strict_same slt h = ground arith
  strict_same sgt h = ground arith
  strict_same _ h = cc

  pub unstrict_same : (o : Binop) → (member (eq_op ∷ []) o || is_unstrict o) ≡ true → evm o x x ≡ 1
  unfolding is_unstrict is_strict is_comparison evm truth signed_less differ member name_of
  unstrict_same eq_op h = ground arith
  unstrict_same le_op h = ground arith
  unstrict_same ge_op h = ground arith
  unstrict_same sle h = ground arith
  unstrict_same sge h = ground arith
  unstrict_same _ h = cc

  pub eq_zero_right : (o : Binop) → member (eq_op ∷ []) o ≡ true → evm o x 0 ≡ truth (x == 0)
  unfolding member evm name_of
  eq_zero_right eq_op h = refl
  eq_zero_right _ h = cc

  pub ne_zero_right :
      (o : Binop) → member (ne_op ∷ []) o ≡ true → evm o x 0 ≡ truth (truth (x == 0) == 0)
  unfolding member evm name_of truth
  ne_zero_right ne_op h = ground arith
  ne_zero_right _ h = cc

  pub eq_ones_right :
      (o : Binop)
      → member (eq_op ∷ []) o ≡ true
      → evm o x (2 ^ 256 - 1) ≡ truth ((2 ^ 256 - 1 - x) == 0)
  unfolding member evm name_of truth
  eq_ones_right eq_op h = ground arith
  eq_ones_right _ h = cc
