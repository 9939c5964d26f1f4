-- ===== src/Ir/Optimizer/Comparing.antt =====
-- vyper/ir/optimizer.py: the rewritings of comparisons are right.
use vysvm.Ir.Arith.{
  Binop, lt_op, le_op, gt_op, ge_op, slt, sle, sgt, sge, is_unsigned, flip_comparison_op,
  is_comparison, wrap, evm_int, is_gt, is_strict,
}
use vysvm.Ir.Optimizer.Comparison.{exchange, restrict, new_rhs, same_bool}
use vysvm.Ir.Optimizer.Term.{Term, right, left, literal, iszero, binary, seq, bit_not, shl, shr}
use vysvm.Common.Int.{ℤ, ltb_ℤ, leb_ℤ, pos, negsuc, ◌-ℤ◌, ◌+ℤ◌}
use vysvm.Ir.Arith.Words.{evm, read}
use vysvm.Ir.Optimizer.Meaning.{eval_term}
use vysvm.Common.{
  Bool, ℕ, ◌<◌, ◌≡◌, false, ◌^◌, true, refl, arith, ap, sym, Bool-cases, leb, inl, inr,
}
use vysvm.Venom.ConstantEval.Folding.{truth}
use vysvm.Common.Errors.{ok}
use vysvm.Ir.Arith.Constants.{less-signed_of, le-signed_of}
use vysvm.Venom.ConstantEval.Words.{signed_of, word_of}
use vysvm.Utils.Ints.{mod_floor}

-- What a comparison says of the two operands as it reads them.
unfoldable pub compares : Binop → ℤ → ℤ → Bool
compares lt_op a b = ltb_ℤ a b
compares gt_op a b = ltb_ℤ b a
compares le_op a b = leb_ℤ a b
compares ge_op a b = leb_ℤ b a
compares slt a b = ltb_ℤ a b
compares sgt a b = ltb_ℤ b a
compares sle a b = leb_ℤ a b
compares sge a b = leb_ℤ b a
compares _ a b = false

pub evm-compares :
    (o : Binop) (x y : ℕ)
    → x < 2 ^ 256
    → y < 2 ^ 256
    → is_comparison o ≡ true
    → evm o x y ≡ truth (compares o (read (is_unsigned o) x) (read (is_unsigned o) y))
unfolding evm compares is_comparison is_unsigned read
evm-compares lt_op x y p q h = ground arith
evm-compares gt_op x y p q h = ground arith
evm-compares le_op x y p q h = ground arith
evm-compares ge_op x y p q h = ground arith
evm-compares slt x y p q h = ap truth (sym (less-signed_of x y p q))
evm-compares sgt x y p q h = ap truth (sym (less-signed_of y x q p))
evm-compares sle x y p q h = ap truth (sym (le-signed_of x y p q))
evm-compares sge x y p q h = ap truth (sym (le-signed_of y x q p))
evm-compares _ x y p q h = cc

-- Exchanging the arguments of a term is exchanging the words.
pub eval_term-exchange : (t : Term) (x y : ℕ) → eval_term (exchange t) x y ≡ eval_term t y x
unfolding exchange eval_term
eval_term-exchange left x y = refl
eval_term-exchange right x y = refl
eval_term-exchange (literal v) x y = refl
eval_term-exchange (seq t) x y = eval_term-exchange t x y
eval_term-exchange (iszero t) x y = rw (eval_term-exchange t x y) refl
eval_term-exchange (bit_not t) x y = rw (eval_term-exchange t x y) refl
eval_term-exchange (shl s t) x y = rw (eval_term-exchange s x y, eval_term-exchange t x y) refl
eval_term-exchange (shr s t) x y = rw (eval_term-exchange s x y, eval_term-exchange t x y) refl
eval_term-exchange (binary o s t) x y = rw (eval_term-exchange s x y, eval_term-exchange t x y) refl

pub flip-evm :
    (o : Binop) (x y : ℕ)
    → is_comparison o ≡ true
    → (f : Binop) × (flip_comparison_op o ≡ ok f)
      × (is_comparison f ≡ true)
      × (evm f y x ≡ evm o x y)
unfolding evm flip_comparison_op is_comparison
flip-evm lt_op x y h = (gt_op, refl, refl, refl)
flip-evm gt_op x y h = (lt_op, refl, refl, refl)
flip-evm le_op x y h = (ge_op, refl, refl, refl)
flip-evm ge_op x y h = (le_op, refl, refl, refl)
flip-evm slt x y h = (sgt, refl, refl, refl)
flip-evm sgt x y h = (slt, refl, refl, refl)
flip-evm sle x y h = (sge, refl, refl, refl)
flip-evm sge x y h = (sle, refl, refl, refl)
flip-evm _ x y h = cc

-- The integers that the operands are read as.
unfoldable pub InRange : Bool → ℤ → Type 0
InRange true (pos n) = n < 2 ^ 256
InRange true (negsuc n) = ⊥
InRange false (pos n) = n < 2 ^ 255
InRange false (negsuc n) = n < 2 ^ 255

pub read-InRange : (u : Bool) (x : ℕ) → x < 2 ^ 256 → InRange u (read u x)
unfolding read InRange signed_of
read-InRange true x p = p
read-InRange false x p = elim (Bool-cases (leb (2 ^ 255) x)) [
  | inl h ↦ rw h (ground arith)
  | inr h ↦ rw h (ground arith)
]

pub read-word_of :
    (u : Bool) (v : ℤ) → InRange u v → (read u (word_of v) ≡ v) × (word_of v < 2 ^ 256)
unfolding read InRange signed_of word_of
read-word_of true (pos n) p = (refl, p)
read-word_of true (negsuc n) p = absurd p
read-word_of false (pos n) p = (ground arith, omega arith)
read-word_of false (negsuc n) p = (ground arith, omega arith)

pub wrap-InRange : (u : Bool) (v : ℤ) → InRange u v → wrap v u ≡ v
unfolding wrap InRange evm_int mod_floor ◌-ℤ◌
wrap-InRange true (pos n) p = ground arith
wrap-InRange true (negsuc n) p = absurd p
wrap-InRange false (pos n) p = ground arith
wrap-InRange false (negsuc n) p = ground arith

pub same_order :
    (o : Binop) (a c : ℤ)
    → is_comparison o ≡ true
    → compares (restrict o) a (new_rhs o c) ≡ compares o a c
unfolding compares restrict new_rhs is_comparison same_bool is_gt is_strict ◌+ℤ◌ ◌-ℤ◌
same_order lt_op a c h = ground arith
same_order gt_op a c h = ground arith
same_order le_op a c h = ground arith
same_order ge_op a c h = ground arith
same_order slt a c h = ground arith
same_order sgt a c h = ground arith
same_order sle a c h = ground arith
same_order sge a c h = ground arith
same_order _ a c h = cc
