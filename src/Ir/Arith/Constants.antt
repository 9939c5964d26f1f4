-- ===== src/Ir/Arith/Constants.antt =====
-- vyper/ir/optimizer.py: an operation on two integers at compile time.
use vysvm.Ir.Arith.{
  Binop, add, sub, mul, div, sdiv, op_mod, smod, exp, eq_op, ne_op, lt_op, le_op, gt_op, ge_op, slt,
  sle, sgt, sge, or_op, and_op, xor_op, fn_of, wrap, is_unsigned, evm_int,
}
use vysvm.Venom.ConstantEval.Folding.{
  op_add, op_sub, op_mul, op_div, op_exp, WordOp, operation_of-Computes, Computes, operation_of,
  truth, evm_word,
}
use native.Mathlib.Nat.{div-le_self, mod-le}
use vysvm.Venom.ConstantEval.Signed.{
  op_sdiv, op_smod, signed_word, evm_signed, signed_less, differ, magnitude-suc, div_zero, mod_zero,
  signed_of-with_sign, div_signs, mod_signs, is_negative, magnitude, magnitude_lt,
}
use vysvm.Common.Int.{ℤ, pos, ◌-ℤ◌, ◌+ℤ◌, ◌*ℤ◌, leb_ℤ, ltb_ℤ}
use vysvm.Common.{
  ℕ, ◌<◌, ◌^◌, ◌≡◌, Bool, true, arith, false, refl, ◌%◌, bit_and, bit_xor, ◌&&◌, bit_or, ◌∙◌, inl,
  not, ap, inr, suc,
}
use vysvm.Venom.ConstantEval.{low_word, bool_int, returns, int_or, int_and, int_xor, int_not}
use vysvm.Utils.Ints.{mod_floor, with_sign, evm_div, evm_mod, evm_pow}
use vysvm.Common.Errors.{Result, ◌>>=◌, ok}
use vysvm.Ir.Arith.Words.{read, evm, evm_int-read, word_of-wrap, wrap-IsLiteral}
use vysvm.Venom.ConstantEval.Words.{signed_of, IsLiteral, word_of, word_of_lt}
use vysvm.Common.Bits.{bit_or_lt, bit_and_lt, bit_xor_lt}

-- The folding of two literals, before it becomes a node.
pub fold : Binop → ℤ → ℤ → Result ℤ
fold o a b = do
  new_val ← fn_of o (evm_int a (is_unsigned o)) (evm_int b (is_unsigned o))
  ok (wrap new_val (is_unsigned o))

-- The word that an operation gives on operands read as it reads them.
Folds : Binop → ℕ → ℕ → Type 0
Folds o x y =
    (r : ℤ) × (fn_of o (read (is_unsigned o) x) (read (is_unsigned o) y) ≡ ok r)
    × (mod_floor r (2 ^ 256) ≡ evm o x y)

word_Computes :
    (w : WordOp) (x y : ℕ) (r : ℤ)
    → x < 2 ^ 256
    → y < 2 ^ 256
    → operation_of w (pos x) (pos y) ≡ ok r
    → mod_floor r (2 ^ 256) ≡ evm_word w x y
unfolding Computes low_word
word_Computes w x y r p q e = let c = operation_of-Computes w x y p q in cc (rw e at c)

mod_floor-with_sign :
    (s : Bool) (n : ℕ) → n < 2 ^ 256 → mod_floor (with_sign s n) (2 ^ 256) ≡ signed_word s n
unfolding mod_floor with_sign signed_word ◌-ℤ◌
mod_floor-with_sign true n h = ground arith
mod_floor-with_sign false n h = ground arith

truth_mod : (b : Bool) → mod_floor (bool_int b) (2 ^ 256) ≡ truth b
unfolding mod_floor bool_int truth
truth_mod true = refl
truth_mod false = refl

exp_pos : (x y : ℕ) → evm_pow (pos x) (pos y) ≡ ok (pos ((x ^ y) % 2 ^ 256))
unfolding evm_pow
exp_pos x y = refl

int_or_pos : (x y : ℕ) → fn_of or_op (pos x) (pos y) ≡ ok (pos (bit_or x y))
unfolding fn_of int_or int_not int_and
int_or_pos x y = refl

int_and_pos : (x y : ℕ) → fn_of and_op (pos x) (pos y) ≡ ok (pos (bit_and x y))
unfolding fn_of int_and
int_and_pos x y = refl

int_xor_pos : (x y : ℕ) → fn_of xor_op (pos x) (pos y) ≡ ok (pos (bit_xor x y))
unfolding fn_of int_xor
int_xor_pos x y = refl

pub less-signed_of :
    (x y : ℕ) → x < 2 ^ 256 → y < 2 ^ 256 → ltb_ℤ (signed_of x) (signed_of y) ≡ signed_less x y
unfolding signed_of signed_less differ
less-signed_of x y p q = ground arith

pub le-signed_of :
    (x y : ℕ)
    → x < 2 ^ 256
    → y < 2 ^ 256
    → leb_ℤ (signed_of x) (signed_of y) ≡ not (signed_less y x)
unfolding signed_of signed_less differ
le-signed_of x y p q = ground arith

zero_mod : mod_floor (pos 0) (2 ^ 256) ≡ 0
unfolding mod_floor
zero_mod = refl

sdiv_mod :
    (x y : ℕ)
    → x < 2 ^ 256
    → y < 2 ^ 256
    → mod_floor (evm_div (signed_of x) (signed_of y)) (2 ^ 256) ≡ evm_signed op_sdiv x y
unfolding evm_signed
sdiv_mod x y p q = elim (magnitude-suc y q) [
  | inl e ↦ rw (e, div_zero (signed_of x)) zero_mod
  | inr (n, e, z) ↦
      rw
        (
          z,
          signed_of-with_sign x p,
          signed_of-with_sign y q,
          e,
          div_signs (is_negative x) (is_negative y) (magnitude x) n,
        )
        (mod_floor-with_sign _ _
          (omega (arith, magnitude_lt x p, div-le_self (magnitude x) (suc n))))
]

smod_mod :
    (x y : ℕ)
    → x < 2 ^ 256
    → y < 2 ^ 256
    → mod_floor (evm_mod (signed_of x) (signed_of y)) (2 ^ 256) ≡ evm_signed op_smod x y
unfolding evm_signed
smod_mod x y p q = elim (magnitude-suc y q) [
  | inl e ↦ rw (e, mod_zero (signed_of x)) zero_mod
  | inr (n, e, z) ↦
      rw
        (
          z,
          signed_of-with_sign x p,
          signed_of-with_sign y q,
          e,
          mod_signs (is_negative x) (is_negative y) (magnitude x) n,
        )
        (mod_floor-with_sign _ _ (omega (arith, magnitude_lt x p, mod-le (magnitude x) (suc n))))
]

bits_mod : (n : ℕ) → n < 2 ^ 256 → mod_floor (pos n) (2 ^ 256) ≡ n
unfolding mod_floor
bits_mod n h = omega arith

module _ (x y : ℕ) (p : x < 2 ^ 256) (q : y < 2 ^ 256) where
  folds : (o : Binop) → Folds o x y
  unfolding Folds fn_of evm is_unsigned read operation_of returns
  folds add = (pos x +ℤ pos y, refl, word_Computes op_add x y (pos x +ℤ pos y) p q refl)
  folds sub = (pos x -ℤ pos y, refl, word_Computes op_sub x y (pos x -ℤ pos y) p q refl)
  folds mul = (pos x *ℤ pos y, refl, word_Computes op_mul x y (pos x *ℤ pos y) p q refl)
  folds div =
      (evm_div (pos x) (pos y), refl, word_Computes op_div x y (evm_div (pos x) (pos y)) p q refl)
  folds sdiv = (evm_div (signed_of x) (signed_of y), refl, sdiv_mod x y p q)
  folds op_mod = (
    evm_mod (pos x) (pos y),
    refl,
    word_Computes WordOp.op_mod x y (evm_mod (pos x) (pos y)) p q refl,
  )
  folds smod = (evm_mod (signed_of x) (signed_of y), refl, smod_mod x y p q)
  folds exp = (
    pos ((x ^ y) % 2 ^ 256),
    exp_pos x y,
    word_Computes op_exp x y (pos ((x ^ y) % 2 ^ 256)) p q (exp_pos x y),
  )
  folds eq_op =
      (bool_int (leb_ℤ (pos x) (pos y) && leb_ℤ (pos y) (pos x)), refl, truth_mod _ ∙ ground arith)
  folds ne_op = (
    bool_int (not (leb_ℤ (pos x) (pos y) && leb_ℤ (pos y) (pos x))),
    refl,
    truth_mod _ ∙ ground arith,
  )
  folds lt_op = (bool_int (ltb_ℤ (pos x) (pos y)), refl, truth_mod _ ∙ ground arith)
  folds le_op = (bool_int (leb_ℤ (pos x) (pos y)), refl, truth_mod _ ∙ ground arith)
  folds gt_op = (bool_int (ltb_ℤ (pos y) (pos x)), refl, truth_mod _ ∙ ground arith)
  folds ge_op = (bool_int (leb_ℤ (pos y) (pos x)), refl, truth_mod _ ∙ ground arith)
  folds slt = (
    bool_int (ltb_ℤ (signed_of x) (signed_of y)),
    refl,
    truth_mod _ ∙ ap truth (less-signed_of x y p q),
  )
  folds sle = (
    bool_int (leb_ℤ (signed_of x) (signed_of y)),
    refl,
    truth_mod _ ∙ ap truth (le-signed_of x y p q),
  )
  folds sgt = (
    bool_int (ltb_ℤ (signed_of y) (signed_of x)),
    refl,
    truth_mod _ ∙ ap truth (less-signed_of y x q p),
  )
  folds sge = (
    bool_int (leb_ℤ (signed_of y) (signed_of x)),
    refl,
    truth_mod _ ∙ ap truth (le-signed_of y x q p),
  )
  folds or_op = (pos (bit_or x y), int_or_pos x y, bits_mod (bit_or x y) (bit_or_lt 256 x y p q))
  folds and_op =
      (pos (bit_and x y), int_and_pos x y, bits_mod (bit_and x y) (bit_and_lt 256 x y p q))
  folds xor_op =
      (pos (bit_xor x y), int_xor_pos x y, bits_mod (bit_xor x y) (bit_xor_lt 256 x y p q))

-- Folding gives an integer that stands for the word that the operation computes.
pub fold-evm :
    (o : Binop) (a b : ℤ)
    → IsLiteral a
    → IsLiteral b
    → (r : ℤ) × (fold o a b ≡ ok r) × (word_of r ≡ evm o (word_of a) (word_of b)) × IsLiteral r
unfolding fold Folds
fold-evm o a b p q =
    let (r, e, m) = folds (word_of a) (word_of b) (word_of_lt a p) (word_of_lt b q) o in
    (
      wrap r (is_unsigned o),
      rw (evm_int-read a (is_unsigned o) p, evm_int-read b (is_unsigned o) q, e) refl,
      word_of-wrap r (is_unsigned o) ∙ m,
      wrap-IsLiteral r (is_unsigned o),
    )
