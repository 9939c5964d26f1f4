-- ===== src/Ir/Arith/Words.antt =====
-- What the operations of vyper/ir/optimizer.py are on words, as the EVM defines them.
use vysvm.Ir.Arith.{
  Binop, add, sub, mul, div, sdiv, op_mod, smod, exp, eq_op, ne_op, lt_op, le_op, gt_op, ge_op, slt,
  sle, sgt, sge, or_op, and_op, xor_op, evm_int, wrap,
}
use native.Mathlib.Nat.{mod-lt}
use vysvm.Common.{
  Bool, ℕ, ◌<◌, ◌≡◌, ◌^◌, true, arith, Bool-cases, false, leb, refl, inl, inr, ◌==◌, not, ltb,
  bit_or, bit_and, bit_xor,
}
use vysvm.Venom.ConstantEval.Words.{signed_of, word_of, IsLiteral}
use vysvm.Utils.Ints.{mod_floor}
use vysvm.Common.Int.{ℤ, pos, ◌+ℤ◌, ◌-ℤ◌, negsuc}
use vysvm.Venom.ConstantEval.Folding.{
  evm_word, op_add, op_sub, op_mul, op_div, WordOp, op_exp, truth,
}
use vysvm.Venom.ConstantEval.Signed.{evm_signed, op_sdiv, op_smod, signed_less}

unfoldable pub evm : Binop → ℕ → ℕ → ℕ
evm add x y = evm_word op_add x y
evm sub x y = evm_word op_sub x y
evm mul x y = evm_word op_mul x y
evm div x y = evm_word op_div x y
evm sdiv x y = evm_signed op_sdiv x y
evm op_mod x y = evm_word WordOp.op_mod x y
evm smod x y = evm_signed op_smod x y
evm exp x y = evm_word op_exp x y
evm eq_op x y = truth (x == y)
evm ne_op x y = truth (not (x == y))
evm lt_op x y = truth (ltb x y)
evm le_op x y = truth (not (ltb y x))
evm gt_op x y = truth (ltb y x)
evm ge_op x y = truth (not (ltb x y))
evm slt x y = truth (signed_less x y)
evm sle x y = truth (not (signed_less y x))
evm sgt x y = truth (signed_less y x)
evm sge x y = truth (not (signed_less x y))
evm or_op x y = bit_or x y
evm and_op x y = bit_and x y
evm xor_op x y = bit_xor x y

-- How a word is read for an operation.
unfoldable pub read : Bool → ℕ → ℤ
read true x = pos x
read false x = signed_of x

pub evm_int-read : (v : ℤ) (u : Bool) → IsLiteral v → evm_int v u ≡ read u (word_of v)
unfolding evm_int read signed_of word_of IsLiteral ◌+ℤ◌ ◌-ℤ◌
evm_int-read (pos n) true h = ground arith
evm_int-read (pos n) false h = ground arith
evm_int-read (negsuc n) true h = ground arith
evm_int-read (negsuc n) false h = ground arith

pub word_of-read : (u : Bool) (x : ℕ) → x < 2 ^ 256 → word_of (read u x) ≡ x
unfolding read signed_of word_of
word_of-read true x h = refl
word_of-read false x h = ground arith

pub read-IsLiteral : (u : Bool) (x : ℕ) → x < 2 ^ 256 → IsLiteral (read u x)
unfolding read signed_of IsLiteral
read-IsLiteral true x h = h
read-IsLiteral false x h = elim (Bool-cases (leb (2 ^ 255) x)) [
  | inl p ↦ rw p (ground arith)
  | inr p ↦ rw p (ground arith)
]

mod_floor_lt : (r : ℤ) (n : ℕ) → 0 < n → mod_floor r n < n
unfolding mod_floor
mod_floor_lt (pos a) n h = mod-lt a h
mod_floor_lt (negsuc a) n h = omega arith

word-IsLiteral : (n : ℕ) → n < 2 ^ 256 → IsLiteral (pos n)
unfolding IsLiteral
word-IsLiteral n h = h

-- Wrapping gives a literal that stands for the number modulo 2 ^ 256.
pub word_of-wrap : (r : ℤ) (u : Bool) → word_of (wrap r u) ≡ mod_floor r (2 ^ 256)
unfolding wrap word_of mod_floor
word_of-wrap r u =
    let l = mod_floor_lt r (2 ^ 256) (omega arith) in
    rw (evm_int-read (pos (mod_floor r (2 ^ 256))) u (word-IsLiteral _ l))
      (word_of-read u (mod_floor r (2 ^ 256)) l)

pub wrap-IsLiteral : (r : ℤ) (u : Bool) → IsLiteral (wrap r u)
unfolding wrap word_of mod_floor
wrap-IsLiteral r u =
    let l = mod_floor_lt r (2 ^ 256) (omega arith) in
    rw (evm_int-read (pos (mod_floor r (2 ^ 256))) u (word-IsLiteral _ l))
      (read-IsLiteral u (mod_floor r (2 ^ 256)) l)
