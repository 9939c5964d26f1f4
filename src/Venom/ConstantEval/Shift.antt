-- ===== src/Venom/ConstantEval/Shift.antt =====
-- vyper/venom/passes/sccp/eval.py: the arithmetic shift.
use native.Mathlib.Nat.{div-le_self}
use vysvm.Common.{
  ℕ, if◌then◌else◌, ◌^◌, ◌≡◌, ◌-◌, ◌∷◌, ◌/◌, [], Bool-cases, ◌&&◌, inl, ◌<◌, ◌∙◌, inr, arith, refl,
  true, ◌⊎◌, false, leb,
}
use vysvm.Venom.ConstantEval.{evm_sar, eval_arith, arithmetic_ops, shift_right, to_unsigned}
use vysvm.Venom.ConstantEval.Words.{
  signed_of, IsLiteral, word_of, wrap_signed_binop-signed_of, word_of_lt,
}
use vysvm.Common.Int.{ℤ, negsuc, ◌+ℤ◌, leb_ℤ, ◌-ℤ◌, pos, ltb_ℤ}
use vysvm.Common.Dict.{get}
use vysvm.Venom.ConstantEval.Signed.{is_negative}
use vysvm.Common.Errors.{err, assertion_error, ok, ◌>>=◌}
use vysvm.Utils.Ints.{signed_to_unsigned, check_bounds}

-- `b` shifted right by `a` places, the sign bit coming in from the left.

pub arithmetic_shift : ℕ → ℕ → ℕ
arithmetic_shift a b = if is_negative b then 2 ^ 256 - 1 - (2 ^ 256 - 1 - b) / 2 ^ a else b / 2 ^ a

sar_signed :
    (a b : ℕ)
    → a < 2 ^ 255
    → b < 2 ^ 256
    → (evm_sar (pos a) (signed_of b) >>= to_unsigned) ≡ ok (pos (arithmetic_shift a b))
unfolding evm_sar signed_of arithmetic_shift is_negative shift_right to_unsigned signed_to_unsigned
    check_bounds ◌+ℤ◌ ◌-ℤ◌
sar_signed a b p q = ground (arith, div-le_self (2 ^ 256 - 1 - b) (2 ^ a))

sar_refused : (a : ℕ) (v : ℤ) → evm_sar (negsuc a) v ≡ err assertion_error
unfolding evm_sar
sar_refused a v = elim (Bool-cases (leb_ℤ (pos 0 -ℤ pos (2 ^ 255)) v && ltb_ℤ v (pos (2 ^ 255)))) [
  | inl p ↦ rw p (ground arith)
  | inr p ↦ rw p refl
]

signed_of-cases :
    (a : ℕ)
    → (is_negative a ≡ true × ((n : ℕ) × (signed_of a ≡ negsuc n)))
      ⊎ (is_negative a ≡ false × ((a < 2 ^ 255) × (signed_of a ≡ pos a)))
unfolding is_negative signed_of
signed_of-cases a = elim (Bool-cases (leb (2 ^ 255) a)) [
  | inl p ↦ inl (p, (2 ^ 256 - 1 - a, rw p refl))
  | inr p ↦ inr (p, (ground arith, rw p refl))
]

sar_cases :
    (a b : ℕ)
    → b < 2 ^ 256
    → (evm_sar (signed_of a) (signed_of b) >>= to_unsigned)
      ≡ (if is_negative a then err assertion_error else ok (pos (arithmetic_shift a b)))
sar_cases a b q = elim (signed_of-cases a) [
  | inl (s, (n, e)) ↦ rw (s, e, sar_refused n (signed_of b)) refl
  | inr (s, (l, e)) ↦ rw (s, e) (sar_signed a b l q)
]

-- eval_arith folds `sar` of two literals to the arithmetic shift of the EVM if the shift length is
-- below 2**255 as a word, and raises AssertionError if it is not.
pub eval_arith-arithmetic_shift :
    (a b : ℤ)
    → IsLiteral a
    → IsLiteral b
    → eval_arith "sar" (b ∷ a ∷ []) ≡ (
        if is_negative (word_of a)
        then err assertion_error
        else ok (pos (arithmetic_shift (word_of a) (word_of b))))
unfolding eval_arith get arithmetic_ops
eval_arith-arithmetic_shift a b p q =
    wrap_signed_binop-signed_of evm_sar a b p q ∙ sar_cases (word_of a) (word_of b) (word_of_lt b q)
