-- ===== src/Venom/ConstantEval/Signed.antt =====
-- vyper/venom/passes/sccp/eval.py: the instructions that read words in two's complement.
use native.Mathlib.Nat.{div-le_self, mod-le, zero-div}
use Prim.Native.String.{String}
use vysvm.Common.{
  ℕ, Bool, leb, if◌then◌else◌, not, ◌^◌, ltb, ◌==◌, true, ◌-◌, ◌/◌, suc, false, ◌%◌, ◌≡◌, ◌<◌,
  arith, zero, ◌⊎◌, refl, inl, Bool-cases, ◌∷◌, inr, List, [], ◌∙◌,
}
use vysvm.Utils.Ints.{evm_div, evm_mod, with_sign, signed_to_unsigned, check_bounds}
use vysvm.Venom.ConstantEval.Words.{
  signed_of, IsLiteral, word_of, wrap_signed_binop-signed_of, word_of_lt,
}
use vysvm.Venom.ConstantEval.{
  to_unsigned, Binop, eval_arith, returns, bool_int, arithmetic_ops, wrap_signed_binop,
}
use vysvm.Common.Int.{◌*ℤ◌, ◌-ℤ◌, ◌+ℤ◌, pos, ℤ, ltb_ℤ}
use vysvm.Venom.ConstantEval.Folding.{truth}
use vysvm.Common.Errors.{ok, ◌>>=◌}
use vysvm.Common.Dict.{get}

pub data SignedOp : Type 0 where
  op_sdiv op_smod op_slt op_sgt : SignedOp

unfoldable pub signed_opcode_of : SignedOp → String
signed_opcode_of op_sdiv = "sdiv"
signed_opcode_of op_smod = "smod"
signed_opcode_of op_slt = "slt"
signed_opcode_of op_sgt = "sgt"

-- The sign bit of a word, and its absolute value in two's complement.
unfoldable pub is_negative : ℕ → Bool
is_negative a = leb (2 ^ 255) a

unfoldable pub magnitude : ℕ → ℕ
magnitude a = if leb (2 ^ 255) a then 2 ^ 256 - a else a

unfoldable pub differ : Bool → Bool → Bool
differ true b = not b
differ false b = b

-- The word of a number with a sign.
unfoldable pub signed_word : Bool → ℕ → ℕ
signed_word negative n = if negative then (2 ^ 256 - n) % 2 ^ 256 else n

-- One word is less than another as a signed number.
unfoldable pub signed_less : ℕ → ℕ → Bool
unfolding is_negative
signed_less a b = if differ (is_negative a) (is_negative b) then is_negative a else ltb a b

-- The EVM's results, the operand on top of the stack first.
unfoldable pub evm_signed : SignedOp → ℕ → ℕ → ℕ
evm_signed op_sdiv a b =
    if b == 0
    then 0
    else signed_word (differ (is_negative a) (is_negative b)) (magnitude a / magnitude b)
evm_signed op_smod a b =
    if b == 0 then 0 else signed_word (is_negative a) (magnitude a % magnitude b)
evm_signed op_slt a b = truth (signed_less a b)
evm_signed op_sgt a b = truth (signed_less b a)

pub div_signs :
    (s t : Bool) (m n : ℕ)
    → evm_div (with_sign s m) (with_sign t (suc n)) ≡ with_sign (differ s t) (m / suc n)
unfolding evm_div with_sign differ ◌*ℤ◌ ◌-ℤ◌
div_signs true true zero n = ground (arith, zero-div (suc n))
div_signs true false zero n = ground (arith, zero-div (suc n))
div_signs false true zero n = ground (arith, zero-div (suc n))
div_signs false false zero n = ground (arith, zero-div (suc n))
div_signs true true (suc m) n = ground arith
div_signs true false (suc m) n = ground arith
div_signs false true (suc m) n = ground arith
div_signs false false (suc m) n = ground arith

pub mod_signs :
    (s t : Bool) (m n : ℕ) → evm_mod (with_sign s m) (with_sign t (suc n)) ≡ with_sign s (m % suc n)
unfolding evm_mod with_sign ◌-ℤ◌
mod_signs true true zero n = ground (arith, mod-le 0 (suc n))
mod_signs true true (suc m) n = ground arith
mod_signs true false zero n = ground (arith, mod-le 0 (suc n))
mod_signs true false (suc m) n = ground arith
mod_signs false true zero n = ground (arith, mod-le 0 (suc n))
mod_signs false true (suc m) n = ground arith
mod_signs false false zero n = ground (arith, mod-le 0 (suc n))
mod_signs false false (suc m) n = ground arith

pub signed_of-with_sign :
    (a : ℕ) → a < 2 ^ 256 → signed_of a ≡ with_sign (is_negative a) (magnitude a)
unfolding signed_of with_sign is_negative magnitude ◌-ℤ◌
signed_of-with_sign a h = ground arith

to_unsigned-with_sign :
    (s : Bool) (n : ℕ) → n < 2 ^ 256 → to_unsigned (with_sign s n) ≡ ok (pos (signed_word s n))
unfolding to_unsigned signed_to_unsigned with_sign signed_word check_bounds ◌-ℤ◌ ◌+ℤ◌
to_unsigned-with_sign true n h = ground arith
to_unsigned-with_sign false n h = ground arith

pub signed_operation_of : SignedOp → Binop
signed_operation_of op_sdiv = returns evm_div
signed_operation_of op_smod = returns evm_mod
signed_operation_of op_slt = returns (λ a b. bool_int (ltb_ℤ a b))
signed_operation_of op_sgt = returns (λ a b. bool_int (ltb_ℤ b a))

eval_arith-signed_operation_of :
    (o : SignedOp) (ops : List ℤ)
    → eval_arith (signed_opcode_of o) ops ≡ wrap_signed_binop (signed_operation_of o) ops
unfolding eval_arith signed_opcode_of get arithmetic_ops signed_operation_of
eval_arith-signed_operation_of op_sdiv ops = refl
eval_arith-signed_operation_of op_smod ops = refl
eval_arith-signed_operation_of op_slt ops = refl
eval_arith-signed_operation_of op_sgt ops = refl

-- What `operation` gives on words below 2 ^ 256, as wrap_signed_binop leaves it.
SignedComputes : Binop → (ℕ → ℕ → ℕ) → Type 0
SignedComputes operation f =
    (a b : ℕ)
    → a < 2 ^ 256
    → b < 2 ^ 256
    → (operation (signed_of a) (signed_of b) >>= to_unsigned) ≡ ok (pos (f a b))

pub magnitude_lt : (a : ℕ) → a < 2 ^ 256 → magnitude a < 2 ^ 256
unfolding magnitude
magnitude_lt a h = ground arith

pub magnitude-suc :
    (b : ℕ) → b < 2 ^ 256 → (b ≡ 0) ⊎ ((n : ℕ) × (magnitude b ≡ suc n) × ((b == 0) ≡ false))
unfolding magnitude
magnitude-suc zero h = inl refl
magnitude-suc (suc b) h = elim (Bool-cases (leb (2 ^ 255) (suc b))) [
  | inl p ↦ inr (2 ^ 256 - suc b - 1, rw p (omega arith), ground arith)
  | inr p ↦ inr (b, rw p refl, ground arith)
]

pub div_zero : (x : ℤ) → evm_div x (signed_of 0) ≡ pos 0
unfolding evm_div signed_of
div_zero x = ground arith

pub mod_zero : (x : ℤ) → evm_mod x (signed_of 0) ≡ pos 0
unfolding evm_mod signed_of
mod_zero x = ground arith

to_unsigned-zero : to_unsigned (pos 0) ≡ ok (pos 0)
unfolding to_unsigned signed_to_unsigned check_bounds
to_unsigned-zero = refl

sdiv-SignedComputes : SignedComputes (signed_operation_of op_sdiv) (evm_signed op_sdiv)
unfolding SignedComputes signed_operation_of evm_signed returns
sdiv-SignedComputes = λ a b p q. elim (magnitude-suc b q) [
  | inl e ↦ rw (e, div_zero (signed_of a)) to_unsigned-zero
  | inr (n, e, z) ↦
      rw
        (
          z,
          signed_of-with_sign a p,
          signed_of-with_sign b q,
          e,
          div_signs (is_negative a) (is_negative b) (magnitude a) n,
        )
        (to_unsigned-with_sign _ _
          (ground (arith, magnitude_lt a p, div-le_self (magnitude a) (suc n))))
]

smod-SignedComputes : SignedComputes (signed_operation_of op_smod) (evm_signed op_smod)
unfolding SignedComputes signed_operation_of evm_signed returns
smod-SignedComputes = λ a b p q. elim (magnitude-suc b q) [
  | inl e ↦ rw (e, mod_zero (signed_of a)) to_unsigned-zero
  | inr (n, e, z) ↦
      rw
        (
          z,
          signed_of-with_sign a p,
          signed_of-with_sign b q,
          e,
          mod_signs (is_negative a) (is_negative b) (magnitude a) n,
        )
        (to_unsigned-with_sign _ _ (ground (arith, magnitude_lt a p, mod-le (magnitude a) (suc n))))
]

slt-SignedComputes : SignedComputes (signed_operation_of op_slt) (evm_signed op_slt)
unfolding SignedComputes signed_operation_of evm_signed returns signed_of truth bool_int signed_less
    is_negative differ to_unsigned signed_to_unsigned check_bounds
slt-SignedComputes = λ a b p q. ground arith

sgt-SignedComputes : SignedComputes (signed_operation_of op_sgt) (evm_signed op_sgt)
unfolding SignedComputes signed_operation_of evm_signed returns signed_of truth bool_int signed_less
    is_negative differ to_unsigned signed_to_unsigned check_bounds
sgt-SignedComputes = λ a b p q. ground arith

signed-SignedComputes : (o : SignedOp) → SignedComputes (signed_operation_of o) (evm_signed o)
signed-SignedComputes op_sdiv = sdiv-SignedComputes
signed-SignedComputes op_smod = smod-SignedComputes
signed-SignedComputes op_slt = slt-SignedComputes
signed-SignedComputes op_sgt = sgt-SignedComputes

-- eval_arith folds a signed division, remainder or comparison of two literals, the last operand
-- being the top of the stack, to the word that the EVM computes from the words that they stand for.
pub eval_arith-evm_signed :
    (o : SignedOp) (a b : ℤ)
    → IsLiteral a
    → IsLiteral b
    → eval_arith (signed_opcode_of o) (b ∷ a ∷ []) ≡ ok (pos (evm_signed o (word_of a) (word_of b)))
unfolding SignedComputes
eval_arith-evm_signed o a b p q =
    eval_arith-signed_operation_of o (b ∷ a ∷ [])
    ∙ (wrap_signed_binop-signed_of (signed_operation_of o) a b p q
        ∙ signed-SignedComputes o (word_of a) (word_of b) (word_of_lt a p) (word_of_lt b q))
