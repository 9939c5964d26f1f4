-- ===== src/Venom/ConstantEval/Words.antt =====
-- vyper/venom/passes/sccp/eval.py: literals as words of 256 bits, and the wrappers on them.
-- A literal is in bounds of uint256 or int256.
use vysvm.Common.Int.{ℤ, pos, negsuc, ◌+ℤ◌, ◌-ℤ◌}
use vysvm.Common.{ℕ, if◌then◌else◌, ◌<◌, ◌^◌, leb, ◌∷◌, ◌-◌, arith, [], ◌≡◌}
use vysvm.Venom.ConstantEval.{
  to_unsigned, to_signed, Binop, wrap_unop, wrap_binop, wrap_signed_binop, Unop, low_word,
}
use vysvm.Utils.Ints.{signed_to_unsigned, unsigned_to_signed, check_bounds}
use vysvm.Common.Errors.{ok, ◌>>=◌}

unfoldable pub IsLiteral : ℤ → Type 0
IsLiteral (pos n) = n < 2 ^ 256
IsLiteral (negsuc n) = n < 2 ^ 255

-- The word that a literal stands for.
unfoldable pub word_of : ℤ → ℕ
word_of (pos n) = n
word_of (negsuc n) = 2 ^ 256 - 1 - n

-- The integer that a word stands for in two's complement.
unfoldable pub signed_of : ℕ → ℤ
signed_of a = if leb (2 ^ 255) a then negsuc (2 ^ 256 - 1 - a) else pos a

pub word_of_lt : (v : ℤ) → IsLiteral v → word_of v < 2 ^ 256
unfolding IsLiteral word_of
word_of_lt (pos n) h = h
word_of_lt (negsuc n) h = omega arith

pub to_unsigned-word_of : (v : ℤ) → IsLiteral v → to_unsigned v ≡ ok (pos (word_of v))
unfolding IsLiteral word_of to_unsigned signed_to_unsigned check_bounds ◌+ℤ◌
to_unsigned-word_of (pos n) h = ground arith
to_unsigned-word_of (negsuc n) h = ground arith

pub to_signed-signed_of : (v : ℤ) → IsLiteral v → to_signed v ≡ ok (signed_of (word_of v))
unfolding IsLiteral word_of to_signed unsigned_to_signed check_bounds ◌-ℤ◌ signed_of
to_signed-signed_of (pos n) h = ground arith
to_signed-signed_of (negsuc n) h = ground arith

module _ (operation : Binop) (a b : ℤ) (p : IsLiteral a) (q : IsLiteral b) where
  pub wrap_binop-word_of :
      wrap_binop operation (b ∷ a ∷ [])
      ≡ (operation (pos (word_of a)) (pos (word_of b)) >>= λ r. ok (low_word r))
  unfolding wrap_binop
  wrap_binop-word_of = rw (to_unsigned-word_of a p, to_unsigned-word_of b q)

  pub wrap_signed_binop-signed_of :
      wrap_signed_binop operation (b ∷ a ∷ [])
      ≡ (operation (signed_of (word_of a)) (signed_of (word_of b)) >>= to_unsigned)
  unfolding wrap_signed_binop
  wrap_signed_binop-signed_of = rw (to_signed-signed_of a p, to_signed-signed_of b q)

pub wrap_unop-word_of :
    (operation : Unop) (a : ℤ)
    → IsLiteral a
    → wrap_unop operation (a ∷ []) ≡ (operation (pos (word_of a)) >>= λ r. ok (low_word r))
unfolding wrap_unop
wrap_unop-word_of operation a p = rw (to_unsigned-word_of a p)
