-- ===== src/Venom/ConstantEval/Folding.antt =====
use native.Mathlib.Nat.{div-le_self, mod-le, mul-mod_left, pow-suc}
use Prim.Native.String.{String}
use vysvm.Common.{
  Bool, ℕ, if◌then◌else◌, ◌+◌, ◌%◌, ◌<◌, ◌^◌, ◌-◌, ◌*◌, ◌≡◌, ◌==◌, arith, ◌/◌, ◌∷◌, ltb, [], List,
  ◌∙◌, refl, ◌&&◌, leb, ◌≤◌, Bool-cases, inl, inr, ap, suc, zero, bit_and, bit_or, bit_xor,
}
use vysvm.Venom.ConstantEval.{
  low_word, eval_arith, arithmetic_ops, returns, bool_int, Binop, wrap_binop, evm_shl, evm_shr,
  in_uint256, int_and, int_or, int_xor, int_not,
}
use vysvm.Utils.Ints.{mod_floor, evm_div, evm_mod, evm_pow, with_sign}
use vysvm.Common.Dict.{get}
use vysvm.Common.Bits.{bit_and_lt, bit_or_lt, bit_xor_lt}
use vysvm.Common.Int.{pos, ℤ, ◌+ℤ◌, negsuc, ◌-ℤ◌, ◌*ℤ◌, leb_ℤ, ltb_ℤ}
use vysvm.Venom.ConstantEval.Words.{IsLiteral, word_of, wrap_binop-word_of, word_of_lt}
use vysvm.Common.Errors.{ok, ◌>>=◌}

-- vyper/venom/passes/sccp/eval.py: folding gives the word that the EVM computes.
-- The instructions of two operands whose EVM semantics are arithmetic on words.

pub data WordOp : Type 0 where
  op_add op_sub op_mul op_div op_mod op_exp op_eq op_lt op_gt op_shl op_shr op_and op_or : WordOp
  op_xor : WordOp

unfoldable pub opcode_of : WordOp → String
opcode_of op_add = "add"
opcode_of op_sub = "sub"
opcode_of op_mul = "mul"
opcode_of op_div = "div"
opcode_of op_mod = "mod"
opcode_of op_exp = "exp"
opcode_of op_eq = "eq"
opcode_of op_lt = "lt"
opcode_of op_gt = "gt"
opcode_of op_shl = "shl"
opcode_of op_shr = "shr"
opcode_of op_and = "and"
opcode_of op_or = "or"
opcode_of op_xor = "xor"

unfoldable pub truth : Bool → ℕ
truth b = if b then 1 else 0

-- The EVM's results, the operand on top of the stack first.
unfoldable pub evm_word : WordOp → ℕ → ℕ → ℕ
unfolding truth
evm_word op_add a b = (a + b) % 2 ^ 256
evm_word op_sub a b = (a + (2 ^ 256 - b)) % 2 ^ 256
evm_word op_mul a b = (a * b) % 2 ^ 256
evm_word op_div a b = if b == 0 then 0 else a / b
evm_word op_mod a b = if b == 0 then 0 else a % b
evm_word op_exp a b = (a ^ b) % 2 ^ 256
evm_word op_eq a b = truth (a == b)
evm_word op_lt a b = truth (ltb a b)
evm_word op_gt a b = truth (ltb b a)
evm_word op_shl a b = (b * 2 ^ a) % 2 ^ 256
evm_word op_shr a b = b / 2 ^ a
evm_word op_and a b = bit_and a b
evm_word op_or a b = bit_or a b
evm_word op_xor a b = bit_xor a b

pub low_word_pos : (n : ℕ) → n < 2 ^ 256 → low_word (pos n) ≡ pos n
unfolding low_word mod_floor
low_word_pos n h = ground arith

-- What `operation` gives on words below 2 ^ 256, as wrap_binop leaves it.
unfoldable pub Computes : Binop → (ℕ → ℕ → ℕ) → Type 0
Computes operation f =
    (a b : ℕ)
    → a < 2 ^ 256
    → b < 2 ^ 256
    → (operation (pos a) (pos b) >>= λ r. ok (low_word r)) ≡ ok (pos (f a b))

wrap_binop-Computes :
    (operation : Binop) (f : ℕ → ℕ → ℕ)
    → Computes operation f
    → (a b : ℤ) → IsLiteral a
    → IsLiteral b
    → wrap_binop operation (b ∷ a ∷ []) ≡ ok (pos (f (word_of a) (word_of b)))
unfolding Computes
wrap_binop-Computes operation f c a b p q =
    wrap_binop-word_of operation a b p q
    ∙ c (word_of a) (word_of b) (word_of_lt a p) (word_of_lt b q)

unfoldable pub operation_of : WordOp → Binop
operation_of op_add = returns (λ a b. a +ℤ b)
operation_of op_sub = returns (λ a b. a -ℤ b)
operation_of op_mul = returns (λ a b. a *ℤ b)
operation_of op_div = returns evm_div
operation_of op_mod = returns evm_mod
operation_of op_exp = evm_pow
operation_of op_eq = returns (λ a b. bool_int (leb_ℤ a b && leb_ℤ b a))
operation_of op_lt = returns (λ a b. bool_int (ltb_ℤ a b))
operation_of op_gt = returns (λ a b. bool_int (ltb_ℤ b a))
operation_of op_shl = evm_shl
operation_of op_shr = evm_shr
operation_of op_and = returns int_and
operation_of op_or = returns int_or
operation_of op_xor = returns int_xor

eval_arith-operation_of :
    (o : WordOp) (ops : List ℤ) → eval_arith (opcode_of o) ops ≡ wrap_binop (operation_of o) ops
unfolding eval_arith opcode_of get arithmetic_ops operation_of
eval_arith-operation_of op_add ops = refl
eval_arith-operation_of op_sub ops = refl
eval_arith-operation_of op_mul ops = refl
eval_arith-operation_of op_div ops = refl
eval_arith-operation_of op_mod ops = refl
eval_arith-operation_of op_exp ops = refl
eval_arith-operation_of op_eq ops = refl
eval_arith-operation_of op_lt ops = refl
eval_arith-operation_of op_gt ops = refl
eval_arith-operation_of op_shl ops = refl
eval_arith-operation_of op_shr ops = refl
eval_arith-operation_of op_and ops = refl
eval_arith-operation_of op_or ops = refl
eval_arith-operation_of op_xor ops = refl

low_eq : (r : ℤ) (n : ℕ) → r ≡ pos n → n < 2 ^ 256 → low_word r ≡ pos n
unfolding low_word mod_floor
low_eq (pos m) n e h = ground arith
low_eq (negsuc m) n e h = cc

add-Computes : Computes (operation_of op_add) (evm_word op_add)
unfolding Computes operation_of evm_word low_word mod_floor returns ◌+ℤ◌
add-Computes = λ a b p q. ground arith

sub-Computes : Computes (operation_of op_sub) (evm_word op_sub)
unfolding Computes operation_of evm_word low_word mod_floor returns ◌-ℤ◌
sub-Computes = λ a b p q. ground arith

pos_mul : (a b : ℕ) → pos a *ℤ pos b ≡ pos (a * b)
unfolding ◌*ℤ◌
pos_mul a b = ground arith

mul-Computes : Computes (operation_of op_mul) (evm_word op_mul)
unfolding Computes operation_of evm_word low_word mod_floor returns
mul-Computes = λ a b p q. rw (pos_mul a b) refl

div_pos : (a b : ℕ) → evm_div (pos a) (pos b) ≡ pos (if b == 0 then 0 else a / b)
unfolding evm_div with_sign
div_pos a b = rw (pos_mul a b) (ground arith)

div-Computes : Computes (operation_of op_div) (evm_word op_div)
unfolding Computes operation_of evm_word returns
div-Computes =
    λ a b p q. rw (div_pos a b) (ap ok (low_eq _ _ refl (ground (arith, div-le_self a b))))

mod_pos : (a b : ℕ) → evm_mod (pos a) (pos b) ≡ pos (if b == 0 then 0 else a % b)
unfolding evm_mod with_sign
mod_pos a b = ground arith

mod-Computes : Computes (operation_of op_mod) (evm_word op_mod)
unfolding Computes operation_of evm_word returns
mod-Computes = λ a b p q. rw (mod_pos a b) (ap ok (low_eq _ _ refl (ground (arith, mod-le a b))))

exp-Computes : Computes (operation_of op_exp) (evm_word op_exp)
unfolding Computes operation_of evm_word low_word mod_floor evm_pow
exp-Computes = λ a b p q. ground arith

eq-Computes : Computes (operation_of op_eq) (evm_word op_eq)
unfolding Computes operation_of evm_word low_word mod_floor returns truth bool_int
eq-Computes = λ a b p q. ground arith

lt-Computes : Computes (operation_of op_lt) (evm_word op_lt)
unfolding Computes operation_of evm_word low_word mod_floor returns truth bool_int
lt-Computes = λ a b p q. ground arith

gt-Computes : Computes (operation_of op_gt) (evm_word op_gt)
unfolding Computes operation_of evm_word low_word mod_floor returns truth bool_int
gt-Computes = λ a b p q. ground arith

shifted : (d b : ℕ) → b * 2 ^ (d + 256) ≡ (b * 2 ^ d) * 2 ^ 256
shifted zero b = omega arith
shifted (suc d) b =
    let e : suc d + 256 ≡ suc (d + 256) = omega arith in
    rw (e, pow-suc 2 (d + 256), pow-suc 2 d) (grind (arith, shifted d b))

shift_overflow : (a b : ℕ) → 256 ≤ a → (b * 2 ^ a) % 2 ^ 256 ≡ 0
shift_overflow a b h =
    let e : a ≡ a - 256 + 256 = omega arith in
    rw (e, shifted (a - 256) b) (mul-mod_left (b * 2 ^ (a - 256)) (2 ^ 256))

shl_pos : (a b : ℕ) → b < 2 ^ 256 → evm_shl (pos a) (pos b) ≡ ok (pos ((b * 2 ^ a) % 2 ^ 256))
unfolding evm_shl in_uint256 low_word mod_floor
shl_pos a b h = elim (Bool-cases (leb 256 a)) [
  | inl p ↦ ground (arith, shift_overflow a b)
  | inr p ↦ ground arith
]

shl-Computes : Computes (operation_of op_shl) (evm_word op_shl)
unfolding Computes operation_of evm_word low_word mod_floor
shl-Computes = λ a b p q. rw (shl_pos a b q) (ground arith)

shr-Computes : Computes (operation_of op_shr) (evm_word op_shr)
unfolding Computes operation_of evm_word low_word mod_floor evm_shr in_uint256
shr-Computes = λ a b p q. ground (arith, div-le_self b (2 ^ a))

and-Computes : Computes (operation_of op_and) (evm_word op_and)
unfolding Computes operation_of evm_word returns int_and
and-Computes = λ a b p q. ap ok (low_word_pos (bit_and a b) (bit_and_lt 256 a b p q))

or-Computes : Computes (operation_of op_or) (evm_word op_or)
unfolding Computes operation_of evm_word returns int_or int_and int_not
or-Computes = λ a b p q. ap ok (low_word_pos (bit_or a b) (bit_or_lt 256 a b p q))

xor-Computes : Computes (operation_of op_xor) (evm_word op_xor)
unfolding Computes operation_of evm_word returns int_xor
xor-Computes = λ a b p q. ap ok (low_word_pos (bit_xor a b) (bit_xor_lt 256 a b p q))

pub operation_of-Computes : (o : WordOp) → Computes (operation_of o) (evm_word o)
operation_of-Computes op_add = add-Computes
operation_of-Computes op_sub = sub-Computes
operation_of-Computes op_mul = mul-Computes
operation_of-Computes op_div = div-Computes
operation_of-Computes op_mod = mod-Computes
operation_of-Computes op_exp = exp-Computes
operation_of-Computes op_eq = eq-Computes
operation_of-Computes op_lt = lt-Computes
operation_of-Computes op_gt = gt-Computes
operation_of-Computes op_shl = shl-Computes
operation_of-Computes op_shr = shr-Computes
operation_of-Computes op_and = and-Computes
operation_of-Computes op_or = or-Computes
operation_of-Computes op_xor = xor-Computes

-- eval_arith folds add, sub, mul, div, mod, exp, eq, lt, gt, shl, shr, and, or and xor of two
-- literals, the last operand being the top of the stack, to the word that the EVM computes from the
-- words that they stand for.
pub eval_arith-evm_word :
    (o : WordOp) (a b : ℤ)
    → IsLiteral a
    → IsLiteral b
    → eval_arith (opcode_of o) (b ∷ a ∷ []) ≡ ok (pos (evm_word o (word_of a) (word_of b)))
eval_arith-evm_word o a b p q =
    eval_arith-operation_of o (b ∷ a ∷ [])
    ∙ wrap_binop-Computes (operation_of o) (evm_word o) (operation_of-Computes o) a b p q
