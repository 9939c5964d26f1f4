-- ===== src/Venom/ConstantEval.antt =====
-- vyper/venom/passes/sccp/eval.py: the value of an arithmetic instruction whose operands are
-- literals, as constant propagation folds it. A literal is any integer.
pub mod Words
pub mod Folding
pub mod Signed
pub mod Shift
pub mod Examples
use vysvm.Utils.Ints.{
  mod_floor, unsigned_to_signed, signed_to_unsigned, evm_div, evm_mod, evm_pow, evm_not,
}
use vysvm.Common.Int.{ℤ, leb_ℤ, pos, negsuc, ltb_ℤ, ◌-ℤ◌, abs, ◌+ℤ◌, ◌*ℤ◌}
use vysvm.Common.{
  List, ℕ, Bool, if◌then◌else◌, ◌^◌, false, ◌∷◌, ◌&&◌, bit_and, ◌/◌, bit_xor, true, none, ◌==◌, ◌-◌,
  bit_or, ◌*◌, ◌+◌, some, [],
}
use vysvm.Common.Dict.{get, Dict}
use vysvm.Common.Errors.{◌>>◌, Result, unless, ok, assertion_error, err, ◌>>=◌, key_error}
use Prim.Native.String.{String}
use vysvm.Common.Eq.{String_Eq}

-- `ret & SizeLimits.MAX_UINT256`, which keeps the low 256 bits of Python's integer.
unfoldable pub low_word : ℤ → ℤ
low_word ret = pos (mod_floor ret (2 ^ 256))

abbrev pub Binop : Type 0
Binop = ℤ → ℤ → Result ℤ

abbrev pub Unop : Type 0
Unop = ℤ → Result ℤ

-- `_unsigned_to_signed` and `_signed_to_unsigned`
pub to_signed : ℤ → Result ℤ
to_signed value = unsigned_to_signed value 256 false

pub to_unsigned : ℤ → Result ℤ
to_unsigned value = signed_to_unsigned value 256 false

pub wrap_signed_binop : Binop → List ℤ → Result ℤ
wrap_signed_binop operation (b ∷ a ∷ []) = do
  first ← to_signed a
  second ← to_signed b
  ret ← operation first second
  to_unsigned ret
wrap_signed_binop operation _ = err assertion_error

pub wrap_binop : Binop → List ℤ → Result ℤ
wrap_binop operation (b ∷ a ∷ []) = do
  first ← to_unsigned a
  second ← to_unsigned b
  ret ← operation first second
  ok (low_word ret)
wrap_binop operation _ = err assertion_error

pub wrap_unop : Unop → List ℤ → Result ℤ
wrap_unop operation (a ∷ []) = do value ← to_unsigned a; ret ← operation value; ok (low_word ret)
wrap_unop operation _ = err assertion_error

-- `0 <= value <= SizeLimits.MAX_UINT256`
pub in_uint256 : ℤ → Bool
in_uint256 value = leb_ℤ (pos 0) value && ltb_ℤ value (pos (2 ^ 256))

-- A value whose bits from the sign bit up are set or cleared.
pub extend_sign : ℕ → ℕ → ℕ
extend_sign sign_bit value =
    if bit_and value sign_bit == 0
    then bit_and value (sign_bit - 1)
    else bit_or value (2 ^ 256 - sign_bit)

pub evm_signextend : Binop
evm_signextend nbytes value = do
  unless assertion_error (in_uint256 value)
  if ltb_ℤ (pos 31) nbytes then ok value else (do
    unless assertion_error (leb_ℤ (pos 0) nbytes)
    ok (pos (extend_sign (2 ^ (abs nbytes * 8 + 7)) (abs value))))

-- A Boolean, which Python counts as 0 or 1.
unfoldable pub bool_int : Bool → ℤ
bool_int true = pos 1
bool_int false = pos 0

pub evm_iszero : Unop
evm_iszero value = do
  unless assertion_error (leb_ℤ (pos 0 -ℤ pos (2 ^ 255)) value && ltb_ℤ value (pos (2 ^ 256)))
  ok (bool_int (abs value == 0))

pub evm_shr : Binop
evm_shr shift_len value = do
  unless assertion_error (in_uint256 value)
  unless assertion_error (leb_ℤ (pos 0) shift_len)
  ok (pos (abs value / 2 ^ abs shift_len))

pub evm_shl : Binop
evm_shl shift_len value = do
  unless assertion_error (in_uint256 value)
  if leb_ℤ (pos 256) shift_len then ok (pos 0) else (do
    unless assertion_error (leb_ℤ (pos 0) shift_len)
    ok (low_word (pos (abs value * 2 ^ abs shift_len))))

-- Python's `value >> n`, which rounds down.
pub shift_right : ℤ → ℕ → ℤ
shift_right (pos a) n = pos (a / 2 ^ n)
shift_right (negsuc a) n = negsuc (a / 2 ^ n)

pub evm_sar : Binop
evm_sar shift_len value = do
  unless assertion_error (leb_ℤ (pos 0 -ℤ pos (2 ^ 255)) value && ltb_ℤ value (pos (2 ^ 255)))
  unless assertion_error (leb_ℤ (pos 0) shift_len)
  ok (shift_right value (abs shift_len))

-- Python's bit operations, on the two's complement of any length.
unfoldable pub int_not : ℤ → ℤ
int_not (pos a) = negsuc a
int_not (negsuc a) = pos a

unfoldable pub int_and : ℤ → ℤ → ℤ
int_and (pos a) (pos b) = pos (bit_and a b)
int_and (pos a) (negsuc b) = pos (a - bit_and a b)
int_and (negsuc a) (pos b) = pos (b - bit_and a b)
int_and (negsuc a) (negsuc b) = negsuc (bit_or a b)

unfoldable pub int_or : ℤ → ℤ → ℤ
int_or a b = int_not (int_and (int_not a) (int_not b))

unfoldable pub int_xor : ℤ → ℤ → ℤ
int_xor (pos a) (pos b) = pos (bit_xor a b)
int_xor (pos a) (negsuc b) = negsuc (bit_xor a b)
int_xor (negsuc a) (pos b) = negsuc (bit_xor a b)
int_xor (negsuc a) (negsuc b) = pos (bit_xor a b)

unfoldable pub returns : (ℤ → ℤ → ℤ) → Binop
returns f a b = ok (f a b)

pub arithmetic_ops : Dict String (List ℤ → Result ℤ)
arithmetic_ops =
    ("add", wrap_binop (returns (λ a b. a +ℤ b)))
    ∷ ("sub", wrap_binop (returns (λ a b. a -ℤ b)))
    ∷ ("mul", wrap_binop (returns (λ a b. a *ℤ b)))
    ∷ ("div", wrap_binop (returns evm_div))
    ∷ ("sdiv", wrap_signed_binop (returns evm_div))
    ∷ ("mod", wrap_binop (returns evm_mod))
    ∷ ("smod", wrap_signed_binop (returns evm_mod))
    ∷ ("exp", wrap_binop evm_pow)
    ∷ ("eq", wrap_binop (returns (λ a b. bool_int (leb_ℤ a b && leb_ℤ b a))))
    ∷ ("lt", wrap_binop (returns (λ a b. bool_int (ltb_ℤ a b))))
    ∷ ("gt", wrap_binop (returns (λ a b. bool_int (ltb_ℤ b a))))
    ∷ ("slt", wrap_signed_binop (returns (λ a b. bool_int (ltb_ℤ a b))))
    ∷ ("sgt", wrap_signed_binop (returns (λ a b. bool_int (ltb_ℤ b a))))
    ∷ ("or", wrap_binop (returns int_or))
    ∷ ("and", wrap_binop (returns int_and))
    ∷ ("xor", wrap_binop (returns int_xor))
    ∷ ("not", wrap_unop evm_not)
    ∷ ("signextend", wrap_binop evm_signextend)
    ∷ ("iszero", wrap_unop evm_iszero)
    ∷ ("shr", wrap_binop evm_shr)
    ∷ ("shl", wrap_binop evm_shl)
    ∷ ("sar", wrap_signed_binop evm_sar)
    ∷ []

pub eval_arith : String → List ℤ → Result ℤ
eval_arith opcode ops = elim (get opcode arithmetic_ops) [ none ↦ err key_error | some fn ↦ fn ops ]
