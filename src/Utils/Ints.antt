-- ===== src/Utils/Ints.antt =====
-- vyper/utils.py: bounds of the integer types, their reinterpretation, and EVM arithmetic on
-- Python's integers. The number of bits is positive.
pub mod Signed
pub mod Examples
use vysvm.Common.{
  Bool, ℕ, if◌then◌else◌, ◌/◌, ◌%◌, ◌^◌, ◌*◌, ◌-◌, true, false, ◌==◌, ◌+◌, ltb, ◌&&◌, bit_xor,
}
use vysvm.Common.Int.{ℤ, pos, ◌-ℤ◌, abs, negsuc, ltb_ℤ, leb_ℤ, ◌+ℤ◌, ◌*ℤ◌}
use vysvm.Common.Errors.{Result, ok, ◌>>◌, unless, err, assertion_error}

unfoldable pub int_bounds : Bool → ℕ → ℤ × ℤ
int_bounds true bits = (pos 0 -ℤ pos (2 ^ (bits - 1)), pos (2 ^ (bits - 1)) -ℤ pos 1)
int_bounds false bits = (pos 0, pos (2 ^ bits) -ℤ pos 1)

-- `assert lo <= int_ <= hi`, if `strict`.
unfoldable pub check_bounds : Bool → ℤ × ℤ → ℤ → Result (Unit {0})
check_bounds false _ _ = ok tt
check_bounds true (lo, hi) x = unless assertion_error (leb_ℤ lo x && leb_ℤ x hi)

unfoldable pub signed_to_unsigned : ℤ → ℕ → Bool → Result ℤ
unfolding int_bounds check_bounds
signed_to_unsigned x bits strict = do
  check_bounds strict (int_bounds true bits) x
  ok (if ltb_ℤ x (pos 0) then x +ℤ pos (2 ^ bits) else x)

unfoldable pub unsigned_to_signed : ℤ → ℕ → Bool → Result ℤ
unfolding int_bounds check_bounds
unsigned_to_signed x bits strict = do
  check_bounds strict (int_bounds false bits) x
  ok (if ltb_ℤ (pos (2 ^ (bits - 1)) -ℤ pos 1) x then x -ℤ pos (2 ^ bits) else x)

-- Python's `val % n` for a positive `n`.
unfoldable pub mod_floor : ℤ → ℕ → ℕ
mod_floor (pos a) n = a % n
mod_floor (negsuc a) n = n - 1 - a % n

unfoldable pub wrap256 : ℤ → Bool → Result ℤ
unfolding mod_floor unsigned_to_signed
wrap256 val signed =
    let ret = pos (mod_floor val (2 ^ 256)) in
    if signed then unsigned_to_signed ret 256 true else ok ret

-- `sign * n`
unfoldable pub with_sign : Bool → ℕ → ℤ
with_sign true n = pos 0 -ℤ pos n
with_sign false n = pos n

unfoldable pub evm_div : ℤ → ℤ → ℤ
unfolding with_sign
evm_div x y = if abs y == 0 then pos 0 else with_sign (ltb_ℤ (x *ℤ y) (pos 0)) (abs x / abs y)

unfoldable pub evm_mod : ℤ → ℤ → ℤ
unfolding with_sign
evm_mod x y = if abs y == 0 then pos 0 else with_sign (ltb_ℤ x (pos 0)) (abs x % abs y)

unfoldable pub evm_pow : ℤ → ℤ → Result ℤ
evm_pow (pos x) (pos y) = ok (pos ((x ^ y) % 2 ^ 256))
evm_pow _ _ = err assertion_error

pub evm_not : ℤ → Result ℤ
evm_not (pos val) = do
  unless assertion_error (ltb val (2 ^ 256))
  ok (pos (bit_xor (2 ^ 256 - 1) val))
evm_not (negsuc _) = err assertion_error

unfoldable pub ceil32 : ℕ → ℕ
ceil32 x = if x % 32 == 0 then x else x + 32 - x % 32

pub calc_mem_gas : ℕ → ℕ
calc_mem_gas memsize = (memsize / 32) * 3 + ((memsize / 32) ^ 2) / 512
