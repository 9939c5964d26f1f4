-- ===== src/Utils/Ints/Examples.antt =====
-- vyper/utils.py: the theorems at -1 and 255, on 8 bits.
use vysvm.Utils.Ints.{check_bounds, int_bounds, signed_to_unsigned, unsigned_to_signed}
use vysvm.Common.Int.{◌-ℤ◌, negsuc, pos}
use vysvm.Common.{true, ◌≡◌, refl}
use vysvm.Common.Errors.{◌>>=◌, ok}
use vysvm.Utils.Ints.Signed.{
  unsigned_to_signed-signed_to_unsigned, signed_to_unsigned-unsigned_to_signed,
}

unsigned_to_signed-signed_to_unsigned_example :
    (signed_to_unsigned (negsuc 0) 8 true >>= λ y. unsigned_to_signed y 8 true) ≡ ok (negsuc 0)
unfolding check_bounds int_bounds ◌-ℤ◌
unsigned_to_signed-signed_to_unsigned_example =
    unsigned_to_signed-signed_to_unsigned true 7 (negsuc 0) refl

signed_to_unsigned-unsigned_to_signed_example :
    (unsigned_to_signed (pos 255) 8 true >>= λ y. signed_to_unsigned y 8 true) ≡ ok (pos 255)
unfolding check_bounds int_bounds ◌-ℤ◌
signed_to_unsigned-unsigned_to_signed_example =
    signed_to_unsigned-unsigned_to_signed true 7 (pos 255) refl
