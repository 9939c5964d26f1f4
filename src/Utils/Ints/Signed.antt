-- ===== src/Utils/Ints/Signed.antt =====
-- vyper/utils.py: reading an integer as signed and as unsigned are inverse to each other.
use native.Mathlib.Nat.{two-pow-succ, one-le-pow}
use vysvm.Common.{ℕ, ◌^◌, suc, ◌≡◌, ◌+◌, ◌<◌, arith, Bool, true, false}
use vysvm.Utils.Ints.{signed_to_unsigned, unsigned_to_signed, check_bounds, int_bounds}
use vysvm.Common.Int.{◌+ℤ◌, ◌-ℤ◌, ℤ}
use vysvm.Common.Errors.{ok, ◌>>=◌}

half : (n : ℕ) → (2 ^ suc n ≡ 2 ^ n + 2 ^ n) × (0 < 2 ^ n)
half n = (two-pow-succ n, one-le-pow n 2 (omega arith))

-- For a positive number of bits, strict or not, an integer in the bounds of the signed type is
-- read as an unsigned one and back.
pub unsigned_to_signed-signed_to_unsigned :
    (strict : Bool) (n : ℕ) (x : ℤ)
    → check_bounds true (int_bounds true (suc n)) x ≡ ok tt
    → (signed_to_unsigned x (suc n) strict >>= λ y. unsigned_to_signed y (suc n) strict) ≡ ok x
unfolding signed_to_unsigned unsigned_to_signed check_bounds int_bounds ◌+ℤ◌ ◌-ℤ◌
unsigned_to_signed-signed_to_unsigned true n x h = let (e, z) = half n in ground arith
unsigned_to_signed-signed_to_unsigned false n x h = let (e, z) = half n in ground arith

-- For a positive number of bits, strict or not, an integer in the bounds of the unsigned type is
-- read as a signed one and back.
pub signed_to_unsigned-unsigned_to_signed :
    (strict : Bool) (n : ℕ) (x : ℤ)
    → check_bounds true (int_bounds false (suc n)) x ≡ ok tt
    → (unsigned_to_signed x (suc n) strict >>= λ y. signed_to_unsigned y (suc n) strict) ≡ ok x
unfolding signed_to_unsigned unsigned_to_signed check_bounds int_bounds ◌+ℤ◌ ◌-ℤ◌
signed_to_unsigned-unsigned_to_signed true n x h = let (e, z) = half n in ground arith
signed_to_unsigned-unsigned_to_signed false n x h = let (e, z) = half n in ground arith
