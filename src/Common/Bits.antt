-- ===== src/Common/Bits.antt =====
-- Laws of the bit operations on numbers of any length, from the definitions by digits.
use native.Mathlib.Nat.{two-pow-succ, one-le-pow, mul-add}
use Prim.Native.Nat.{
  digits, bitwise, differ, bit_and-bitwise, bit_or-bitwise, bit_xor-bitwise, min, max,
}
use vysvm.Common.{
  ℕ, ◌≤◌, suc, bit_and, bit_or, ◌<◌, bit_xor, ◌≡◌, ◌/◌, ◌-◌, ◌*◌, arith, ◌+◌, ◌%◌, zero, refl, ◌^◌,
  ap,
}

module _ (last : ℕ → ℕ) (digit : ℕ → ℕ → ℕ) where
  -- Two counts of rounds that both suffice give the same number.
  same_rounds : (k m a b : ℕ) → a ≤ k → a ≤ m → digits last digit k a b ≡ digits last digit m a b
  same_rounds zero zero a b p q = refl
  same_rounds zero (suc m) zero b p q = refl
  same_rounds zero (suc m) (suc a) b p q = absurd (omega arith)
  same_rounds (suc k) zero zero b p q = refl
  same_rounds (suc k) zero (suc a) b p q = absurd (omega arith)
  same_rounds (suc k) (suc m) zero b p q = refl
  same_rounds (suc k) (suc m) (suc a) b p q =
      omega (arith, same_rounds k m (suc a / 2) (b / 2) (omega arith) (omega arith))

  lowest_digit :
      (a b : ℕ)
      → bitwise last digit (suc a) b
        ≡ bitwise last digit (suc a / 2) (b / 2) * 2 + digit (suc a % 2) (b % 2)
  lowest_digit a b =
      omega (arith, same_rounds a (suc a / 2) (suc a / 2) (b / 2) (omega arith) (omega arith))

pub and_halves : (a b : ℕ) → bit_and a b ≡ bit_and (a / 2) (b / 2) * 2 + min (a % 2) (b % 2)
and_halves zero b = simp bit_and-bitwise (omega arith)
and_halves (suc a) b = simp bit_and-bitwise (lowest_digit (λ _. 0) min a b)

pub or_halves : (a b : ℕ) → bit_or a b ≡ bit_or (a / 2) (b / 2) * 2 + max (a % 2) (b % 2)
or_halves zero b = simp bit_or-bitwise (omega arith)
or_halves (suc a) b = simp bit_or-bitwise (lowest_digit (λ y. y) max a b)

-- The digit of the exclusive or.
odd_one : (x y : ℕ) → x < 2 → y < 2 → differ x y ≡ max x y - min x y
odd_one zero y p q = omega arith
odd_one (suc zero) zero p q = refl
odd_one (suc zero) (suc zero) p q = refl
odd_one (suc zero) (suc (suc y)) p q = absurd (omega arith)
odd_one (suc (suc x)) y p q = absurd (omega arith)

pub xor_halves :
    (a b : ℕ)
    → bit_xor a b ≡ bit_xor (a / 2) (b / 2) * 2 + (max (a % 2) (b % 2) - min (a % 2) (b % 2))
xor_halves zero b = simp bit_xor-bitwise (omega arith)
xor_halves (suc a) b = simp bit_xor-bitwise (
    omega (
      arith,
      lowest_digit (λ y. y) differ a b,
      odd_one (suc a % 2) (b % 2) (omega arith) (omega arith),
    ))

zero-bit_and : (b : ℕ) → bit_and 0 b ≡ 0
zero-bit_and b = simp bit_and-bitwise refl

zero-bit_or : (b : ℕ) → bit_or 0 b ≡ b
zero-bit_or b = simp bit_or-bitwise refl

zero-bit_xor : (b : ℕ) → bit_xor 0 b ≡ b
zero-bit_xor b = simp bit_xor-bitwise refl

-- Induction on the number of digits: `k` bounds the first number.
and_none : (k a : ℕ) → a ≤ k → bit_and a 0 ≡ 0
and_none k zero h = zero-bit_and 0
and_none zero (suc a) h = absurd (omega arith)
and_none (suc k) (suc a) h =
    omega (arith, and_halves (suc a) 0, and_none k (suc a / 2) (omega arith))

or_none : (k a : ℕ) → a ≤ k → bit_or a 0 ≡ a
or_none k zero h = zero-bit_or 0
or_none zero (suc a) h = absurd (omega arith)
or_none (suc k) (suc a) h = omega (arith, or_halves (suc a) 0, or_none k (suc a / 2) (omega arith))

xor_none : (k a : ℕ) → a ≤ k → bit_xor a 0 ≡ a
xor_none k zero h = zero-bit_xor 0
xor_none zero (suc a) h = absurd (omega arith)
xor_none (suc k) (suc a) h =
    omega (arith, xor_halves (suc a) 0, xor_none k (suc a / 2) (omega arith))

xor_same : (k a : ℕ) → a ≤ k → bit_xor a a ≡ 0
xor_same k zero h = zero-bit_xor 0
xor_same zero (suc a) h = absurd (omega arith)
xor_same (suc k) (suc a) h =
    omega (arith, xor_halves (suc a) (suc a), xor_same k (suc a / 2) (omega arith))

xor_eq : (k a b : ℕ) → a ≤ k → bit_xor a b ≡ 0 → a ≡ b
xor_eq k zero b h e = omega (arith, zero-bit_xor b)
xor_eq zero (suc a) b h e = absurd (omega arith)
xor_eq (suc k) (suc a) b h e =
    let l = xor_halves (suc a) b in
    omega (arith, l, xor_eq k (suc a / 2) (b / 2) (omega arith) (omega (arith, l)))

or_sum : (k a b : ℕ) → a ≤ k → bit_or a b ≡ 0 → b ≡ 0
or_sum k zero b h e = omega (arith, zero-bit_or b)
or_sum zero (suc a) b h e = absurd (omega arith)
or_sum (suc k) (suc a) b h e =
    let l = or_halves (suc a) b in
    omega (arith, l, or_sum k (suc a / 2) (b / 2) (omega arith) (omega (arith, l)))

and_swapped : (k a b : ℕ) → a ≤ k → b ≤ k → bit_and a b ≡ bit_and b a
and_swapped zero zero zero p q = refl
and_swapped zero (suc a) b p q = absurd (omega arith)
and_swapped zero zero (suc b) p q = absurd (omega arith)
and_swapped (suc k) a b p q = omega (
  arith,
  and_halves a b,
  and_halves b a,
  and_swapped k (a / 2) (b / 2) (omega arith) (omega arith),
)

or_swapped : (k a b : ℕ) → a ≤ k → b ≤ k → bit_or a b ≡ bit_or b a
or_swapped zero zero zero p q = refl
or_swapped zero (suc a) b p q = absurd (omega arith)
or_swapped zero zero (suc b) p q = absurd (omega arith)
or_swapped (suc k) a b p q =
    omega (
      arith,
      or_halves a b,
      or_halves b a,
      or_swapped k (a / 2) (b / 2) (omega arith) (omega arith),
    )

xor_swapped : (k a b : ℕ) → a ≤ k → b ≤ k → bit_xor a b ≡ bit_xor b a
xor_swapped zero zero zero p q = refl
xor_swapped zero (suc a) b p q = absurd (omega arith)
xor_swapped zero zero (suc b) p q = absurd (omega arith)
xor_swapped (suc k) a b p q = omega (
  arith,
  xor_halves a b,
  xor_halves b a,
  xor_swapped k (a / 2) (b / 2) (omega arith) (omega arith),
)

pub bit_and_comm : (a b : ℕ) → bit_and a b ≡ bit_and b a
bit_and_comm a b = and_swapped (a + b) a b (omega arith) (omega arith)

pub bit_or_comm : (a b : ℕ) → bit_or a b ≡ bit_or b a
bit_or_comm a b = or_swapped (a + b) a b (omega arith) (omega arith)

pub bit_xor_comm : (a b : ℕ) → bit_xor a b ≡ bit_xor b a
bit_xor_comm a b = xor_swapped (a + b) a b (omega arith) (omega arith)

pub bit_and-zero : (a : ℕ) → bit_and a 0 ≡ 0
bit_and-zero a = and_none a a (omega arith)

pub bit_or-zero : (a : ℕ) → bit_or a 0 ≡ a
bit_or-zero a = or_none a a (omega arith)

pub bit_xor-zero : (a : ℕ) → bit_xor a 0 ≡ a
bit_xor-zero a = xor_none a a (omega arith)

pub bit_xor_self : (a : ℕ) → bit_xor a a ≡ 0
bit_xor_self a = xor_same a a (omega arith)

pub eq_of_bit_xor : (a b : ℕ) → bit_xor a b ≡ 0 → a ≡ b
eq_of_bit_xor a b e = xor_eq a a b (omega arith) e

pub zero_of_bit_or : (a b : ℕ) → bit_or a b ≡ 0 → b ≡ 0
zero_of_bit_or a b e = or_sum a a b (omega arith) e

ones_half : (n : ℕ) → ((2 ^ suc n - 1) / 2 ≡ 2 ^ n - 1) × ((2 ^ suc n - 1) % 2 ≡ 1)
ones_half n =
    let p = two-pow-succ n in let q = one-le-pow n 2 (omega arith) in (omega arith, omega arith)

shifted_half :
    (n q r : ℕ) → ((q * 2 ^ suc n + r) / 2 ≡ q * 2 ^ n + r / 2) × ((q * 2 ^ suc n + r) % 2 ≡ r % 2)
shifted_half n q r =
    let e = ap (λ (t : ℕ). q * t) (two-pow-succ n) in
    let d = mul-add q (2 ^ n) (2 ^ n) in (omega arith, omega arith)

-- A mask of `n` ones takes `n` digits.
pub bit_and_mask : (n q r : ℕ) → r < 2 ^ n → bit_and (q * 2 ^ n + r) (2 ^ n - 1) ≡ r
bit_and_mask zero q r h = omega (arith, bit_and-zero (q * 2 ^ 0 + r))
bit_and_mask (suc n) q r h =
    let (e, d) = ones_half n in
    let (s, t) = shifted_half n q r in
    let l = and_halves (q * 2 ^ suc n + r) (2 ^ suc n - 1) in
    omega (arith, rw (e, s) at l, bit_and_mask n q (r / 2) (omega (arith, two-pow-succ n)))

pub bit_or_mask : (n a : ℕ) → a < 2 ^ n → bit_or a (2 ^ n - 1) ≡ 2 ^ n - 1
bit_or_mask zero a h = omega (arith, bit_or-zero a)
bit_or_mask (suc n) a h =
    let (e, d) = ones_half n in
    let l = or_halves a (2 ^ suc n - 1) in
    omega (arith, rw e at l, bit_or_mask n (a / 2) (omega (arith, two-pow-succ n)))

pub bit_xor_mask : (n a : ℕ) → a < 2 ^ n → bit_xor a (2 ^ n - 1) ≡ 2 ^ n - 1 - a
bit_xor_mask zero a h = omega (arith, bit_xor-zero a)
bit_xor_mask (suc n) a h =
    let (e, d) = ones_half n in
    let l = xor_halves a (2 ^ suc n - 1) in
    omega (arith, rw e at l, bit_xor_mask n (a / 2) (omega (arith, two-pow-succ n)))

halves_lt : (n a : ℕ) → a < 2 ^ suc n → a / 2 < 2 ^ n
halves_lt n a h = omega (arith, two-pow-succ n)

pub bit_or_lt : (n a b : ℕ) → a < 2 ^ n → b < 2 ^ n → bit_or a b < 2 ^ n
bit_or_lt zero a b p q =
    let e : a ≡ 0 = omega arith in
    let d : b ≡ 0 = omega arith in rw (e, d) (omega (arith, bit_or-zero 0))
bit_or_lt (suc n) a b p q = omega (
  arith,
  or_halves a b,
  two-pow-succ n,
  bit_or_lt n (a / 2) (b / 2) (halves_lt n a p) (halves_lt n b q),
)

pub bit_and_lt : (n a b : ℕ) → a < 2 ^ n → b < 2 ^ n → bit_and a b < 2 ^ n
bit_and_lt zero a b p q =
    let e : a ≡ 0 = omega arith in
    let d : b ≡ 0 = omega arith in rw (e, d) (omega (arith, bit_and-zero 0))
bit_and_lt (suc n) a b p q = omega (
  arith,
  and_halves a b,
  two-pow-succ n,
  bit_and_lt n (a / 2) (b / 2) (halves_lt n a p) (halves_lt n b q),
)

pub bit_xor_lt : (n a b : ℕ) → a < 2 ^ n → b < 2 ^ n → bit_xor a b < 2 ^ n
bit_xor_lt zero a b p q =
    let e : a ≡ 0 = omega arith in
    let d : b ≡ 0 = omega arith in rw (e, d) (omega (arith, bit_xor-zero 0))
bit_xor_lt (suc n) a b p q = omega (
  arith,
  xor_halves a b,
  two-pow-succ n,
  bit_xor_lt n (a / 2) (b / 2) (halves_lt n a p) (halves_lt n b q),
)
