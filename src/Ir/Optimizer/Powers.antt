-- ===== src/Ir/Optimizer/Powers.antt =====
-- vyper/ir/optimizer.py: powers, and the rules for operands that are powers of two.
use native.Mathlib.Nat.{pow-suc, pow-zero, two-pow-succ}
use vysvm.Common.{
  ℕ, ◌^◌, ◌≤◌, ◌≢◌, ◌≡◌, suc, bit_and, ◌==◌, arith, ◌/◌, false, ◌-◌, zero, ◌%◌, Bool-cases, refl,
  inl, ==_iff, ◌∙◌, inr, ap,
}
use vysvm.Ir.Optimizer.Literals.{bit_length_loop, int_log2}
use vysvm.Common.Bits.{bit_and-zero, and_halves}

pub one_pow : (n : ℕ) → 1 ^ n ≡ 1
one_pow zero = refl
one_pow (suc n) = omega (arith, pow-suc 1 n, one_pow n)

pub zero_pow : (n : ℕ) → 0 ^ suc n ≡ 0
zero_pow n = omega (arith, pow-suc 0 n)

pub pow_one : (x : ℕ) → x ^ 1 ≡ x
pow_one x = rw (pow-suc x 0, pow-zero x) (omega arith)

-- `n & n == n`, by digits.
and_same : (k a : ℕ) → a ≤ k → bit_and a a ≡ a
and_same k zero h = bit_and-zero 0
and_same zero (suc a) h = absurd (omega arith)
and_same (suc k) (suc a) h =
    omega (arith, and_halves (suc a) (suc a), and_same k (suc a / 2) (omega arith))

no_bits : (rounds : ℕ) → bit_length_loop rounds 0 ≡ 0
unfolding bit_length_loop
no_bits zero = refl
no_bits (suc rounds) = refl

one_more_bit :
    (rounds n : ℕ) → n ≢ 0 → bit_length_loop (suc rounds) n ≡ suc (bit_length_loop rounds (n / 2))
unfolding bit_length_loop
one_more_bit rounds n h = ground arith

-- An odd number above 1 shares its higher digits with its predecessor.
even_of : (n : ℕ) → n ≢ 0 → (n == 1) ≡ false → bit_and n (n - 1) ≡ 0 → n % 2 ≡ 0
even_of n z more e = elim (Bool-cases (n % 2 == 0)) [
  | inl even ↦ (==_iff (n % 2) 0).0 even
  | inr odd ↦
      let h = and_halves n (n - 1) in
      let r : n % 2 ≡ 1 = ground arith in
      let s : (n - 1) / 2 ≡ n / 2 = omega arith in
      let t = and_same (n / 2) (n / 2) (omega arith) in ground (arith, rw s at h, t)
]

-- A number that shares no digit with its predecessor is a power of two.
single_bit :
    (rounds n : ℕ)
    → n ≤ rounds
    → n ≢ 0
    → bit_and n (n - 1) ≡ 0
    → (k : ℕ) × (bit_length_loop rounds n ≡ suc k) × (n ≡ 2 ^ k)
single_bit zero n l z e = absurd (z (omega arith))
single_bit (suc rounds) n l z e = elim (Bool-cases (n == 1)) [
  | inl one ↦
      let d : n ≡ 1 = (==_iff n 1).0 one in
      (0, one_more_bit rounds n z ∙ rw d (ap suc (no_bits rounds)), d)
  | inr more ↦
      let h = and_halves n (n - 1) in
      let even : n % 2 ≡ 0 = even_of n z more e in
      let m : n / 2 ≢ 0 = ground arith in
      let s : (n - 1) / 2 ≡ n / 2 - 1 = omega arith in
      let (k, b, w) = single_bit rounds (n / 2) (omega arith) m (omega (arith, rw s at h)) in
      (suc k, one_more_bit rounds n z ∙ ap suc b, omega (arith, two-pow-succ k))
]

pub log2_lem : (n : ℕ) → n ≢ 0 → bit_and n (n - 1) ≡ 0 → n ≡ 2 ^ int_log2 n
unfolding int_log2
log2_lem n z e =
    let (k, b, w) = single_bit n n (omega arith) z e in
    let d : bit_length_loop n n - 1 ≡ k = omega arith in w ∙ rw d refl
