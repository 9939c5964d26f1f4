-- ===== src/Ir/Optimizer/PowerRules.antt =====
-- vyper/ir/optimizer.py: the rules for a second operand that is a power of two keep the value.
use native.Mathlib.Nat.{div-add-mod', mod-lt, one-le-pow}
use vysvm.Ir.Arith.{Binop, op_mod, div, mul, and_op}
use vysvm.Ir.Optimizer.Literals.{is_power_of_two, eqb_ℤ, int_log2}
use vysvm.Ir.Optimizer.Rules.{power_term}
use vysvm.Common.Int.{pos, ◌-ℤ◌}
use vysvm.Venom.ConstantEval.{int_and}
use vysvm.Ir.Optimizer.Term.{shl, shr, binary, left, literal}
use vysvm.Common.Bits.{bit_and_mask}
use vysvm.Common.{
  ℕ, not, ◌≡◌, ◌≢◌, ◌==◌, ◌-◌, bit_and, true, ◌^◌, ◌&&◌, arith, ◌%◌, refl, suc, sym, ◌∙◌, zero, ◌<◌,
  ap, ◌/◌, false,
}
use vysvm.Ir.Optimizer.Powers.{log2_lem}
use vysvm.Ir.Arith.Words.{evm}
use vysvm.Venom.ConstantEval.Folding.{evm_word}
use vysvm.Ir.Optimizer.Soundness.{IsRight}
use vysvm.Ir.Optimizer.Meaning.{eval_term, Agrees-eq}
use vysvm.Venom.ConstantEval.Words.{word_of}

power_flag : (n m : ℕ) → (not (n == 0) && (m == 0)) ≡ true → (n ≢ 0) × (m ≡ 0)
power_flag n m h = ground arith

eqb-pos : (a b : ℕ) → eqb_ℤ (pos a) (pos b) ≡ (a == b)
unfolding eqb_ℤ
eqb-pos a b = ground arith

minus_1 : (n : ℕ) → n ≢ 0 → pos n -ℤ pos 1 ≡ pos (n - 1)
unfolding ◌-ℤ◌
minus_1 n h = ground arith

and_minus : (n : ℕ) → n ≢ 0 → int_and (pos n) (pos n -ℤ pos 1) ≡ pos (bit_and n (n - 1))
unfolding int_and
and_minus n h = rw (minus_1 n h) refl

power_facts : (n : ℕ) → is_power_of_two (pos n) ≡ true → (n ≢ 0) × (bit_and n (n - 1) ≡ 0)
unfolding is_power_of_two
power_facts zero h = absurd (cc (rw (eqb-pos 0 0) at h))
power_facts (suc n) h =
    let z : suc n ≢ 0 = omega arith in
    power_flag (suc n) _
      (rw (eqb-pos (suc n) 0, and_minus (suc n) z, eqb-pos (bit_and (suc n) (suc n - 1)) 0) at h)

pow_above : (k : ℕ) → 0 < 2 ^ k
pow_above k = omega (arith, one-le-pow k 2 (omega arith))

mod_mask : (x y k : ℕ) → y ≡ 2 ^ k → bit_and x (y - 1) ≡ x % y
mod_mask x y k e = rw e (
    ap (λ (t : ℕ). bit_and t (2 ^ k - 1)) (sym (div-add-mod' x (2 ^ k)))
    ∙ bit_and_mask k (x / 2 ^ k) (x % 2 ^ k) (mod-lt x (pow_above k)))

-- A number that passes is_power_of_two is 2 to the power of its int_log2.
pub int_log2-is_power_of_two : (n : ℕ) → is_power_of_two (pos n) ≡ true → n ≡ 2 ^ int_log2 n
int_log2-is_power_of_two n h = let (z, e) = power_facts n h in log2_lem n z e

module _ (x n : ℕ) (h : is_power_of_two (pos n) ≡ true) where
  mod_power : eval_term (binary and_op left (literal (pos n -ℤ pos 1))) x n ≡ evm op_mod x n
  unfolding evm evm_word eval_term word_of
  mod_power =
      let (z, e) = power_facts n h in
      rw (minus_1 n z) (mod_mask x n (int_log2 n) (int_log2-is_power_of_two n h) ∙ ground arith)

  div_power : eval_term (shr (literal (pos (int_log2 n))) left) x n ≡ evm div x n
  unfolding evm evm_word eval_term word_of
  div_power = let (z, e) = power_facts n h in rw (sym (int_log2-is_power_of_two n h)) (ground arith)

  mul_power : eval_term (shl (literal (pos (int_log2 n))) left) x n ≡ evm mul x n
  unfolding evm evm_word eval_term word_of
  mul_power = rw (sym (int_log2-is_power_of_two n h)) refl

  pub power_right : (o : Binop) → IsRight false o x n (power_term o (pos n))
  unfolding power_term
  power_right op_mod = Agrees-eq false _ _ mod_power
  power_right div = Agrees-eq false _ _ div_power
  power_right mul = Agrees-eq false _ _ mul_power
  power_right _ = tt
