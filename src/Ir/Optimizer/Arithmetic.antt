-- ===== src/Ir/Optimizer/Arithmetic.antt =====
-- vyper/ir/optimizer.py: each of the rules for arithmetic is right.
use vysvm.Ir.Arith.{Binop, op_mod, div, mul, is_unsigned, evm_int, sub, name_of}
use vysvm.Ir.Optimizer.Soundness.{
  IsRight, zero_neutral, one_neutral, eq_zero_right, ne_zero_right, eq_ones_right, rule-IsRight,
  zero_absorbs, one_absorbs, minus_negates, and_right, and_left, ones_right,
}
use vysvm.Ir.Optimizer.Rules.{
  rule, neutral_zero, absorbing_zero, modulo_one, neutral_one, minus_one, eq_zero, ne_zero, eq_max,
  all_ones, power_of_two, power_term, ones_term,
}
use vysvm.Ir.Optimizer.Meaning.{Reads, Agrees, Agrees-eq, eval_term, Reads-small, Reads-ones}
use vysvm.Ir.Optimizer.Term.{Term, seq, iszero, bit_not, binary, left, literal}
use vysvm.Ir.Node.{IrNode, ir_node, number, text}
use vysvm.Common.{
  Bool, ℕ, Option, ◌<◌, false, ◌^◌, ◌≡◌, some, true, ◌-◌, none, ◌&&◌, arith, sym, refl,
  if◌then◌else◌, ◌∷◌, [],
}
use vysvm.Ir.Arith.Words.{evm, read, evm_int-read}
use vysvm.Venom.ConstantEval.Words.{word_of, IsLiteral}
use vysvm.Ir.Optimizer.Literals.{reads_as, member, is_power_of_two}
use vysvm.Common.Int.{pos, negsuc, ℤ}
use vysvm.Ir.Optimizer.PowerRules.{power_right}

-- A rule that keeps the value is right also where only the truth counts.
pub weaken :
    (truthy : Bool) (o : Binop) (x y : ℕ) (r : Option Term)
    → IsRight false o x y r
    → IsRight truthy o x y r
unfolding Agrees
weaken truthy o x y none h = tt
weaken truthy o x y (some t) h = Agrees-eq truthy _ _ h

pub guarded :
    (truthy : Bool) (o : Binop) (x y : ℕ) (c : Bool) (r : Option Term)
    → (c ≡ true → IsRight truthy o x y r)
    → IsRight truthy o x y (if c then r else none)
guarded truthy o x y true r h = h refl
guarded truthy o x y false r h = tt

module _ (truthy : Bool) (o : Binop) (x y : ℕ) (p : x < 2 ^ 256) (q : y < 2 ^ 256) (b : IrNode)
    (r : Reads b y) where
  -- Rules that look for a small number, or for ones.
  small_rule :
      (k : ℕ) (u m : Bool) (t : Term)
      → k < 2 ^ 255
      → (m ≡ true → eval_term t x k ≡ evm o x k)
      → IsRight truthy o x y (rule (m && reads_as u (pos k) b) t)
  small_rule k u m t l h =
      rule-IsRight truthy o x y _ t
        (λ c. let e = Reads-small u k b y r q l (and_right m _ c) in rw e (h (and_left m _ c)))

  ones_rule :
      (m : Bool) (t : Term)
      → (m ≡ true → eval_term t x (2 ^ 256 - 1) ≡ evm o x (2 ^ 256 - 1))
      → IsRight truthy o x y (rule (m && reads_as false (negsuc 0) b) t)
  ones_rule m t h =
      rule-IsRight truthy o x y _ t
        (λ c. let e = Reads-ones b y r q (and_right m _ c) in rw e (h (and_left m _ c)))

  pub neutral_zero-IsRight : IsRight truthy o x y (neutral_zero o b)
  unfolding neutral_zero eval_term
  neutral_zero-IsRight =
      small_rule 0 _ _ (seq left) (omega arith) (λ h. sym (zero_neutral x y p q o h))

  pub absorbing_zero-IsRight : IsRight truthy o x y (absorbing_zero o b)
  unfolding absorbing_zero eval_term word_of
  absorbing_zero-IsRight =
      small_rule 0 _ _ (literal (pos 0)) (omega arith) (λ h. sym (zero_absorbs x y p q o h))

  pub modulo_one-IsRight : IsRight truthy o x y (modulo_one o b)
  unfolding modulo_one eval_term word_of
  modulo_one-IsRight =
      small_rule 1 _ _ (literal (pos 0)) (omega arith) (λ h. sym (one_absorbs x y p q o h))

  pub neutral_one-IsRight : IsRight truthy o x y (neutral_one o b)
  unfolding neutral_one eval_term
  neutral_one-IsRight =
      small_rule 1 _ _ (seq left) (omega arith) (λ h. sym (one_neutral x y p q o h))

  pub minus_one-IsRight : IsRight truthy o x y (minus_one o b)
  unfolding minus_one eval_term word_of
  minus_one-IsRight =
      ones_rule _ (binary sub (literal (pos 0)) left) (λ h. sym (minus_negates x y p q o h))

  pub eq_zero-IsRight : IsRight truthy o x y (eq_zero o b)
  unfolding eq_zero eval_term
  eq_zero-IsRight =
      small_rule 0 _ _ (iszero left) (omega arith) (λ h. sym (eq_zero_right x y p q o h))

  pub ne_zero-IsRight : IsRight truthy o x y (ne_zero o b)
  unfolding ne_zero eval_term
  ne_zero-IsRight =
      small_rule 0 _ _ (iszero (iszero left)) (omega arith) (λ h. sym (ne_zero_right x y p q o h))

  pub eq_max-IsRight : IsRight truthy o x y (eq_max o b)
  unfolding eq_max eval_term
  eq_max-IsRight = ones_rule _ (iszero (bit_not left)) (λ h. sym (eq_ones_right x y p q o h))

  pub all_ones-IsRight : IsRight truthy o x y (all_ones o b)
  unfolding all_ones
  all_ones-IsRight = guarded truthy o x y _ _ (λ c.
      let e = Reads-ones b y r q (and_right _ _ c) in
      weaken truthy o x y (ones_term o b)
        (rw e (ones_right x y p q o b (rw e at r) (and_left _ _ c))))

  reads_pos : (v : ℤ) → IsLiteral v → y ≡ word_of v → evm_int v true ≡ pos y
  unfolding read
  reads_pos v l e = rw e (evm_int-read v true l)

  power_literal :
      (v : ℤ)
      → IsLiteral v
      → y ≡ word_of v
      → (m : Bool) → (m ≡ true → is_unsigned o ≡ true)
      → IsRight truthy o x y (
          if m && is_power_of_two (evm_int v (is_unsigned o))
          then power_term o (evm_int v (is_unsigned o))
          else none)
  power_literal v l e m u = guarded truthy o x y _ _ (λ c.
      let d : evm_int v (is_unsigned o) ≡ pos y =
        rw (u (and_left m (is_power_of_two (evm_int v (is_unsigned o))) c)) (reads_pos v l e) in
      let h =
        power_right x y (rw d at (and_right m (is_power_of_two (evm_int v (is_unsigned o))) c)) o in
      weaken truthy o x y (power_term o (evm_int v (is_unsigned o))) (rw d h))

unsigned_powers : (o : Binop) → member (op_mod ∷ div ∷ mul ∷ []) o ≡ true → is_unsigned o ≡ true
unfolding member name_of is_unsigned
unsigned_powers op_mod h = refl
unsigned_powers div h = refl
unsigned_powers mul h = refl
unsigned_powers _ h = cc

pub power_of_two-IsRight :
    (truthy : Bool) (o : Binop) (x y : ℕ)
    → x < 2 ^ 256
    → y < 2 ^ 256
    → (b : IrNode) → Reads b y
    → IsRight truthy o x y (power_of_two o b)
unfolding power_of_two Reads
power_of_two-IsRight truthy o x y p q (ir_node (number v) args empty) (l, e) =
    power_literal truthy o x y p q (ir_node (number v) args empty) (l, e) v l e _
      (unsigned_powers o)
power_of_two-IsRight truthy o x y p q (ir_node (text s) args empty) r = tt
