-- ===== src/Ir/Optimizer/ComparisonSoundness.antt =====
-- vyper/ir/optimizer.py: `_comparison_helper` keeps the value, and its assertions hold.
use vysvm.Ir.Arith.{
  Binop, lt_op, le_op, gt_op, ge_op, slt, sle, sgt, sge, is_gt, is_unsigned, is_strict,
  is_comparison, eq_op, ne_op,
}
use vysvm.Ir.Optimizer.Term.{Term, left, literal, binary}
use vysvm.Ir.Optimizer.Comparing.{
  InRange, compares, read-word_of, evm-compares, read-InRange, same_order,
}
use vysvm.Ir.Optimizer.Comparison.{
  lowest, never, highest, almost_always, new_rhs, same_bool, restrict,
}
use vysvm.Ir.Optimizer.Literals.{eqb_ℤ}
use vysvm.Utils.Ints.{int_bounds}
use vysvm.Common.Int.{◌-ℤ◌, ℤ, ◌+ℤ◌, ◌≤ℤ◌, pos, negsuc}
use vysvm.Common.{
  Bool, ◌≡◌, true, arith, if◌then◌else◌, false, ℕ, ◌<◌, refl, ◌^◌, not, Option, ap, some, ◌∙◌, sym,
}
use vysvm.Ir.Arith.Words.{evm, read}
use vysvm.Venom.ConstantEval.Folding.{truth}
use vysvm.Common.Errors.{Result, ok}
use vysvm.Ir.Optimizer.Meaning.{eval_term, Agrees-eq, eqb_ℤ_sound}
use vysvm.Venom.ConstantEval.Words.{signed_of, word_of}
use vysvm.Ir.Optimizer.Soundness.{IsRight}
use vysvm.Ir.Optimizer.Boundaries.{between}

within : (u : Bool) (v : ℤ) → lowest u ≤ℤ v → v ≤ℤ highest u → InRange u v
unfolding InRange lowest highest int_bounds ◌-ℤ◌
within true (pos n) p q = omega arith
within true (negsuc n) p q = absurd (omega arith)
within false (pos n) p q = omega arith
within false (negsuc n) p q = omega arith

pub never-InRange : (o : Binop) → is_comparison o ≡ true → InRange (is_unsigned o) (never o)
unfolding never InRange lowest highest int_bounds ◌-ℤ◌ is_unsigned is_gt is_comparison
never-InRange lt_op h = omega arith
never-InRange gt_op h = omega arith
never-InRange le_op h = omega arith
never-InRange ge_op h = omega arith
never-InRange slt h = omega arith
never-InRange sgt h = omega arith
never-InRange sle h = omega arith
never-InRange sge h = omega arith
never-InRange _ h = cc

-- The new right operand stays within the range where the earlier cases do not apply.
new_rhs_bounds :
    (o : Binop) (c : ℤ)
    → is_comparison o ≡ true
    → (lowest (is_unsigned o) ≤ℤ c) × (c ≤ℤ highest (is_unsigned o))
    → eqb_ℤ c (if is_strict o then never o else almost_always o) ≡ false
    → (lowest (is_unsigned o) ≤ℤ new_rhs o c) × (new_rhs o c ≤ℤ highest (is_unsigned o))
unfolding eqb_ℤ is_strict is_unsigned is_gt is_comparison never almost_always lowest highest
    int_bounds new_rhs same_bool ◌-ℤ◌ ◌+ℤ◌
new_rhs_bounds lt_op c h (l, m) e = ground arith
new_rhs_bounds gt_op c h (l, m) e = ground arith
new_rhs_bounds le_op c h (l, m) e = ground arith
new_rhs_bounds ge_op c h (l, m) e = ground arith
new_rhs_bounds slt c h (l, m) e = ground arith
new_rhs_bounds sgt c h (l, m) e = ground arith
new_rhs_bounds sle c h (l, m) e = ground arith
new_rhs_bounds sge c h (l, m) e = ground arith
new_rhs_bounds _ c h r e = cc

restrict_kind :
    (o : Binop)
    → is_comparison o ≡ true
    → (is_comparison (restrict o) ≡ true) × (is_unsigned (restrict o) ≡ is_unsigned o)
unfolding restrict is_comparison is_unsigned
restrict_kind lt_op h = (refl, refl)
restrict_kind gt_op h = (refl, refl)
restrict_kind le_op h = (refl, refl)
restrict_kind ge_op h = (refl, refl)
restrict_kind slt h = (refl, refl)
restrict_kind sgt h = (refl, refl)
restrict_kind sle h = (refl, refl)
restrict_kind sge h = (refl, refl)
restrict_kind _ h = cc

pub eq_read :
    (u : Bool) (x y : ℕ)
    → x < 2 ^ 256
    → y < 2 ^ 256
    → evm eq_op x y ≡ truth (eqb_ℤ (read u x) (read u y))
unfolding evm read signed_of eqb_ℤ
eq_read true x y p q = ap truth (ground arith)
eq_read false x y p q = ap truth (ground arith)

-- Comparisons with a literal in the range.
pub eq-literal :
    (u : Bool) (x : ℕ) (v : ℤ)
    → x < 2 ^ 256
    → InRange u v
    → evm eq_op x (word_of v) ≡ truth (eqb_ℤ (read u x) v)
eq-literal u x v p r =
    let (e, q) = read-word_of u v r in
    eq_read u x (word_of v) p q ∙ ap (λ w. truth (eqb_ℤ (read u x) w)) e

compares-literal :
    (o : Binop) (x : ℕ) (v : ℤ)
    → x < 2 ^ 256
    → is_comparison o ≡ true
    → InRange (is_unsigned o) v
    → evm o x (word_of v) ≡ truth (compares o (read (is_unsigned o) x) v)
compares-literal o x v p h r =
    let (e, q) = read-word_of (is_unsigned o) v r in
    evm-compares o x (word_of v) p q h ∙ ap (λ w. truth (compares o (read (is_unsigned o) x) w)) e

pub ne_of_eq : (x y : ℕ) (b : Bool) → evm eq_op x y ≡ truth b → evm ne_op x y ≡ truth (not b)
unfolding evm truth
ne_of_eq x y b e = ground arith

-- There is a result, and it is right.
unfoldable pub Settles : Binop → ℕ → ℕ → Result (Option Term) → Type 0
Settles o x y res = (r : Option Term) × (res ≡ ok r) × IsRight false o x y r

pub settles :
    (o : Binop) (x y : ℕ) (t : Term) → eval_term t x y ≡ evm o x y → Settles o x y (ok (some t))
unfolding Settles
settles o x y t e = (some t, refl, Agrees-eq false _ _ e)

pub choose :
    (o : Binop) (x y : ℕ) (c : Bool) (s t : Result (Option Term))
    → (c ≡ true → Settles o x y s)
    → (c ≡ false → Settles o x y t)
    → Settles o x y (if c then s else t)
choose o x y true s t f g = f refl
choose o x y false s t f g = g refl

module _ (o : Binop) (h : is_comparison o ≡ true) (x y : ℕ) (p : x < 2 ^ 256)
    (q : y < 2 ^ 256) where
  value : evm o x y ≡ truth (compares o (read (is_unsigned o) x) (read (is_unsigned o) y))
  value = evm-compares o x y p q h

  pub bounds_left :
      (lowest (is_unsigned o) ≤ℤ read (is_unsigned o) x)
      × (read (is_unsigned o) x ≤ℤ highest (is_unsigned o))
  bounds_left = between (is_unsigned o) _ (read-InRange (is_unsigned o) x p)

  bounds_right :
      (lowest (is_unsigned o) ≤ℤ read (is_unsigned o) y)
      × (read (is_unsigned o) y ≤ℤ highest (is_unsigned o))
  bounds_right = between (is_unsigned o) _ (read-InRange (is_unsigned o) y q)

  -- The right operand is this integer.
  pub at :
      (v : ℤ)
      → eqb_ℤ (read (is_unsigned o) y) v ≡ true
      → evm o x y ≡ truth (compares o (read (is_unsigned o) x) v)
  at v e = value ∙ ap (λ w. truth (compares o (read (is_unsigned o) x) w)) (eqb_ℤ_sound _ v e)

  pub changed :
      (c : ℤ)
      → c ≡ read (is_unsigned o) y
      → eqb_ℤ c (if is_strict o then never o else almost_always o) ≡ false
      → InRange (is_unsigned o) (new_rhs o c)
        × (eval_term (binary (restrict o) left (literal (new_rhs o c))) x y ≡ evm o x y)
  unfolding eval_term
  changed c d e =
      let (i, j) = new_rhs_bounds o c h (rw d bounds_right) e in
      let r = within (is_unsigned o) (new_rhs o c) i j in
      let (k, l) = restrict_kind o h in
      let m = compares-literal (restrict o) x (new_rhs o c) p k (rw l r) in
      (r, m ∙ rw (l, same_order o (read (is_unsigned o) x) c h, d) (sym value))
