-- ===== src/Venom/VenomToAssembly/Ordering.antt =====
-- vyper/venom/venom_to_assembly.py: `_stack_reorder` brings the operands in order, and its last
-- assertion holds.
use vysvm.Common.Eq.{String_Eq}
use vysvm.Venom.Operand.{literal, variable, ir_label, IrOperand}
use text.Mathlib.Text.{starts_with}
use vysvm.Venom.StackModel.{eq_value, StackModel, find_depth, minus}
use vysvm.Venom.VenomToAssembly.Reorder.{eq_depth}
use vysvm.Common.{
  ℕ, ◌≡◌, get_elem?, true, some, false, ap, ◌∷◌, ◌<◌, ◌≢◌, ◌∙◌, suc, Bool-cases, length, [], arith,
  zero, refl, inl, inr, sym,
}
use vysvm.Common.Int.{ℤ, eqb_ℤ_iff}
use vysvm.Venom.VenomToAssembly.Exchange.{
  Exchanged, transpose_left, transpose_right, transpose_other, transpose, Exchanged-stays,
}

-- A variable's name starts with "%" (`IRVariable.__init__`) and a label's does not.
unfoldable pub Spelled : IrOperand → Type 0
Spelled (literal n) = Unit
Spelled (variable v) = starts_with v "%" ≡ true
Spelled (ir_label l) = starts_with l "%" ≡ false

pub Spelled-same : (x y : IrOperand) → Spelled x → Spelled y → eq_value x y ≡ true → x ≡ y
unfolding Spelled eq_value
Spelled-same (literal a) (literal b) p q h = ap literal ((eqb_ℤ_iff a b).0 h)
Spelled-same (literal a) (variable b) p q h = cc
Spelled-same (literal a) (ir_label b) p q h = cc
Spelled-same (variable a) (literal b) p q h = cc
Spelled-same (variable a) (variable b) p q h = ap variable ((String_Eq.eqb_iff a b).0 h)
Spelled-same (variable a) (ir_label b) p q h = let d = (String_Eq.eqb_iff a b).0 h in cc
Spelled-same (ir_label a) (literal b) p q h = cc
Spelled-same (ir_label a) (variable b) p q h = let d = (String_Eq.eqb_iff a b).0 h in cc
Spelled-same (ir_label a) (ir_label b) p q h = ap ir_label ((String_Eq.eqb_iff a b).0 h)

pub eq_value_refl : (x : IrOperand) → eq_value x x ≡ true
unfolding eq_value
eq_value_refl (literal a) = (eqb_ℤ_iff a a).1 refl
eq_value_refl (variable a) = (String_Eq.eqb_iff a a).1 refl
eq_value_refl (ir_label a) = (String_Eq.eqb_iff a a).1 refl

pub find_depth_exists :
    (op : IrOperand) (i p : ℕ) (s : StackModel)
    → get_elem? s p ≡ some op
    → (d : ℤ) × (find_depth op i s ≡ some d)
unfolding find_depth
find_depth_exists op i p [] h = cc
find_depth_exists op i zero (y ∷ s) h =
    let d : y ≡ op = cc in
    let e : eq_value y op ≡ true = rw d (eq_value_refl op) in (minus i, rw e refl)
find_depth_exists op i (suc p) (y ∷ s) h = elim (Bool-cases (eq_value y op)) [
  | inl e ↦ (minus i, rw e refl)
  | inr e ↦ let (d, k) = find_depth_exists op (suc i) p s h in (d, rw e k)
]

pub eq_depth-minus : (j k : ℕ) → eq_depth (minus j) (minus k) ≡ true → j ≡ k
unfolding eq_depth minus
eq_depth-minus zero zero h = refl
eq_depth-minus zero (suc k) h = ground arith
eq_depth-minus (suc j) zero h = ground arith
eq_depth-minus (suc j) (suc k) h = ground arith

-- What a round does to the model: the operand is in its place, and the places below hold what
-- they held, but for the one that the operand comes from.
pub record Placing (later : ℕ) (op : IrOperand) (s t : StackModel) : Type 0 where
  pub source : ℕ
  pub was : get_elem? s source ≡ some op
  pub placed : get_elem? t later ≡ some op
  pub kept : (q : ℕ) → later < q → q ≢ source → get_elem? t q ≡ get_elem? s q
  pub stays : (p : ℕ) (y : IrOperand) → get_elem? s p ≡ some y → (q : ℕ) × (get_elem? t q ≡ some y)
  pub comes : (p : ℕ) (y : IrOperand) → get_elem? t p ≡ some y → (q : ℕ) × (get_elem? s q ≡ some y)
  pub height_kept : length t ≡ length s

pub Placing-same :
    (later : ℕ) (op : IrOperand) (s : StackModel)
    → get_elem? s later ≡ some op
    → Placing later op s s
Placing-same later op s h = record {
  source = later;
  was = h;
  placed = h;
  kept = λ q l n. refl;
  stays = λ p y e. (p, e);
  comes = λ p y e. (p, e);
  height_kept = refl;
}

-- A single exchange with the place of the operand.
pub Placing-once :
    (j later : ℕ) (op : IrOperand) (s t : StackModel)
    → get_elem? s j ≡ some op
    → Exchanged later j s t
    → Placing later op s t
Placing-once j later op s t h x = record {
  source = j;
  was = h;
  placed = x.moved later ∙ ap (λ q. get_elem? s q) (transpose_left later j) ∙ h;
  kept = λ q l n.
      let d : q ≢ later = omega arith in
      x.moved q ∙ ap (λ i. get_elem? s i) (transpose_other later j q d n);
  stays = λ p y e. (transpose later j p, Exchanged-stays later j p s t y x e);
  comes = λ p y e. (transpose later j p, sym (x.moved p) ∙ e);
  height_kept = x.same_height;
}

-- The operand is brought to the top, and from there to its place.
pub Placing-twice :
    (j later : ℕ) (op : IrOperand) (s m t : StackModel)
    → get_elem? s j ≡ some op
    → Exchanged 0 j s m
    → Exchanged 0 later m t
    → Placing later op s t
Placing-twice j later op s m t h x y = record {
  source = j;
  was = h;
  placed =
      y.moved later
      ∙ ap (λ q. get_elem? m q) (transpose_right 0 later)
      ∙ x.moved 0
      ∙ ap (λ q. get_elem? s q) (transpose_left 0 j)
      ∙ h;
  kept = λ q l n.
      let d : q ≢ later = omega arith in
      let z : q ≢ 0 = omega arith in
      y.moved q
      ∙ ap (λ i. get_elem? m i) (transpose_other 0 later q z d)
      ∙ x.moved q
      ∙ ap (λ i. get_elem? s i) (transpose_other 0 j q z n);
  stays = λ p o e. (
    transpose 0 later (transpose 0 j p),
    Exchanged-stays 0 later (transpose 0 j p) m t o y (Exchanged-stays 0 j p s m o x e),
  );
  comes = λ p o e. (
    transpose 0 j (transpose 0 later p),
    sym (x.moved (transpose 0 later p)) ∙ sym (y.moved p) ∙ e,
  );
  height_kept = y.same_height ∙ x.same_height;
}
