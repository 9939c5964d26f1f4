-- ===== src/Venom/VenomToAssembly/Arrangement.antt =====
-- vyper/venom/venom_to_assembly.py: the loop of `_stack_reorder` leaves every operand in its place.
use vysvm.Venom.Operand.{IrOperand, eq_operand, eq_operand_iff}
use vysvm.Common.{
  ℕ, List, Bool, ◌∷◌, get_elem?, All, ◌≡◌, ◌<◌, [], some, false, true, ◌≢◌, length, suc, Bool-cases,
  ◌∙◌, ◌≤◌, arith, refl, inl, inr, sym, ◌+◌, ap, ap₂, All-get_elem?,
}
use vysvm.Venom.StackModel.{StackModel}
use vysvm.Venom.VenomToAssembly.Reorder.{
  in_operands, no_duplicates, reorder_loop, reverse_onto, top, eq_operands, stack_reorder,
}
use vysvm.Venom.VenomToAssembly.Ordering.{Placing, Spelled}
use vysvm.Venom.VenomToAssembly.{Emission}
use vysvm.Common.Errors.{ok}
use vysvm.Venom.VenomToAssembly.Total.{place_operand_succeeds}

-- The operands stand in the stack from a position on.
Standing : ℕ → List IrOperand → StackModel → Type 0
Standing p [] s = Unit
Standing p (d ∷ ds) s = (get_elem? s p ≡ some d) × Standing (suc p) ds s

Held : StackModel → IrOperand → Type 0
Held s op = (p : ℕ) × (get_elem? s p ≡ some op)

absent_rest :
    (d op : IrOperand) (ops : List IrOperand)
    → in_operands d (op ∷ ops) ≡ false
    → (d ≢ op) × (in_operands d ops ≡ false)
unfolding in_operands
absent_rest d op ops h = elim (Bool-cases (eq_operand op d)) [
  | inl e ↦ cc (rw e at h)
  | inr e ↦ (λ same. let t = (eq_operand_iff op d).1 (sym same) in absurd cc, rw e at h)
]

All-absent_rest :
    (op : IrOperand) (ops done : List IrOperand)
    → All (λ d. in_operands d (op ∷ ops) ≡ false) done
    → All (λ d. d ≢ op) done × All (λ d. in_operands d ops ≡ false) done
All-absent_rest op ops [] h = (tt, tt)
All-absent_rest op ops (d ∷ done) h =
    let (ne, absent) = absent_rest d op ops h.0 in
    let (nes, others) = All-absent_rest op ops done h.1 in ((ne, nes), (absent, others))

no_duplicates_rest :
    (op : IrOperand) (ops : List IrOperand)
    → no_duplicates (op ∷ ops) ≡ true
    → (in_operands op ops ≡ false) × (no_duplicates ops ≡ true)
unfolding no_duplicates
no_duplicates_rest op ops h = elim (Bool-cases (in_operands op ops)) [
  | inl e ↦ cc (rw e at h)
  | inr e ↦ (e, rw e at h)
]

-- A round leaves the operands that already stand where they are.
Standing-kept :
    (later p : ℕ) (op : IrOperand) (done : List IrOperand) (s t : StackModel)
    → Placing later op s t
    → later < p
    → All (λ d. d ≢ op) done
    → Standing p done s
    → Standing p done t
unfolding Standing
Standing-kept later p op [] s t x l ne h = tt
Standing-kept later p op (d ∷ done) s t x l ne h =
    let elsewhere : p ≢ x.source = λ same.
      let e : get_elem? s x.source ≡ some d = rw same at h.0 in
      let was = x.was in let f : d ≡ op = cc in ne.0 f in
    (x.kept p l elsewhere ∙ h.0, Standing-kept later (suc p) op done s t x (omega arith) ne.1 h.1)

Held-kept :
    (later : ℕ) (op : IrOperand) (ops : List IrOperand) (s t : StackModel)
    → Placing later op s t
    → All (Held s) ops
    → All (Held t) ops
unfolding Held
Held-kept later op [] s t x h = tt
Held-kept later op (o ∷ ops) s t x h = (x.stays h.0.0 o h.0.1, Held-kept later op ops s t x h.1)

All-of_get_elem? :
    (P : IrOperand → Type 0) (s : StackModel)
    → ((p : ℕ) (y : IrOperand) → get_elem? s p ≡ some y → P y)
    → All P s
All-of_get_elem? P [] h = tt
All-of_get_elem? P (y ∷ s) h = (h 0 y refl, All-of_get_elem? P s (λ p z e. h (suc p) z e))

Spelled-kept :
    (later : ℕ) (op : IrOperand) (s t : StackModel)
    → Placing later op s t
    → All Spelled s
    → All Spelled t
Spelled-kept later op s t x h =
    All-of_get_elem? Spelled t
      (λ p y e. let (q, f) = x.comes p y e in All-get_elem? Spelled s q y h f)

module _ (equivalent : IrOperand → IrOperand → Bool) where
  reorder_loop_succeeds :
      (ops done : List IrOperand) (e : Emission)
      → length ops ≤ length e.stack
      → length e.stack ≤ 17
      → All Spelled e.stack
      → All (Held e.stack) ops
      → no_duplicates ops ≡ true
      → All (λ d. in_operands d ops ≡ false) done
      → Standing (length ops) done e.stack
      → (after : Emission) × (cost : ℕ) × (reorder_loop equivalent ops e ≡ ok (after, cost))
        × Standing 0 (reverse_onto ops done) after.stack
        × (length after.stack ≡ length e.stack)
  unfolding reorder_loop Held Standing
  reorder_loop_succeeds [] done e l b spelled held distinct absent standing =
      (e, 0, refl, standing, refl)
  reorder_loop_succeeds (op ∷ ops) done e l b spelled held distinct absent standing =
      let (fresh, others_distinct) = no_duplicates_rest op ops distinct in
      let (ne, still_absent) = All-absent_rest op ops done absent in
      let (m, c, p, x) =
        place_operand_succeeds equivalent (length ops) held.0.0 op e held.0.1 (omega arith) b
          spelled in
      let same = x.height_kept in
      let (after, d, q, final, height) =
        reorder_loop_succeeds ops (op ∷ done) m (omega arith) (omega arith)
          (Spelled-kept (length ops) op e.stack m.stack x spelled)
          (Held-kept (length ops) op ops e.stack m.stack x held.1) others_distinct
          (fresh, still_absent)
          (
            x.placed,
            Standing-kept (length ops) (suc (length ops)) op done e.stack m.stack x (omega arith) ne
                standing,
          ) in
      (after, c + d, rw (reorder_loop, p, q) refl, final, height ∙ same)

Standing-tail :
    (p : ℕ) (ds : List IrOperand) (x : IrOperand) (s : StackModel)
    → Standing (suc p) ds (x ∷ s)
    → Standing p ds s
unfolding Standing
Standing-tail p [] x s h = tt
Standing-tail p (d ∷ ds) x s h = (h.0, Standing-tail (suc p) ds x s h.1)

Standing-top : (ds : List IrOperand) (s : StackModel) → Standing 0 ds s → top (length ds) s ≡ ds
unfolding Standing
Standing-top [] s h = refl
Standing-top (d ∷ ds) [] h = let e = h.0 in cc
Standing-top (d ∷ ds) (x ∷ s) h =
    let e : x ≡ d = let f = h.0 in cc in
    ap₂ (λ y ys. y ∷ ys) e (Standing-top ds s (Standing-tail 0 ds x s h.1))

pub length-reverse_onto :
    (ops done : List IrOperand) → length (reverse_onto ops done) ≡ length ops + length done
length-reverse_onto [] done = omega arith
length-reverse_onto (op ∷ ops) done = omega (arith, length-reverse_onto ops (op ∷ done))

eq_operands_refl : (xs : List IrOperand) → eq_operands xs xs ≡ true
unfolding eq_operands
eq_operands_refl [] = refl
eq_operands_refl (x ∷ xs) = rw (eq_operands, (eq_operand_iff x x).1 refl) (eq_operands_refl xs)

in_operands-Held : (s : StackModel) (op : IrOperand) → in_operands op s ≡ true → Held s op
unfolding in_operands Held
in_operands-Held [] op h = cc
in_operands-Held (x ∷ s) op h = elim (Bool-cases (eq_operand x op)) [
  | inl e ↦ (0, ap some ((eq_operand_iff x op).0 e))
  | inr e ↦ let (p, f) = in_operands-Held s op (rw e at h) in (suc p, f)
]

All-Held :
    (s : StackModel) (ops : List IrOperand)
    → All (λ op. in_operands op s ≡ true) ops
    → All (Held s) ops
All-Held s [] h = tt
All-Held s (op ∷ ops) h = (in_operands-Held s op h.0, All-Held s ops h.1)

-- On a stack of at most 17 operands, whose variables start with "%" and whose labels do not,
-- `_stack_reorder` succeeds for operands that are all in the stack, pairwise different and no more
-- than it holds, whatever the analysis calls equivalent: the operands are on top then, the last of
-- them topmost, and the stack is as high as before.
pub stack_reorder_succeeds :
    (equivalent : IrOperand → IrOperand → Bool) (stack_ops : List IrOperand) (e : Emission)
    → length stack_ops ≤ length e.stack
    → length e.stack ≤ 17
    → All Spelled e.stack
    → All (λ op. in_operands op e.stack ≡ true) stack_ops
    → no_duplicates stack_ops ≡ true
    → (after : Emission) × (cost : ℕ) × (stack_reorder equivalent stack_ops e ≡ ok (after, cost))
      × (top (length stack_ops) after.stack ≡ reverse_onto stack_ops [])
      × (length after.stack ≡ length e.stack)
unfolding stack_reorder Standing
stack_reorder_succeeds equivalent stack_ops e l b spelled held distinct =
    let (after, cost, p, standing, height) =
      reorder_loop_succeeds equivalent stack_ops [] e l b spelled (All-Held e.stack stack_ops held)
        distinct tt tt in
    let count : length (reverse_onto stack_ops []) ≡ length stack_ops =
      omega (arith, length-reverse_onto stack_ops []) in
    let on_top : top (length stack_ops) after.stack ≡ reverse_onto stack_ops [] =
      rw count at (Standing-top (reverse_onto stack_ops []) after.stack standing) in
    (
      after,
      cost,
      rw (stack_reorder, distinct, p, on_top, eq_operands_refl (reverse_onto stack_ops [])) refl,
      on_top,
      height,
    )
