-- ===== src/Venom/VenomToAssembly/Total.antt =====
-- vyper/venom/venom_to_assembly.py: `_stack_reorder` succeeds on a stack that the EVM reaches.
use vysvm.Venom.Operand.{IrOperand}
use vysvm.Venom.VenomToAssembly.{emission, Emission}
use vysvm.Venom.StackModel.{peek, poke, minus, StackModel, get_depth}
use vysvm.Common.{
  refl, Bool, ℕ, get_elem?, ◌<◌, ◌≡◌, length, some, set, get_elem?_bounded, ◌≤◌, arith, if_cases,
  All, length-set, ◌+◌, suc, true, element_exists, zero, All-get_elem?,
}
use vysvm.Venom.VenomToAssembly.Reorder.{
  virtual_swap, double_swap, exchange_operands, place_operand, eq_depth,
}
use vysvm.Common.Errors.{Result, ok}
use vysvm.Venom.StackModel.Depths.{place-minus, element_at-get_elem?, replace_at-set}
use vysvm.Venom.VenomToAssembly.Ordering.{
  Placing, Spelled, Placing-once, Placing-twice, find_depth_exists, Spelled-same, eq_depth-minus,
  Placing-same,
}
use vysvm.Venom.VenomToAssembly.Exchange.{emit_swap-Exchanged, set_twice_Exchanged}
use vysvm.Common.Int.{leb_ℤ, negsuc, pos}
use vysvm.Venom.VenomToAssembly.Moves.{get_depth_found}

peek_at :
    (k : ℕ) (s : StackModel) (x : IrOperand)
    → get_elem? s k ≡ some x
    → peek (some (minus k)) s ≡ ok x
unfolding peek
peek_at k s x h =
    rw (peek, place-minus k s (get_elem?_bounded s k x h)) (element_at-get_elem? k s x h)

poke_at :
    (k : ℕ) (op : IrOperand) (s : StackModel)
    → k < length s
    → poke (some (minus k)) op s ≡ ok (set s k op)
unfolding poke minus
poke_at zero op s h = rw (poke, place-minus zero s h) (replace_at-set 0 s op)
poke_at (suc n) op s h =
    let below : leb_ℤ (negsuc n) (pos 0) ≡ true = ground arith in
    rw (poke, below, place-minus (suc n) s h) (replace_at-set (suc n) s op)

module _ (equivalent : IrOperand → IrOperand → Bool) where
  abbrev PlacedBy : ℕ → IrOperand → Emission → Result (Emission × ℕ) → Type 0
  PlacedBy later op e result =
      (after : Emission) × (cost : ℕ) × (result ≡ ok (after, cost))
      × Placing later op e.stack after.stack

  virtual_swap_succeeds :
      (j later : ℕ) (op x : IrOperand) (e : Emission)
      → get_elem? e.stack j ≡ some op
      → get_elem? e.stack later ≡ some x
      → PlacedBy later op e (virtual_swap equivalent (minus j) (minus later) op x e)
  unfolding virtual_swap
  virtual_swap_succeeds j later op x e h g =
      let once = poke_at later op e.stack (get_elem?_bounded e.stack later x g) in
      let reach : j < length (set e.stack later op) =
        omega (arith, length-set e.stack later op, get_elem?_bounded e.stack j op h) in
      let twice = poke_at j x (set e.stack later op) reach in
      (
        emission e.assembly (set (set e.stack later op) j x),
        0,
        rw (virtual_swap, once, twice) refl,
        Placing-once j later op e.stack (set (set e.stack later op) j x) h
            (set_twice_Exchanged later j e.stack x op g h),
      )

  double_swap_succeeds :
      (j later : ℕ) (op : IrOperand) (e : Emission)
      → get_elem? e.stack j ≡ some op
      → later < length e.stack
      → length e.stack ≤ 17
      → PlacedBy later op e (double_swap equivalent (minus j) (minus later) e)
  unfolding double_swap
  double_swap_succeeds j later op e h l b =
      let reach : j < length e.stack = get_elem?_bounded e.stack j op h in
      let (m, c, p, x) = emit_swap-Exchanged j e reach (omega arith) in
      let same = x.same_height in
      let (t, d, q, y) = emit_swap-Exchanged later m (omega arith) (omega arith) in
      (
        t,
        c + d,
        rw (double_swap, p, q) refl,
        Placing-twice j later op e.stack m.stack t.stack h x y,
      )

  exchange_operands_succeeds :
      (j later : ℕ) (op x : IrOperand) (e : Emission)
      → get_elem? e.stack j ≡ some op
      → get_elem? e.stack later ≡ some x
      → length e.stack ≤ 17
      → PlacedBy later op e (exchange_operands equivalent (minus j) (minus later) op x e)
  unfolding exchange_operands
  exchange_operands_succeeds j later op x e h g b =
      if_cases (PlacedBy later op e) (equivalent op x)
        (λ _. virtual_swap_succeeds j later op x e h g)
        (λ _. double_swap_succeeds j later op e h (get_elem?_bounded e.stack later x g) b)

  pub place_operand_succeeds :
      (later p : ℕ) (op : IrOperand) (e : Emission)
      → get_elem? e.stack p ≡ some op
      → later < length e.stack
      → length e.stack ≤ 17
      → All Spelled e.stack
      → PlacedBy later op e (place_operand equivalent later op e)
  unfolding place_operand get_depth eq_depth
  place_operand_succeeds later p op e h l b spelled =
      let (d, found) = find_depth_exists op 0 p e.stack h in
      let (j, x, at_j, g, q) = get_depth_found op e.stack d found in
      let same : x ≡ op =
        Spelled-same x op (All-get_elem? Spelled e.stack j x spelled g)
          (All-get_elem? Spelled e.stack p op spelled h) q in
      let here : get_elem? e.stack j ≡ some op = rw same at g in
      let (y, k) = element_exists e.stack later l in
      rw (place_operand, found, at_j)
        (if_cases (PlacedBy later op e) (eq_depth (minus j) (minus later))
          (λ r.
            let i = eq_depth-minus j later r in
            (e, 0, refl, Placing-same later op e.stack (rw i at here)))
          (λ _.
            rw (peek_at later e.stack y k) (exchange_operands_succeeds j later op y e here k b)))
