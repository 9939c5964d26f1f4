-- ===== src/Venom/VenomToAssembly/Inputs.antt =====
-- vyper/venom/venom_to_assembly.py: `_emit_input_operands` and `popmany` refine the model of the
-- stack.
use mathlib.Core.Path.{subst}
use vysvm.Venom.Operand.{literal, variable, ir_label, IrOperand}
use vysvm.Venom.VenomToAssembly.{
  extend_by, emit_swap, emit_pop, popmany_loop, Emission, swap_below_top, swap_op, pop_items,
  popmany, with_depths, sort_by_depth, evm_swap_for,
}
use vysvm.Evm.Machine.{Other, run_items, run_item, discard_top, do_op, do_pop, with_stack}
use Prim.Native.String.{String}
use vysvm.Common.{
  ℕ, List, false, ◌^◌, ◌-◌, ◌≡◌, get_elem?, some, ◌%◌, ◌∷◌, [], arith, Bool-cases, refl, inl, ◌++◌,
  inr, leb, ap, Option-cases, suc, sym, length, ◌∙◌, true, set, zero,
}
use vysvm.Venom.VenomToAssembly.Simulation.{
  operand_word, Simulates, Simulates-refl, simulate_op, Simulates-trans, words,
}
use vysvm.Venom.VenomToAssembly.Reorder.{
  emit_operand, input_operands_loop, emit_input_operands, check_seen,
}
use vysvm.Venom.StackModel.{
  minus, pop, drop_top, StackModel, push_operand, in_phis, get_depth, swap,
}
use vysvm.Common.Int.{ℤ, negsuc, pos, ◌-ℤ◌, ltb_ℤ, leb_ℤ}
use vysvm.Venom.ConstantEval.Words.{IsLiteral, word_of, word_of_lt}
use vysvm.Utils.Ints.{wrap256}
use vysvm.Evm.Machine.Pushes.{push_items, run_items-push_items}
use vysvm.Evm.Assembler.Instructions.{push_label, mnemonic}
use vysvm.Common.Errors.{ok, bind_succeeds}
use vysvm.Venom.VenomToAssembly.Moves.{swap_op-Simulates, dup_op-Simulates, get_depth_found}
use vysvm.Evm.Machine.Names.{pop-stack_op}
use vysvm.Venom.VenomToAssembly.Success.{swap_succeeds}

nonempty :
    (stack : StackModel) (x : IrOperand)
    → get_elem? stack 0 ≡ some x
    → (rest : StackModel) × (stack ≡ x ∷ rest)
nonempty [] x h = cc
nonempty (y ∷ stack) x h = (stack, cc)

pop_one : (t : IrOperand) (rest : StackModel) → pop 1 (t ∷ rest) ≡ rest
unfolding pop drop_top
pop_one t rest = let e : leb 1 (suc (length rest)) ≡ true = ground arith in rw (pop, e) refl

in_bounds-IsLiteral :
    (value : ℤ)
    → ltb_ℤ value (pos 0 -ℤ pos (2 ^ 255)) ≡ false
    → leb_ℤ (pos (2 ^ 256)) value ≡ false
    → IsLiteral value
unfolding IsLiteral ◌-ℤ◌
in_bounds-IsLiteral (pos n) low high = ground arith
in_bounds-IsLiteral (negsuc n) low high = ground arith

-- `wrap256` takes a literal to its word.
wrap256-word_of : (value : ℤ) → IsLiteral value → wrap256 value false ≡ ok (pos (word_of value))
unfolding IsLiteral wrap256 word_of
wrap256-word_of (pos n) h = let same : n % 2 ^ 256 ≡ n = omega arith in ap (λ k. ok (pos k)) same
wrap256-word_of (negsuc n) h =
    let same : n % 2 ^ 256 ≡ n = omega arith in ap (λ (k : ℕ). ok (pos (2 ^ 256 - 1 - k))) same

module _ {W : Type 0} (other : Other W) (names : String → ℕ) (below : List ℕ) (w : W) where
  module _ (version : ℕ) (next_liveness : List String) where
    push_literal-Simulates :
        (value : ℤ) (e : Emission)
        → IsLiteral value
        → Simulates other names below w e (
            extend_by (push_items version (word_of value)) (push_operand (literal value) e.stack) e)
    unfolding operand_word
    push_literal-Simulates value e h = record {
      items = push_items version (word_of value);
      emitted = refl;
      runs =
          run_items-push_items names other version (word_of value) (words names e.stack ++ below) w
            (word_of_lt value h);
    }

    -- A literal in the bounds is pushed as its word, and any other is refused.
    emit_literal :
        (value : ℤ) (e after : Emission)
        → emit_operand version false next_liveness (literal value) e ≡ ok after
        → IsLiteral value
          × (extend_by (push_items version (word_of value)) (push_operand (literal value) e.stack) e
              ≡ after)
    unfolding emit_operand
    emit_literal value e after h = elim (Bool-cases (ltb_ℤ value (pos 0 -ℤ pos (2 ^ 255)))) [
      | inl low ↦ cc (rw low at h)
      | inr low ↦ elim (Bool-cases (leb_ℤ (pos (2 ^ 256)) value)) [
        | inl high ↦ cc (rw (low, high) at h)
        | inr high ↦
            let bounded = in_bounds-IsLiteral value low high in
            let pushed = rw (low, high, wrap256-word_of value bounded) at h in (bounded, cc)
      ]
    ]

    push_label-Simulates :
        (l : String) (e : Emission)
        → Simulates other names below w e
            (extend_by (push_label l ∷ []) (push_operand (ir_label l) e.stack) e)
    unfolding operand_word run_items run_item
    push_label-Simulates l e = record { items = push_label l ∷ []; emitted = refl; runs = refl }

    emit_operand-Simulates :
        (op : IrOperand) (e after : Emission)
        → emit_operand version false next_liveness op e ≡ ok after
        → Simulates other names below w e after
    unfolding emit_operand
    emit_operand-Simulates (ir_label l) e after h =
        let d : extend_by (push_label l ∷ []) (push_operand (ir_label l) e.stack) e ≡ after = cc in
        subst (Simulates other names below w e) d (push_label-Simulates l e)
    emit_operand-Simulates (literal value) e after h =
        let (bounded, d) = emit_literal value e after h in
        subst (Simulates other names below w e) d (push_literal-Simulates value e bounded)
    emit_operand-Simulates (variable v) e after h =
        elim (Bool-cases (in_phis (variable v) next_liveness)) [
          | inl p ↦ dup_op-Simulates other names below w (variable v) e after (rw p at h)
          | inr p ↦
              let d : e ≡ after = cc (rw p at h) in
              subst (Simulates other names below w e) d
                (Simulates-refl other names below w e e.stack refl)
        ]

    input_operands_loop-Simulates :
        (ops seen : List IrOperand) (e after : Emission)
        → input_operands_loop version false next_liveness ops seen e ≡ ok after
        → Simulates other names below w e after
    unfolding input_operands_loop
    input_operands_loop-Simulates [] seen e after h =
        let d : e ≡ after = cc in
        subst (Simulates other names below w e) d
          (Simulates-refl other names below w e e.stack refl)
    input_operands_loop-Simulates (op ∷ ops) seen e after h =
        let (emitted, p, k) = bind_succeeds (emit_operand version false next_liveness op e) _ h in
        let (now_seen, q, l) = bind_succeeds (check_seen version false next_liveness op seen) _ k in
        Simulates-trans other names below w e emitted after (emit_operand-Simulates op e emitted p)
          (input_operands_loop-Simulates ops now_seen emitted after l)

    -- Where `_emit_input_operands` succeeds for an instruction that is not an `invoke`, what it
    -- emits brings the machine from the stack that the model described to the one that it
    -- describes then.
    pub emit_input_operands-Simulates :
        (ops : List IrOperand) (e after : Emission)
        → emit_input_operands version false next_liveness ops e ≡ ok after
        → Simulates other names below w e after
    unfolding emit_input_operands
    emit_input_operands-Simulates ops e after h = input_operands_loop-Simulates ops [] e after h

  emit_swap_nonempty :
      (j : ℕ) (x : IrOperand) (e after : Emission) (cost : ℕ)
      → get_elem? e.stack j ≡ some x
      → emit_swap (some (minus j)) e ≡ ok (after, cost)
      → (t : IrOperand) × (rest : StackModel) × (after.stack ≡ t ∷ rest)
  unfolding emit_swap swap_below_top minus
  emit_swap_nonempty zero x e after cost g h =
      let d : e ≡ after = cc in
      let (rest, k) = nonempty e.stack x g in (x, rest, ap (λ (f : Emission). f.stack) (sym d) ∙ k)
  emit_swap_nonempty (suc n) x e after cost g h =
      let (stack, p, k) = bind_succeeds (swap (some (negsuc n)) e.stack) _ h in
      let (name, q, r) = bind_succeeds (evm_swap_for (negsuc n)) _ k in
      let (t, rest, y, parts, f, d) = swap_succeeds n e.stack stack p in
      let done : extend_by (mnemonic name ∷ []) stack e ≡ after = cc in
      (y, set rest n t, ap (λ (f : Emission). f.stack) (sym done) ∙ d)

  pub emit_pop-Simulates :
      (t : IrOperand) (rest : StackModel) (e : Emission)
      → e.stack ≡ t ∷ rest
      → Simulates other names below w e (emit_pop 1 e)
  unfolding emit_pop pop_items do_op do_pop with_stack
  emit_pop-Simulates t rest e h =
      simulate_op other names below w "POP" discard_top e (pop 1 e.stack) pop-stack_op
        (rw (h, pop_one t rest) refl)

  popped-Simulates :
      (op : IrOperand) (e swapped : Emission) (cost : ℕ)
      → swap_op op e ≡ ok (swapped, cost)
      → Simulates other names below w swapped (emit_pop 1 swapped)
  unfolding swap_op emit_swap
  popped-Simulates op e swapped cost h = elim (Option-cases (get_depth op e.stack)) [
    | inl p ↦ cc (rw (swap_op, p) at h)
    | inr (depth, p) ↦
        let (j, x, d, g, q) = get_depth_found op e.stack depth p in
        let (t, rest, k) = emit_swap_nonempty j x e swapped cost g (rw (swap_op, p, d) at h) in
        emit_pop-Simulates t rest swapped k
  ]

  popmany_loop-Simulates :
      (ops : List (ℤ × IrOperand)) (e after : Emission)
      → popmany_loop ops e ≡ ok after
      → Simulates other names below w e after
  unfolding popmany_loop swap_op
  popmany_loop-Simulates [] e after h =
      let d : e ≡ after = cc in
      subst (Simulates other names below w e) d (Simulates-refl other names below w e e.stack refl)
  popmany_loop-Simulates (op ∷ ops) e after h =
      let ((swapped, c), p, k) = bind_succeeds (swap_op op.1 e) _ h in
      Simulates-trans other names below w e swapped after
        (swap_op-Simulates other names below w op.1 e swapped c p)
        (Simulates-trans other names below w swapped (emit_pop 1 swapped) after
          (popped-Simulates op.1 e swapped c p)
          (popmany_loop-Simulates ops (emit_pop 1 swapped) after k))

  -- Where `popmany` succeeds, its swaps and pops bring the machine from the stack that the model
  -- described to the one that it describes then.
  pub popmany-Simulates :
      (to_pop : List IrOperand) (e after : Emission)
      → popmany to_pop e ≡ ok after
      → Simulates other names below w e after
  unfolding popmany
  popmany-Simulates to_pop e after h =
      let (keyed, p, k) = bind_succeeds (with_depths e.stack to_pop) _ h in
      popmany_loop-Simulates (sort_by_depth keyed) e after k
