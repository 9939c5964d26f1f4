-- ===== src/Venom/VenomToAssembly/Moves.antt =====
-- vyper/venom/venom_to_assembly.py: what the methods extend_by that reorder, copy and push operands does
-- on the machine what their models say.
use mathlib.Core.Path.{subst}
use vysvm.Common.Eq.{String_Eq}
use vysvm.Venom.Operand.{literal, variable, ir_label, IrOperand}
use vysvm.Venom.VenomToAssembly.{
  extend_by, evm_dup_for, emit_dup, dup_op, swap_op, Emission, emit_swap, emission,
}
use vysvm.Venom.StackModel.{eq_value, get_depth, minus, StackModel, dup, poke}
use Prim.Native.String.{String}
use vysvm.Evm.Machine.{Other, stack_op, copy_up}
use vysvm.Common.{
  ℕ, ◌≡◌, List, true, get_elem?, Bool, some, ap, set, ◌∷◌, ◌∙◌, ◌+◌, Option-cases, suc, sym, arith,
  inl, inr, zero, [], refl,
}
use vysvm.Common.Errors.{ok, bind_succeeds}
use vysvm.Common.Int.{ℤ, eqb_ℤ_iff}
use vysvm.Venom.ConstantEval.Words.{word_of}
use vysvm.Venom.VenomToAssembly.Simulation.{
  words, Simulates, emit_swap-Simulates, Simulates-trans, Simulates-refl, simulate_op, do_dup-words,
  operand_word,
}
use vysvm.Venom.VenomToAssembly.Reorder.{virtual_swap, double_swap}
use vysvm.Venom.StackModel.Depths.{find_depth_found}
use vysvm.Evm.Machine.Names.{dup_names-stack_op}
use vysvm.Evm.StackNames.{dup_names}
use vysvm.Venom.VenomToAssembly.Success.{dup_succeeds, poke_succeeds}
use vysvm.Evm.Assembler.Instructions.{mnemonic}

pub eq_value-operand_word :
    (names : String → ℕ) (x y : IrOperand)
    → eq_value x y ≡ true
    → operand_word names x ≡ operand_word names y
unfolding eq_value operand_word
eq_value-operand_word names (literal a) (literal b) h = ap word_of ((eqb_ℤ_iff a b).0 h)
eq_value-operand_word names (literal a) (variable b) h = cc
eq_value-operand_word names (literal a) (ir_label b) h = cc
eq_value-operand_word names (variable a) (literal b) h = cc
eq_value-operand_word names (variable a) (variable b) h = ap names ((String_Eq.eqb_iff a b).0 h)
eq_value-operand_word names (variable a) (ir_label b) h = ap names ((String_Eq.eqb_iff a b).0 h)
eq_value-operand_word names (ir_label a) (literal b) h = cc
eq_value-operand_word names (ir_label a) (variable b) h = ap names ((String_Eq.eqb_iff a b).0 h)
eq_value-operand_word names (ir_label a) (ir_label b) h = ap names ((String_Eq.eqb_iff a b).0 h)

-- Replacing an operand by one of the same word changes no word.
words-set :
    (names : String → ℕ) (n : ℕ) (stack : StackModel) (x y : IrOperand)
    → get_elem? (words names stack) n ≡ some (operand_word names x)
    → operand_word names y ≡ operand_word names x
    → words names (set stack n y) ≡ words names stack
words-set names n [] x y h k = refl
words-set names zero (z ∷ stack) x y h k =
    let d : operand_word names z ≡ operand_word names x = cc in
    ap (λ (v : ℕ). v ∷ words names stack) (k ∙ sym d)
words-set names (suc n) (z ∷ stack) x y h k =
    ap (λ l. operand_word names z ∷ l) (words-set names n stack x y h k)

get_elem?-words :
    (names : String → ℕ) (stack : StackModel) (n : ℕ) (x : IrOperand)
    → get_elem? stack n ≡ some x
    → get_elem? (words names stack) n ≡ some (operand_word names x)
get_elem?-words names [] n x h = cc
get_elem?-words names (z ∷ stack) zero x h =
    let d : z ≡ x = cc in ap (λ o. some (operand_word names o)) d
get_elem?-words names (z ∷ stack) (suc n) x h = get_elem?-words names stack n x h

evm_dup_for_succeeds :
    (j : ℕ) (s : String) → evm_dup_for (minus j) ≡ ok s → stack_op s ≡ some (copy_up j)
unfolding evm_dup_for minus
evm_dup_for_succeeds zero s h = dup_names-stack_op 0 s cc
evm_dup_for_succeeds (suc n) s h = elim (Option-cases (get_elem? dup_names (suc n))) [
  | inl e ↦ cc (rw (evm_dup_for, e) at h)
  | inr (t, e) ↦
      let d : ok t ≡ ok s = rw (evm_dup_for, e) at h in
      let k : t ≡ s = cc in dup_names-stack_op (suc n) s (rw k at e)
]

-- The depth that is reported is that of an operand in the stack.
pub get_depth_found :
    (op : IrOperand) (stack : StackModel) (d : ℤ)
    → get_depth op stack ≡ some d
    → (j : ℕ) × (x : IrOperand) × (d ≡ minus j)
      × (get_elem? stack j ≡ some x)
      × (eq_value x op ≡ true)
unfolding get_depth
get_depth_found op stack d h =
    let (j, x, e, g, q, l) = find_depth_found op 0 stack d h in
    let k : 0 + j ≡ j = omega arith in (j, x, rw k at e, g, q)

module _ {W : Type 0} (other : Other W) (names : String → ℕ) (below : List ℕ) (w : W) where
  emit_dup-Simulates :
      (j : ℕ) (e after : Emission)
      → emit_dup (minus j) e ≡ ok after
      → Simulates other names below w e after
  unfolding emit_dup
  emit_dup-Simulates j e after h =
      let (stack, p, k) = bind_succeeds (dup (some (minus j)) e.stack) _ h in
      let (name, q, r) = bind_succeeds (evm_dup_for (minus j)) _ k in
      let (x, g, d) = dup_succeeds j e.stack stack p in
      let done : extend_by (mnemonic name ∷ []) stack e ≡ after = cc in
      subst (Simulates other names below w e) done (
        simulate_op other names below w name (copy_up j) e stack (evm_dup_for_succeeds j name q)
          (rw d (do_dup-words other names below w j x e.stack g)))

  pub dup_op-Simulates :
      (op : IrOperand) (e after : Emission)
      → dup_op op e ≡ ok after
      → Simulates other names below w e after
  unfolding dup_op
  dup_op-Simulates op e after h = elim (Option-cases (get_depth op e.stack)) [
    | inl p ↦ cc (rw (dup_op, p) at h)
    | inr (depth, p) ↦
        let (j, x, d, g, q) = get_depth_found op e.stack depth p in
        emit_dup-Simulates j e after (rw (dup_op, p, d) at h)
  ]

  pub swap_op-Simulates :
      (op : IrOperand) (e after : Emission) (cost : ℕ)
      → swap_op op e ≡ ok (after, cost)
      → Simulates other names below w e after
  unfolding swap_op
  swap_op-Simulates op e after cost h =
      emit_swap-Simulates other names below w (get_depth op e.stack) e after cost h

  module _ (equivalent : IrOperand → IrOperand → Bool)
      (same : (x y : IrOperand)
        → equivalent x y ≡ true
        → operand_word names x ≡ operand_word names y) where
    pub virtual_swap-Simulates :
        (depth : ℤ) (later : ℕ) (op to_swap : IrOperand) (e after : Emission) (cost : ℕ)
        → get_depth op e.stack ≡ some depth
        → get_elem? e.stack later ≡ some to_swap
        → equivalent op to_swap ≡ true
        → virtual_swap equivalent depth (minus later) op to_swap e ≡ ok (after, cost)
        → Simulates other names below w e after
    unfolding virtual_swap
    virtual_swap-Simulates depth later op to_swap e after cost p g s h =
        let (j, x, d, f, q) = get_depth_found op e.stack depth p in
        let (first, a, k) = bind_succeeds (poke (some (minus later)) op e.stack) _ h in
        let (second, b, r) = bind_succeeds (poke (some depth) to_swap first) _ k in
        let first_set = poke_succeeds later op e.stack first a in
        let second_set = poke_succeeds j to_swap first second (rw d at b) in
        let done : emission e.assembly second ≡ after = cc in
        let once : words names first ≡ words names e.stack = rw first_set (
          words-set names later e.stack to_swap op (get_elem?-words names e.stack later to_swap g)
            (same op to_swap s)) in
        let found : get_elem? (words names first) j ≡ some (operand_word names x) =
          rw once (get_elem?-words names e.stack j x f) in
        let twice : words names second ≡ words names first = rw second_set (
          words-set names j first x to_swap found
            (sym (same op to_swap s) ∙ sym (eq_value-operand_word names x op q))) in
        subst (Simulates other names below w e) done
          (Simulates-refl other names below w e second (twice ∙ once))

    pub double_swap-Simulates :
        (depth final_stack_depth : ℤ) (e after : Emission) (cost : ℕ)
        → double_swap equivalent depth final_stack_depth e ≡ ok (after, cost)
        → Simulates other names below w e after
    unfolding double_swap
    double_swap-Simulates depth final_stack_depth e after cost h =
        let ((first, c), p, k) = bind_succeeds (emit_swap (some depth) e) _ h in
        let ((second, d), q, r) = bind_succeeds (emit_swap (some final_stack_depth) first) _ k in
        let done : second ≡ after = cc in
        subst (Simulates other names below w e) done (
          Simulates-trans other names below w e first second
            (emit_swap-Simulates other names below w (some depth) e first c p)
            (emit_swap-Simulates other names below w (some final_stack_depth) first second d q))
