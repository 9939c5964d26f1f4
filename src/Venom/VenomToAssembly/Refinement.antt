-- ===== src/Venom/VenomToAssembly/Refinement.antt =====
-- vyper/venom/venom_to_assembly.py: the methods that bring the operands in order refine the model
-- of the stack.
use mathlib.Core.Path.{subst}
use vysvm.Venom.Operand.{IrOperand, eq_operand, eq_operand_iff}
use vysvm.Venom.VenomToAssembly.{Emission, swap_op}
use vysvm.Venom.VenomToAssembly.Reorder.{
  eq_operands, place_operand, reorder_loop, stack_reorder, optimistic_swap, exchange_operands,
  swap_next, top, reverse_onto, last_variable, eq_depth, no_duplicates,
}
use vysvm.Common.Errors.{Error, unless, ok, bind_succeeds, assertion_error}
use vysvm.Evm.Machine.{Other}
use vysvm.Common.{
  List, Bool, ◌≡◌, ℕ, true, false, refl, Option-cases, ◌∷◌, length, Bool-cases, inl, [], inr, ap₂,
  some,
}
use Prim.Native.String.{String}
use vysvm.Venom.VenomToAssembly.Simulation.{
  operand_word, Simulates, Simulates-refl, Simulates-trans,
}
use vysvm.Venom.StackModel.{get_depth, minus, peek}
use vysvm.Venom.VenomToAssembly.Moves.{
  swap_op-Simulates, virtual_swap-Simulates, double_swap-Simulates,
}
use vysvm.Venom.VenomToAssembly.Success.{peek_succeeds}

pub eq_operands_sound : (xs ys : List IrOperand) → eq_operands xs ys ≡ true → xs ≡ ys
unfolding eq_operands
eq_operands_sound [] [] h = refl
eq_operands_sound [] (y ∷ ys) h = cc
eq_operands_sound (x ∷ xs) [] h = cc
eq_operands_sound (x ∷ xs) (y ∷ ys) h = elim (Bool-cases (eq_operand x y)) [
  | inl e ↦ ap₂ (λ z zs. z ∷ zs) ((eq_operand_iff x y).0 e) (eq_operands_sound xs ys (rw e at h))
  | inr e ↦ cc (rw e at h)
]

unless_holds : (error : Error) (b : Bool) (u : Unit {0}) → unless error b ≡ ok u → b ≡ true
unless_holds error true u h = refl
unless_holds error false u h = cc

module _ {W : Type 0} (other : Other W) (names : String → ℕ) (below : List ℕ) (w : W)
    (equivalent : IrOperand → IrOperand → Bool)
    (same : (x y : IrOperand)
      → equivalent x y ≡ true
      → operand_word names x ≡ operand_word names y) where
  place_operand-Simulates :
      (later : ℕ) (op : IrOperand) (e after : Emission) (cost : ℕ)
      → place_operand equivalent later op e ≡ ok (after, cost)
      → Simulates other names below w e after
  unfolding place_operand exchange_operands
  place_operand-Simulates later op e after cost h = elim (Option-cases (get_depth op e.stack)) [
    | inl p ↦ cc (rw (place_operand, p) at h)
    | inr (depth, p) ↦ elim (Bool-cases (eq_depth depth (minus later))) [
      | inl q ↦
          let d : e ≡ after = cc (rw (place_operand, p, q) at h) in
          subst (Simulates other names below w e) d
            (Simulates-refl other names below w e e.stack refl)
      | inr q ↦
          let (to_swap, g, k) =
            bind_succeeds (peek (some (minus later)) e.stack) _ (rw (place_operand, p, q) at h) in
          elim (Bool-cases (equivalent op to_swap)) [
            | inl s ↦
                virtual_swap-Simulates other names below w equivalent same depth later op to_swap e
                  after cost p (peek_succeeds later e.stack to_swap g) s (rw s at k)
            | inr s ↦
                double_swap-Simulates other names below w equivalent same depth (minus later) e
                  after cost (rw s at k)
          ]
    ]
  ]

  reorder_loop-Simulates :
      (ops : List IrOperand) (e after : Emission) (cost : ℕ)
      → reorder_loop equivalent ops e ≡ ok (after, cost)
      → Simulates other names below w e after
  unfolding reorder_loop
  reorder_loop-Simulates [] e after cost h =
      let d : e ≡ after = cc in
      subst (Simulates other names below w e) d (Simulates-refl other names below w e e.stack refl)
  reorder_loop-Simulates (op ∷ ops) e after cost h =
      let ((placed, c), p, k) = bind_succeeds (place_operand equivalent (length ops) op e) _ h in
      let ((rest, d), q, r) = bind_succeeds (reorder_loop equivalent ops placed) _ k in
      let done : rest ≡ after = cc in
      subst (Simulates other names below w e) done (
        Simulates-trans other names below w e placed rest
          (place_operand-Simulates (length ops) op e placed c p)
          (reorder_loop-Simulates ops placed rest d q))

  -- Where `_stack_reorder` succeeds, the swaps that it emits bring the machine from the stack that
  -- the model described to the one that it describes then, on which the wanted operands are on
  -- top, the last of them topmost, if the operands that the analysis calls equivalent have the
  -- same value at run time.
  pub stack_reorder-Simulates :
      (stack_ops : List IrOperand) (e after : Emission) (cost : ℕ)
      → stack_reorder equivalent stack_ops e ≡ ok (after, cost)
      → Simulates other names below w e after
        × (top (length stack_ops) after.stack ≡ reverse_onto stack_ops [])
  unfolding stack_reorder
  stack_reorder-Simulates stack_ops e after cost h =
      let (u, a, k) = bind_succeeds (unless assertion_error (no_duplicates stack_ops)) _ h in
      let ((result, c), b, l) = bind_succeeds (reorder_loop equivalent stack_ops e) _ k in
      let (v, t, r) =
        bind_succeeds
          (unless assertion_error
            (eq_operands (top (length stack_ops) result.stack) (reverse_onto stack_ops [])))
          _ l in
      let done : result ≡ after = cc in
      (
        subst (Simulates other names below w e) done
            (reorder_loop-Simulates stack_ops e result c b),
        subst (λ (x : Emission). top (length stack_ops) x.stack ≡ reverse_onto stack_ops []) done
            (eq_operands_sound _ _ (unless_holds assertion_error _ v t)),
      )

  pub optimistic_swap-Simulates :
      (ends : Bool) (output : IrOperand) (next_liveness : List String) (e after : Emission)
      → optimistic_swap equivalent ends output next_liveness e ≡ ok after
      → Simulates other names below w e after
  unfolding optimistic_swap swap_next
  optimistic_swap-Simulates ends output [] e after h =
      let d : e ≡ after = cc in
      subst (Simulates other names below w e) d (Simulates-refl other names below w e e.stack refl)
  optimistic_swap-Simulates true output (v ∷ vs) e after h =
      let d : e ≡ after = cc in
      subst (Simulates other names below w e) d (Simulates-refl other names below w e e.stack refl)
  optimistic_swap-Simulates false output (v ∷ vs) e after h =
      elim (Bool-cases (equivalent output (last_variable equivalent v vs))) [
        | inl p ↦
            let d : e ≡ after = cc (rw p at h) in
            subst (Simulates other names below w e) d
              (Simulates-refl other names below w e e.stack refl)
        | inr p ↦
            let ((swapped, c), q, r) =
              bind_succeeds (swap_op (last_variable equivalent v vs) e) _ (rw p at h) in
            let done : swapped ≡ after = cc in
            subst (Simulates other names below w e) done
              (swap_op-Simulates other names below w (last_variable equivalent v vs) e swapped c q)
      ]
