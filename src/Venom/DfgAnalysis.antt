-- ===== src/Venom/DfgAnalysis.antt =====
-- vyper/venom/analysis/dfg.py: which operands `assign` instructions make equivalent. The argument
-- `assigned` is the operand of the `assign` that produces a variable, if one does.
use Prim.Native.String.{String}
use vysvm.Common.{
  Option, ℕ, Bool, if◌then◌else◌, ◌≡◌, suc, some, true, ◌<◌, false, Option-cases, Bool-cases, none,
  zero, inl, ap, inr, ◌∙◌, sym, refl, arith,
}
use vysvm.Venom.Operand.{IrOperand, eq_operand, variable, ir_label, eq_operand_iff, literal}

module _ (assigned : String → Option IrOperand) where
  -- With fuel, since a cycle of assignments has no end.
  unfoldable pub traverse_assign_chain : ℕ → IrOperand → IrOperand
  traverse_assign_chain zero var = var
  traverse_assign_chain (suc fuel) (literal n) = literal n
  traverse_assign_chain (suc fuel) (ir_label l) = ir_label l
  traverse_assign_chain (suc fuel) (variable v) = elim (assigned v) [
    | none ↦ variable v
    | some source ↦ traverse_assign_chain fuel source
  ]

  unfoldable pub both_variables : IrOperand → IrOperand → Bool
  both_variables (variable _) (variable _) = true
  both_variables _ _ = false

  unfoldable pub are_equivalent : ℕ → IrOperand → IrOperand → Bool
  are_equivalent fuel x y =
      if eq_operand x y
      then true
      else if both_variables x y
      then eq_operand (traverse_assign_chain fuel x) (traverse_assign_chain fuel y)
      else eq_operand x y

  -- The values that operands have at run time, to which assignments keep.
  module _ (value : IrOperand → ℕ)
      (assigns : (v : String) (source : IrOperand)
        → assigned v ≡ some source
        → value (variable v) ≡ value source) where
    traverse_assign_chain-value :
        (fuel : ℕ) (x : IrOperand) → value (traverse_assign_chain fuel x) ≡ value x
    unfolding traverse_assign_chain
    traverse_assign_chain-value zero x = refl
    traverse_assign_chain-value (suc fuel) (literal n) = refl
    traverse_assign_chain-value (suc fuel) (ir_label l) = refl
    traverse_assign_chain-value (suc fuel) (variable v) = elim (Option-cases (assigned v)) [
      | inl e ↦ rw (traverse_assign_chain, e) refl
      | inr (source, e) ↦
          rw (traverse_assign_chain, e)
            (traverse_assign_chain-value fuel source ∙ sym (assigns v source e))
    ]

    -- Operands that the analysis calls equivalent have the same value wherever each assigned
    -- variable has the value of its source.
    pub are_equivalent-value :
        (fuel : ℕ) (x y : IrOperand) → are_equivalent fuel x y ≡ true → value x ≡ value y
    unfolding are_equivalent
    are_equivalent-value fuel x y h = elim (Bool-cases (eq_operand x y)) [
      | inl e ↦ ap value ((eq_operand_iff x y).0 e)
      | inr e ↦ elim (Bool-cases (both_variables x y)) [
        | inl b ↦
            sym (traverse_assign_chain-value fuel x)
            ∙ ap value ((eq_operand_iff _ _).0 (rw (e, b) at h))
            ∙ traverse_assign_chain-value fuel y
        | inr b ↦ cc (rw (e, b) at h)
      ]
    ]

  -- Chains of assignments that come to an end.
  module _ (rank : IrOperand → ℕ)
      (descends : (v : String) (source : IrOperand)
        → assigned v ≡ some source
        → rank source < rank (variable v)) where
    -- Where every assignment descends in some rank, the walk ends at an operand that no
    -- assignment produces, given more fuel than the rank of the operand it starts from.
    pub traverse_assign_chain-ends :
        (fuel : ℕ) (x : IrOperand)
        → rank x < fuel
        → (v : String) → traverse_assign_chain fuel x ≡ variable v
        → assigned v ≡ none
    unfolding traverse_assign_chain
    traverse_assign_chain-ends zero x h v e = absurd (omega arith)
    traverse_assign_chain-ends (suc fuel) (literal n) h v e = cc
    traverse_assign_chain-ends (suc fuel) (ir_label l) h v e = cc
    traverse_assign_chain-ends (suc fuel) (variable u) h v e = elim (Option-cases (assigned u)) [
      | inl p ↦
          let d : variable u ≡ variable v = rw (traverse_assign_chain, p) at e in
          let k : u ≡ v = cc in rw k at p
      | inr (source, p) ↦
          let below = descends u source p in
          traverse_assign_chain-ends fuel source (omega arith) v
            (rw (traverse_assign_chain, p) at e)
    ]
