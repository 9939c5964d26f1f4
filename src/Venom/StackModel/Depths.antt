-- ===== src/Venom/StackModel/Depths.antt =====
-- vyper/venom/stack_model.py: looking up a depth and exchanging operands.
use vysvm.Venom.StackModel.{
  StackModel, place, swap, height, find_depth, get_depth, element_at, peek, replace_at, minus,
  eq_value,
}
use vysvm.Common.{
  ℕ, ◌<◌, get_elem?, suc, length, ◌≡◌, ◌∷◌, some, arith, set, ap, ◌+◌, [], true, zero, refl,
  Bool-cases, inl, inr, length-set, set-set_same, element_exists, get_elem?-set_self, ◌∙◌,
}
use vysvm.Venom.Operand.{IrOperand}
use vysvm.Common.Int.{pos, ℤ, negsuc, ltb_ℤ}
use vysvm.Common.Errors.{ok}

pub place_top : (t : IrOperand) (rest : StackModel) → place (pos 0) (t ∷ rest) ≡ some 0
unfolding place
place_top t rest = ground arith

place_below :
    (n : ℕ) (stack : StackModel) → suc n < length stack → place (negsuc n) stack ≡ some (suc n)
unfolding place
place_below n stack h = ground arith

is_below : (n : ℕ) → ltb_ℤ (negsuc n) (pos 0) ≡ true
is_below n = ground arith

pub element_at-get_elem? :
    (i : ℕ) (stack : StackModel) (x : IrOperand)
    → get_elem? stack i ≡ some x
    → element_at (some i) stack ≡ ok x
unfolding element_at
element_at-get_elem? i stack x e = rw (e, element_at) refl

pub replace_at-set :
    (i : ℕ) (stack : StackModel) (x : IrOperand) → replace_at (some i) x stack ≡ ok (set stack i x)
unfolding replace_at
replace_at-set i stack x = refl

pub swap_below :
    (n : ℕ) (t x : IrOperand) (rest : StackModel)
    → n < length rest
    → get_elem? rest n ≡ some x
    → swap (some (negsuc n)) (t ∷ rest) ≡ ok (x ∷ set rest n t)
unfolding swap
swap_below n t x rest h e =
    rw
      (
        is_below n,
        place_top t rest,
        element_at-get_elem? 0 (t ∷ rest) t refl,
        place_below n (t ∷ rest) (omega arith),
        element_at-get_elem? (suc n) (t ∷ rest) x e,
        replace_at-set 0 (t ∷ rest) x,
        place_below n (x ∷ rest) (omega arith),
        replace_at-set (suc n) (x ∷ rest) t,
      )
      refl

pub place-minus : (j : ℕ) (stack : StackModel) → j < length stack → place (minus j) stack ≡ some j
unfolding place minus
place-minus zero stack h = ground arith
place-minus (suc j) stack h = ground arith

-- At a depth within the stack, swap succeeds, and a second swap at that depth restores the stack.
pub swap-swap :
    (n : ℕ) (stack : StackModel)
    → suc n < height stack
    → (swapped : StackModel) × (swap (some (negsuc n)) stack ≡ ok swapped)
      × (swap (some (negsuc n)) swapped ≡ ok stack)
unfolding height
swap-swap n [] h = absurd (omega arith)
swap-swap n (t ∷ rest) h =
    let (x, e) = element_exists rest n (omega arith) in
    let l : n < length rest = omega arith in
    (
      x ∷ set rest n t,
      swap_below n t x rest l e,
      swap_below n x t (set rest n t) (omega (arith, length-set rest n t))
            (get_elem?-set_self rest n t l)
          ∙ ap (λ r. ok (t ∷ r)) (set-set_same rest n x t e),
    )

pub find_depth_found :
    (op : IrOperand) (i : ℕ) (stack : StackModel) (d : ℤ)
    → find_depth op i stack ≡ some d
    → (j : ℕ) × (x : IrOperand) × (d ≡ minus (i + j))
      × (get_elem? stack j ≡ some x)
      × (eq_value x op ≡ true)
      × (j < length stack)
unfolding find_depth
find_depth_found op i [] d h = cc
find_depth_found op i (s ∷ stack) d h = elim (Bool-cases (eq_value s op)) [
  | inl p ↦ (
    0,
    s,
    let w : d ≡ minus i = cc (rw p at h) in let k : i + 0 ≡ i = omega arith in rw k w,
    refl,
    p,
    omega arith,
  )
  | inr p ↦
      let (j, x, e, g, q, l) = find_depth_found op (suc i) stack d (rw p at h) in
      (suc j, x, let k : i + suc j ≡ suc i + j = omega arith in rw k e, g, q, omega arith)
]

element_at-minus :
    (j : ℕ) (stack : StackModel) (x : IrOperand)
    → j < length stack
    → get_elem? stack j ≡ some x
    → element_at (place (minus (0 + j)) stack) stack ≡ ok x
element_at-minus j stack x l g =
    let k : 0 + j ≡ j = omega arith in
    rw (k, place-minus j stack l) (element_at-get_elem? j stack x g)

-- An operand at the depth that get_depth reports can be peeked at, and has the value looked for.
pub get_depth-peek :
    (op : IrOperand) (stack : StackModel) (d : ℤ)
    → get_depth op stack ≡ some d
    → (x : IrOperand) × (peek (some d) stack ≡ ok x) × (eq_value x op ≡ true)
unfolding get_depth peek
get_depth-peek op stack d h =
    let (j, x, e, g, q, l) = find_depth_found op 0 stack d h in
    (x, ap (λ k. element_at (place k stack) stack) e ∙ element_at-minus j stack x l g, q)
