-- ===== src/Venom/VenomToAssembly/Success.antt =====
-- vyper/venom/stack_model.py: what the operations on the stack have done where they succeed.
use vysvm.Venom.StackModel.{element_at, place, peek, swap, dup, poke, StackModel, minus, replace_at}
use vysvm.Common.{
  Option, ℕ, some, ◌≡◌, suc, get_elem?, Bool-cases, ◌∷◌, set, Option-cases, ltb, length, inl, [],
  inr, none, refl, get_elem?_bounded, zero,
}
use vysvm.Venom.Operand.{IrOperand}
use vysvm.Common.Int.{negsuc, pos, leb_ℤ, ltb_ℤ}
use vysvm.Common.Errors.{ok, bind_succeeds, unless, assertion_error}
use vysvm.Venom.StackModel.Depths.{swap_below}

element_at_succeeds :
    (p : Option ℕ) (stack : StackModel) (x : IrOperand)
    → element_at p stack ≡ ok x
    → (i : ℕ) × (p ≡ some i) × (get_elem? stack i ≡ some x)
unfolding element_at
element_at_succeeds none stack x h = cc
element_at_succeeds (some i) stack x h = elim (Option-cases (get_elem? stack i)) [
  | inl e ↦ cc (rw (element_at, e) at h)
  | inr (y, e) ↦
      let k : ok y ≡ ok x = rw (element_at, e) at h in let d : y ≡ x = cc in (i, refl, rw d at e)
]

place_succeeds : (j i : ℕ) (stack : StackModel) → place (minus j) stack ≡ some i → j ≡ i
unfolding place minus
place_succeeds zero i stack h = elim (Bool-cases (ltb 0 (length stack))) [
  | inl e ↦ cc (rw (place, e) at h)
  | inr e ↦ cc (rw (place, e) at h)
]
place_succeeds (suc n) i stack h = elim (Bool-cases (ltb (suc n) (length stack))) [
  | inl e ↦ cc (rw (place, e) at h)
  | inr e ↦ cc (rw (place, e) at h)
]

-- Depths in the stack are those of its operands.
pub peek_succeeds :
    (j : ℕ) (stack : StackModel) (x : IrOperand)
    → peek (some (minus j)) stack ≡ ok x
    → get_elem? stack j ≡ some x
unfolding peek
peek_succeeds j stack x h =
    let (i, p, g) = element_at_succeeds (place (minus j) stack) stack x h in
    let d : j ≡ i = place_succeeds j i stack p in rw d g

pub dup_succeeds :
    (j : ℕ) (stack copied : StackModel)
    → dup (some (minus j)) stack ≡ ok copied
    → (x : IrOperand) × (get_elem? stack j ≡ some x) × (copied ≡ x ∷ stack)
unfolding dup
dup_succeeds j stack copied h =
    let (u, checked, k) = bind_succeeds (unless assertion_error (leb_ℤ (minus j) (pos 0))) _ h in
    let (x, p, r) = bind_succeeds (peek (some (minus j)) stack) _ k in
    (x, peek_succeeds j stack x p, cc)

replace_at_succeeds :
    (j : ℕ) (p : Option ℕ) (op : IrOperand) (stack replaced : StackModel)
    → ((i : ℕ) → p ≡ some i → j ≡ i)
    → replace_at p op stack ≡ ok replaced
    → replaced ≡ set stack j op
unfolding replace_at
replace_at_succeeds j none op stack replaced f h = cc
replace_at_succeeds j (some i) op stack replaced f h = let d = f i refl in rw d cc

pub poke_succeeds :
    (j : ℕ) (op : IrOperand) (stack poked : StackModel)
    → poke (some (minus j)) op stack ≡ ok poked
    → poked ≡ set stack j op
unfolding poke
poke_succeeds j op stack poked h =
    let (u, checked, k) = bind_succeeds (unless assertion_error (leb_ℤ (minus j) (pos 0))) _ h in
    replace_at_succeeds j (place (minus j) stack) op stack poked (λ i e. place_succeeds j i stack e)
      k

swapped_parts :
    (n : ℕ) (stack swapped : StackModel) (t x : IrOperand)
    → swap (some (negsuc n)) stack ≡ ok swapped
    → get_elem? stack 0 ≡ some t
    → get_elem? stack (suc n) ≡ some x
    → (t : IrOperand) × (rest : StackModel) × (x : IrOperand) × (stack ≡ t ∷ rest)
      × (get_elem? rest n ≡ some x)
      × (swapped ≡ x ∷ set rest n t)
swapped_parts n [] swapped t x h p q = cc
swapped_parts n (s ∷ rest) swapped t x h p q =
    let k = swap_below n s x rest (get_elem?_bounded rest n x q) q in (s, rest, x, refl, q, cc)

-- A swap that succeeds has exchanged the top and the operand at that depth.
pub swap_succeeds :
    (n : ℕ) (stack swapped : StackModel)
    → swap (some (negsuc n)) stack ≡ ok swapped
    → (t : IrOperand) × (rest : StackModel) × (x : IrOperand) × (stack ≡ t ∷ rest)
      × (get_elem? rest n ≡ some x)
      × (swapped ≡ x ∷ set rest n t)
unfolding swap peek minus
swap_succeeds n stack swapped h =
    let (u, c, k) = bind_succeeds (unless assertion_error (ltb_ℤ (negsuc n) (pos 0))) _ h in
    let (t, p, l) = bind_succeeds (element_at (place (pos 0) stack) stack) _ k in
    let (x, q, m) = bind_succeeds (element_at (place (negsuc n) stack) stack) _ l in
    swapped_parts n stack swapped t x h (peek_succeeds 0 stack t p)
      (peek_succeeds (suc n) stack x q)
