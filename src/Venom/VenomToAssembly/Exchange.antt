-- ===== src/Venom/VenomToAssembly/Exchange.antt =====
-- vyper/venom/venom_to_assembly.py: exchanging operands of the model, as a motion of positions.
use vysvm.Venom.Operand.{IrOperand}
use vysvm.Venom.VenomToAssembly.{extend_by, evm_swap_for, swap_below_top, emit_swap, Emission}
use vysvm.Common.{
  ℕ, if◌then◌else◌, ◌≡◌, ◌≢◌, get_elem?, ◌<◌, ◌==◌, arith, length, some, suc, ◌∙◌, ap, ◌∷◌, set,
  ◌≤◌, sym, Bool-cases, element_exists, zero, refl, inl, get_elem?-set_self, get_elem?_bounded,
  length-set, [], inr, get_elem?-set_ne,
}
use vysvm.Venom.StackModel.{StackModel, minus}
use Prim.Native.String.{String}
use vysvm.Common.Int.{negsuc}
use vysvm.Common.Errors.{ok}
use vysvm.Evm.StackNames.{swap_names}
use vysvm.Venom.StackModel.Depths.{swap_below}
use vysvm.Evm.Assembler.Instructions.{mnemonic}

unfoldable pub transpose : ℕ → ℕ → ℕ → ℕ
transpose a b q = if q == a then b else if q == b then a else q

transpose_twice : (a b q : ℕ) → transpose a b (transpose a b q) ≡ q
unfolding transpose
transpose_twice a b q = ground arith

pub transpose_other : (a b q : ℕ) → q ≢ a → q ≢ b → transpose a b q ≡ q
unfolding transpose
transpose_other a b q h k = ground arith

pub transpose_left : (a b : ℕ) → transpose a b a ≡ b
unfolding transpose
transpose_left a b = ground arith

pub transpose_right : (a b : ℕ) → transpose a b b ≡ a
unfolding transpose
transpose_right a b = ground arith

-- The operands at two positions have changed places.
pub record Exchanged (a b : ℕ) (s t : StackModel) : Type 0 where
  pub moved : (q : ℕ) → get_elem? t q ≡ get_elem? s (transpose a b q)
  pub same_height : length t ≡ length s

pub Exchanged-stays :
    (a b p : ℕ) (s t : StackModel) (y : IrOperand)
    → Exchanged a b s t
    → get_elem? s p ≡ some y
    → get_elem? t (transpose a b p) ≡ some y
Exchanged-stays a b p s t y x h =
    x.moved (transpose a b p) ∙ ap (λ q. get_elem? s q) (transpose_twice a b p) ∙ h

Exchanged-same : (s : StackModel) → Exchanged 0 0 s s
unfolding transpose
Exchanged-same s = record {
  moved = λ q. let e : transpose 0 0 q ≡ q = ground arith in ap (λ i. get_elem? s i) (sym e);
  same_height = refl;
}

exchange_rest :
    (n q : ℕ) (t x : IrOperand) (rest : StackModel)
    → get_elem? rest n ≡ some x
    → get_elem? (x ∷ set rest n t) q ≡ get_elem? (t ∷ rest) (transpose 0 (suc n) q)
exchange_rest n zero t x rest h = rw (transpose_left 0 (suc n)) (sym h)
exchange_rest n (suc m) t x rest h = elim (Bool-cases (m == n)) [
  | inl e ↦
      let d : n ≡ m = ground arith in
      rw (sym d, transpose_right 0 (suc n))
        (get_elem?-set_self rest n t (get_elem?_bounded rest n x h))
  | inr e ↦
      let d : suc m ≢ suc n = ground arith in
      rw (transpose_other 0 (suc n) (suc m) (λ (k : suc m ≡ 0). absurd (omega arith)) d)
        (get_elem?-set_ne rest n m t (λ k. d (ap suc (sym k))))
]

-- Two writes that change the places of what was read.
pub set_twice_Exchanged :
    (a b : ℕ) (s : StackModel) (x y : IrOperand)
    → get_elem? s a ≡ some x
    → get_elem? s b ≡ some y
    → Exchanged a b s (set (set s a y) b x)
set_twice_Exchanged a b s x y h k = record {
  moved = λ q. elim (Bool-cases (q == b)) [
    | inl e ↦
        let d : b ≡ q = ground arith in
        rw (sym d, transpose_right a b)
          (get_elem?-set_self (set s a y) b x
              (omega (arith, length-set s a y, get_elem?_bounded s b y k))
            ∙ sym h)
    | inr e ↦
        let d : b ≢ q = ground arith in
        get_elem?-set_ne (set s a y) b q x d ∙ elim (Bool-cases (q == a)) [
          | inl f ↦
              let g : a ≡ q = ground arith in
              rw (sym g, transpose_left a b)
                (get_elem?-set_self s a y (get_elem?_bounded s a x h) ∙ sym k)
          | inr f ↦
              let g : a ≢ q = ground arith in
              rw (transpose_other a b q (λ z. g (sym z)) (λ z. d (sym z)))
                (get_elem?-set_ne s a q y g)
        ]
  ];
  same_height = length-set (set s a y) b x ∙ length-set s a y;
}

evm_swap_for_exists : (n : ℕ) → n < 16 → (s : String) × (evm_swap_for (negsuc n) ≡ ok s)
unfolding evm_swap_for
evm_swap_for_exists n h =
    let (s, e) = element_exists swap_names n h in (s, rw (evm_swap_for, e) refl)

swap_reaches :
    (n : ℕ) (e : Emission) (stack : StackModel)
    → e.stack ≡ stack
    → suc n < length stack
    → suc n ≤ 16
    → (after : Emission) × (cost : ℕ) × (swap_below_top (negsuc n) e ≡ ok (after, cost))
      × Exchanged 0 (suc n) stack after.stack
unfolding swap_below_top
swap_reaches n e [] same h k = absurd (omega arith)
swap_reaches n e (t ∷ rest) same h k =
    let (x, g) = element_exists rest n (omega arith) in
    let (s, p) = evm_swap_for_exists n (omega arith) in
    let exchanged = swap_below n t x rest (omega arith) g in
    (
      extend_by (mnemonic s ∷ []) (x ∷ set rest n t) e,
      1,
      rw (swap_below_top, same, exchanged, p) refl,
      record {
        moved = λ q. exchange_rest n q t x rest g;
        same_height = ap suc (length-set rest n t);
      },
    )

-- Within the sixteen depths that the EVM can reach, a swap succeeds.
pub emit_swap-Exchanged :
    (j : ℕ) (e : Emission)
    → j < length e.stack
    → j ≤ 16
    → (after : Emission) × (cost : ℕ) × (emit_swap (some (minus j)) e ≡ ok (after, cost))
      × Exchanged 0 j e.stack after.stack
unfolding emit_swap minus
emit_swap-Exchanged zero e h k = (e, 0, refl, Exchanged-same e.stack)
emit_swap-Exchanged (suc n) e h k = swap_reaches n e e.stack refl h k
