-- ===== src/Ir/Optimizer/CompareRules.antt =====
-- vyper/ir/optimizer.py: `_comparison_helper` on every case.
use vysvm.Ir.Arith.{gt_op, Binop, is_unsigned, is_strict, is_comparison, eq_op, ne_op, evm_int}
use vysvm.Ir.Optimizer.Comparing.{wrap-InRange, eval_term-exchange, flip-evm}
use vysvm.Ir.Optimizer.Term.{right, left, literal, binary, Term, iszero}
use vysvm.Ir.Optimizer.ComparisonSoundness.{
  Settles, settles, choose, eq-literal, eq_read, ne_of_eq, at, never-InRange, changed, bounds_left,
}
use vysvm.Ir.Optimizer.Comparison.{
  same_bool, prefer, never, almost_always, almost_never, new_rhs, last_case, compare_rules,
  exchanged, comparison_helper, prefer_literal,
}
use vysvm.Common.{
  Bool, ◌≡◌, false, not, true, ◌&&◌, arith, ℕ, refl, if◌then◌else◌, ◌<◌, ◌^◌, sym, ◌∙◌, ap, ◌==◌,
  Option, Bool-cases, some, inl, none, inr,
}
use vysvm.Ir.Optimizer.Literals.{eqb_ℤ, reads_as, is_int}
use vysvm.Common.Int.{ℤ, pos}
use vysvm.Ir.Optimizer.Meaning.{eval_term, eqb_ℤ_sound, Reads, Reads-small}
use vysvm.Ir.Arith.Words.{read, evm, evm_int-read}
use vysvm.Venom.ConstantEval.Words.{word_of, IsLiteral}
use vysvm.Venom.ConstantEval.Folding.{truth}
use vysvm.Ir.Optimizer.Soundness.{and_left, and_right, rule-IsRight, IsRight}
use vysvm.Ir.Optimizer.Boundaries.{
  once_holds, almost_always_holds, never_holds, always_holds, almost_never_holds,
}
use vysvm.Ir.Node.{IrNode, IrNodes, ir_node, number, text}
use vysvm.Common.Errors.{ok}

kinds : (s f : Bool) → same_bool s f ≡ false → (f ≡ true → s ≡ false) × (f ≡ false → s ≡ true)
unfolding same_bool
kinds true true h = absurd (cc h)
kinds true false h = ((λ e. absurd (cc e)), (λ e. refl))
kinds false true h = ((λ e. refl), (λ e. absurd (cc e)))
kinds false false h = absurd (cc h)

boundary :
    (s : Bool) (c v w : ℤ)
    → (s && eqb_ℤ c v) ≡ false
    → (not s && eqb_ℤ c w) ≡ false
    → eqb_ℤ c (if s then v else w) ≡ false
boundary true c v w g h = g
boundary false c v w g h = h

eqb_ℤ_refl : (c : ℤ) → eqb_ℤ c c ≡ true
unfolding eqb_ℤ
eqb_ℤ_refl c = ground arith

false_of_not : (b : Bool) → not b ≡ true → b ≡ false
false_of_not true h = cc
false_of_not false h = refl

module _ (o : Binop) (h : is_comparison o ≡ true) (x y : ℕ) (p : x < 2 ^ 256)
    (q : y < 2 ^ 256) where
  to_equal :
      is_strict o ≡ false
      → eqb_ℤ (read (is_unsigned o) y) (never o) ≡ true
      → eval_term (binary eq_op left right) x y ≡ evm o x y
  unfolding eval_term
  to_equal s e =
      let d = eqb_ℤ_sound (read (is_unsigned o) y) (never o) e in
      eq_read (is_unsigned o) x y p q
      ∙ rw (d, sym (once_holds (read (is_unsigned o) x) o h s (bounds_left o h x y p q)))
          (sym (at o h x y p q (never o) e))

  to_differ :
      is_strict o ≡ true
      → eqb_ℤ (read (is_unsigned o) y) (almost_always o) ≡ true
      → eval_term (binary ne_op left right) x y ≡ evm o x y
  unfolding eval_term
  to_differ s e =
      let d = eqb_ℤ_sound (read (is_unsigned o) y) (almost_always o) e in
      ne_of_eq x y _ (eq_read (is_unsigned o) x y p q)
      ∙ rw (d, sym (almost_always_holds (read (is_unsigned o) x) o h s (bounds_left o h x y p q)))
          (sym (at o h x y p q (almost_always o) e))

  to_false :
      is_strict o ≡ true
      → eqb_ℤ (read (is_unsigned o) y) (never o) ≡ true
      → eval_term (literal (pos 0)) x y ≡ evm o x y
  unfolding eval_term word_of truth
  to_false s e = sym (
      at o h x y p q (never o) e
      ∙ ap truth (never_holds (read (is_unsigned o) x) o h s (bounds_left o h x y p q)))

  to_true :
      is_strict o ≡ false
      → eqb_ℤ (read (is_unsigned o) y) (almost_always o) ≡ true
      → eval_term (literal (pos 1)) x y ≡ evm o x y
  unfolding eval_term word_of truth
  to_true s e = sym (
      at o h x y p q (almost_always o) e
      ∙ ap truth (always_holds (read (is_unsigned o) x) o h s (bounds_left o h x y p q)))

  to_never :
      is_strict o ≡ true
      → eqb_ℤ (read (is_unsigned o) y) (almost_never o) ≡ true
      → eval_term (binary eq_op left (literal (never o))) x y ≡ evm o x y
  unfolding eval_term
  to_never s e =
      eq-literal (is_unsigned o) x (never o) p (never-InRange o h)
      ∙ sym (
          at o h x y p q (almost_never o) e
          ∙ ap truth (almost_never_holds (read (is_unsigned o) x) o h s (bounds_left o h x y p q)))

  prefer-Settles :
      (f : Bool)
      → same_bool (is_strict o) f ≡ false
      → eqb_ℤ (read (is_unsigned o) y) (if is_strict o then never o else almost_always o) ≡ false
      → Settles o x y (prefer o f (read (is_unsigned o) y))
  unfolding prefer
  prefer-Settles f k e =
      let (s, t) = kinds (is_strict o) f k in
      choose o x y _ _ _ (λ c. settles o x y _ (to_equal (s (and_left f _ c)) (and_right f _ c)))
        (λ _.
          choose o x y _ _ _
            (λ c.
              settles o x y _
                (to_differ (t (false_of_not f (and_left (not f) _ c))) (and_right (not f) _ c)))
            (λ _.
              let (r, d) = changed o h x y p q (read (is_unsigned o) y) refl e in
              rw
                (
                  wrap-InRange (is_unsigned o) (new_rhs o (read (is_unsigned o) y)) r,
                  eqb_ℤ_refl (new_rhs o (read (is_unsigned o) y)),
                )
                (settles o x y _ d)))

and_false : (c : Bool) → (c && false) ≡ false
and_false true = refl
and_false false = refl

above_zero : (x : ℕ) → truth (truth (x == 0) == 0) ≡ evm gt_op x 0
unfolding evm truth
above_zero x = ground arith

last_case-Settles :
    (o : Binop) (x y : ℕ) (b : IrNode)
    → y < 2 ^ 256
    → Reads b y
    → Settles o x y (ok (last_case o b))
unfolding last_case Settles eval_term
last_case-Settles gt_op x y b q r = (
  _,
  refl,
  rule-IsRight false gt_op x y _ (iszero (iszero left))
      (λ c. rw (Reads-small true 0 b y r q (omega arith) c) (above_zero x)),
)
last_case-Settles _ x y b q r = (none, refl, tt)

module _ (o : Binop) (h : is_comparison o ≡ true) (x y : ℕ) (p : x < 2 ^ 256)
    (q : y < 2 ^ 256) where
  number-Settles :
      (v : ℤ) (args : IrNodes) (e f : Bool)
      → IsLiteral v
      → y ≡ word_of v
      → Settles o x y (compare_rules o (ir_node (number v) args e) f)
  unfolding compare_rules reads_as prefer_literal Reads
  number-Settles v args e f l d =
      let w : evm_int v (is_unsigned o) ≡ read (is_unsigned o) y =
        rw d (evm_int-read v (is_unsigned o) l) in
      rw w (
        choose o x y _ _ _
          (λ c.
            settles o x y _ (to_false o h x y p q (and_left _ _ c) (and_right (is_strict o) _ c)))
          (λ g.
            choose o x y _ _ _
              (λ c. settles o x y _ (
                to_true o h x y p q (false_of_not _ (and_left _ _ c))
                  (and_right (not (is_strict o)) _ c)))
              (λ k.
                choose o x y _ _ _
                  (λ c.
                    settles o x y _
                      (to_never o h x y p q (and_left _ _ c) (and_right (is_strict o) _ c)))
                  (λ _.
                    choose o x y _ _ _
                      (λ _. last_case-Settles o x y (ir_node (number v) args e) q (l, d))
                      (λ s. prefer-Settles o h x y p q f s (boundary (is_strict o) _ _ _ g k))))))

  pub compare_rules-Settles :
      (b : IrNode) (f : Bool) → Reads b y → Settles o x y (compare_rules o b f)
  unfolding Reads compare_rules reads_as prefer_literal
  compare_rules-Settles (ir_node (number v) args e) f (l, d) = number-Settles v args e f l d
  compare_rules-Settles (ir_node (text s) args e) f r =
      rw (and_false (is_strict o), and_false (not (is_strict o)))
        (last_case-Settles o x y (ir_node (text s) args e) q r)

exchanged-IsRight :
    (o f : Binop) (x y : ℕ) (r : Option Term)
    → evm f y x ≡ evm o x y
    → IsRight false f y x r
    → IsRight false o x y (exchanged r)
unfolding exchanged
exchanged-IsRight o f x y none e h = tt
exchanged-IsRight o f x y (some t) e h = rw (eval_term-exchange t x y, sym e) h

-- On a comparison of two words, where an argument that is an integer stands for its word,
-- `_comparison_helper` fails no assertion, and the term that it returns, if any, has the value of
-- the comparison.
pub comparison_helper-Settles :
    (o : Binop)
    → is_comparison o ≡ true
    → (x y : ℕ) → x < 2 ^ 256
    → y < 2 ^ 256
    → (a b : IrNode) → Reads a x
    → Reads b y
    → (f : Bool) → Settles o x y (comparison_helper o a b f)
unfolding comparison_helper Settles
comparison_helper-Settles o h x y p q a b r s f = elim (Bool-cases (is_int a)) [
  | inl c ↦
      let (g, e, k, d) = flip-evm o x y h in
      let (t, l, m) = compare_rules-Settles g k y x q p a f r in
      rw (c, e, l) (exchanged t, refl, exchanged-IsRight o g x y t d m)
  | inr c ↦ rw c (compare_rules-Settles o h x y p q b f s)
]
