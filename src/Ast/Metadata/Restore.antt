-- ===== src/Ast/Metadata/Restore.antt =====
-- vyper/ast/metadata.py: the journal does what it is for.
use mathlib.Core.Path.{subst}
use vysvm.Common.{List, Bool, [], ◌∷◌, ◌≡◌, false, true, refl, ap, sym, some}
use vysvm.Ast.Metadata.{
  Program, done, raise, assign, speculate, attempt, journal, Values, Changes, write, Key_Eq, merge,
  run, expected, set_item, enter_inner, rollback_inner, commit_inner, Journal, speculated,
  attempted, kept_or_dropped, kept_or_restored,
}
use vysvm.Ast.Metadata.Undo.{IsUndo, nothing-IsUndo, undo-IsUndo, register-IsUndo, commit-IsUndo}

module _ {V : Type 0} where
  -- A result under changesets that agrees with the expected one, with a changeset that undoes it.
  Framed : Journal V × Bool → Values V × Bool → List (Changes V) → Values V → Type 0
  Framed result (m, raised) outer base =
      (new : Changes V) × (result ≡ (journal m (new ∷ outer), raised)) × IsUndo new m base

  module _ (rest : Journal V → Journal V × Bool) (goal : Values V → Values V × Bool)
      (values base : Values V) (changes : Changes V) (outer : List (Changes V))
      (u : IsUndo changes values base)
      (f : (m : Values V) (c : Changes V)
        → IsUndo c m base
        → Framed (rest (journal m (c ∷ outer))) (goal m) outer base)
      (inner : Changes V) where
    speculated-Framed :
        (m : Values V) (raised : Bool)
        → IsUndo inner m values
        → Framed
            (speculated rest (journal m (inner ∷ changes ∷ outer), raised))
            (kept_or_dropped values goal (m, raised))
            outer
            base
    unfolding speculated kept_or_dropped rollback_inner commit_inner Framed
    speculated-Framed m true w =
        (changes, ap (λ n. (journal n (changes ∷ outer), true)) (undo-IsUndo inner m values w), u)
    speculated-Framed m false w =
        f m (merge inner changes) (commit-IsUndo inner changes m values base w u)

    attempted-Framed :
        (m : Values V) (raised : Bool)
        → IsUndo inner m values
        → Framed
            (attempted rest (journal m (inner ∷ changes ∷ outer), raised))
            (kept_or_restored values goal (m, raised))
            outer
            base
    unfolding attempted kept_or_restored rollback_inner commit_inner
    attempted-Framed m true w = rw (undo-IsUndo inner m values w) (f values changes u)
    attempted-Framed m false w =
        f m (merge inner changes) (commit-IsUndo inner changes m values base w u)

  run-Framed :
      (p : Program V) (values : Values V) (changes : Changes V) (outer : List (Changes V))
      (base : Values V)
      → IsUndo changes values base
      → Framed (run p (journal values (changes ∷ outer))) (expected p values) outer base
  unfolding run expected set_item enter_inner Framed
  run-Framed done values changes outer base u = (changes, refl, u)
  run-Framed raise values changes outer base u = (changes, refl, u)
  run-Framed (assign k v p) values changes outer base u =
      run-Framed p (write k (some v) values) _ outer base
        (register-IsUndo changes values base k (some v) u)
  run-Framed (speculate body p) values changes outer base u =
      let (inner, e, w) =
        run-Framed body values [] (changes ∷ outer) values (nothing-IsUndo values) in
      subst
        (λ (r : Journal V × Bool).
          Framed (speculated (run p) r) (expected (speculate body p) values) outer base)
        (sym e)
        (speculated-Framed (run p) (expected p) values base changes outer u
          (λ m c. run-Framed p m c outer base) inner (expected body values).0
          (expected body values).1 w)
  run-Framed (attempt body p) values changes outer base u =
      let (inner, e, w) =
        run-Framed body values [] (changes ∷ outer) values (nothing-IsUndo values) in
      subst
        (λ (r : Journal V × Bool).
          Framed (attempted (run p) r) (expected (attempt body p) values) outer base)
        (sym e)
        (attempted-Framed (run p) (expected p) values base changes outer u
          (λ m c. run-Framed p m c outer base) inner (expected body values).0
          (expected body values).1 w)

  -- The same without a changeset.
  Plain : Journal V × Bool → Values V × Bool → Type 0
  Plain result (m, raised) = result ≡ (journal m [], raised)

  module _ (rest : Journal V → Journal V × Bool) (goal : Values V → Values V × Bool)
      (values : Values V) (f : (m : Values V) → Plain (rest (journal m [])) (goal m))
      (inner : Changes V) where
    speculated-Plain :
        (m : Values V) (raised : Bool)
        → IsUndo inner m values
        → Plain
            (speculated rest (journal m (inner ∷ []), raised))
            (kept_or_dropped values goal (m, raised))
    unfolding speculated kept_or_dropped rollback_inner commit_inner Plain
    speculated-Plain m true w = ap (λ n. (journal n [], true)) (undo-IsUndo inner m values w)
    speculated-Plain m false w = f m

    attempted-Plain :
        (m : Values V) (raised : Bool)
        → IsUndo inner m values
        → Plain
            (attempted rest (journal m (inner ∷ []), raised))
            (kept_or_restored values goal (m, raised))
    unfolding attempted kept_or_restored rollback_inner commit_inner
    attempted-Plain m true w = rw (undo-IsUndo inner m values w) (f values)
    attempted-Plain m false w = f m

  run-Plain :
      (p : Program V) (values : Values V) → Plain (run p (journal values [])) (expected p values)
  unfolding run expected set_item enter_inner Framed Plain
  run-Plain done values = refl
  run-Plain raise values = refl
  run-Plain (assign k v p) values = run-Plain p (write k (some v) values)
  run-Plain (speculate body p) values =
      let (inner, e, w) = run-Framed body values [] [] values (nothing-IsUndo values) in
      subst
        (λ (r : Journal V × Bool).
          Plain (speculated (run p) r) (expected (speculate body p) values))
        (sym e)
        (speculated-Plain (run p) (expected p) values (run-Plain p) inner (expected body values).0
          (expected body values).1 w)
  run-Plain (attempt body p) values =
      let (inner, e, w) = run-Framed body values [] [] values (nothing-IsUndo values) in
      subst
        (λ (r : Journal V × Bool). Plain (attempted (run p) r) (expected (attempt body p) values))
        (sym e)
        (attempted-Plain (run p) (expected p) values (run-Plain p) inner (expected body values).0
          (expected body values).1 w)

-- Running a program on the journal, outside every speculation, leaves the metadata that is expected
-- when each speculation that raises leaves what was there before it; it raises exactly if that
-- does, and leaves no changeset.
pub run-expected :
    {V : Type 0} (p : Program V) (values : Values V)
    → run p (journal values []) ≡ (journal (expected p values).0 [], (expected p values).1)
unfolding Plain
run-expected p values = run-Plain p values
