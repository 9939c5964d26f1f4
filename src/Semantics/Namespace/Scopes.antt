-- ===== src/Semantics/Namespace/Scopes.antt =====
-- vyper/semantics/namespace.py: leaving a scope.
use mathlib.Core.Path.{fun_ext, subst}
use Prim.Native.String.{String}
use vysvm.Common.{List, Option, [], ◌∷◌, ◌≡◌, some, none, Bool-cases, refl, ap, inl, sym, ◌∙◌, inr}
use vysvm.Common.Errors.{Error, Result, ok, err, namespace_collision, bind_succeeds}
use vysvm.Semantics.Namespace.{
  Namespace, namespace, Entries, Program, done, raise, declare, look_up, scoped,
  validate_assignment, write, delete_all, leave, run, and_then, assigned, found, exit_scope,
  expected, close, set_item, enter_scope, entries_of, get_item,
}
use text.Mathlib.TextEquality.{eq_iff}
use vysvm.Ast.Identifiers.{validate_identifier}
use vysvm.Common.Eq.{str_eq}

absent :
    {V : Type 0} (entry : Option V)
    → ◌≡◌ {A = Result (Unit {0})}
        (elim entry [ none ↦ ok tt | some prev ↦ err namespace_collision ])
        (ok tt)
    → entry ≡ none
absent none h = refl
absent (some prev) h = cc

validated :
    {V : Type 0} (attr : String) (m : Entries V)
    → validate_assignment attr m ≡ ok tt
    → m attr ≡ none
unfolding validate_assignment
validated attr m h =
    let (t, e, f) = bind_succeeds (validate_identifier attr) _ h in absent (m attr) f

module _ {V : Type 0} where
  -- Declaring a new name and deleting it changes nothing.
  write-write :
      (attr : String) (obj : V) (m : Entries V)
      → m attr ≡ none
      → write attr none (write attr (some obj) m) ≡ m
  unfolding write
  write-write attr obj m h = fun_ext (λ j. elim (Bool-cases (str_eq attr j)) [
    | inl e ↦ rw e (sym h ∙ ap m ((eq_iff attr j).0 e))
    | inr e ↦ rw e refl
  ])

  write_self : (attr : String) (obj : V) (m : Entries V) → write attr (some obj) m attr ≡ some obj
  unfolding write
  write_self attr obj m = rw ((eq_iff attr attr).1 refl) refl

  delete-declared :
      (attr : String) (obj : V) (m base : Entries V) (scope : List String)
      → m attr ≡ none
      → delete_all scope m ≡ ok base
      → delete_all (attr ∷ scope) (write attr (some obj) m) ≡ ok base
  unfolding delete_all
  delete-declared attr obj m base scope n h =
      rw (write_self attr obj m, delete_all) (rw (write-write attr obj m n) h)

  -- A result in a scope that agrees with the expected one, and deleting the scope leads to `base`.
  Scoped :
      Namespace V × Option Error
      → Entries V × Option Error
      → List (List String)
      → Entries V
      → Type 0
  Scoped result (m, raised) outer base =
      (new : List String) × (result ≡ (namespace m (new ∷ outer), raised))
      × (delete_all new m ≡ ok base)

  module _ (rest : Namespace V → Namespace V × Option Error)
      (goal : Entries V → Entries V × Option Error) (outer : List (List String)) (base : Entries V)
      (f : (m : Entries V) (scope : List String)
        → delete_all scope m ≡ ok base
        → Scoped (rest (namespace m (scope ∷ outer))) (goal m) outer base)
      (m : Entries V) (scope : List String) (h : delete_all scope m ≡ ok base) where
    and_then-Scoped :
        (raised : Option Error)
        → Scoped
            (and_then (namespace m (scope ∷ outer), raised) rest)
            (and_then (m, raised) goal)
            outer
            base
    unfolding and_then Scoped
    and_then-Scoped none = f m scope h
    and_then-Scoped (some e) = (scope, refl, h)

    declare-Scoped :
        (attr : String) (obj : V) (result : Result (Unit {0}))
        → (result ≡ ok tt → m attr ≡ none)
        → Scoped
            (and_then
              (assigned result
                (namespace (write attr (some obj) m) ((attr ∷ scope) ∷ outer))
                (namespace m (scope ∷ outer)))
              rest)
            (and_then (assigned result (write attr (some obj) m) m) goal)
            outer
            base
    unfolding assigned and_then Scoped
    declare-Scoped attr obj (ok t) k =
        f (write attr (some obj) m) (attr ∷ scope)
          (delete-declared attr obj m base scope (k refl) h)
    declare-Scoped attr obj (err e) k = (scope, refl, h)

    look_up-Scoped :
        (result : Result V)
        → Scoped
            (and_then (found result (namespace m (scope ∷ outer))) rest)
            (and_then (found result m) goal)
            outer
            base
    unfolding found and_then Scoped
    look_up-Scoped (ok v) = f m scope h
    look_up-Scoped (err e) = (scope, refl, h)

  leave-inner :
      (m inside : Entries V) (new : List String) (outer : List (List String))
      (raised : Option Error)
      → delete_all new inside ≡ ok m
      → leave (namespace inside (new ∷ outer), raised) ≡ (namespace m outer, raised)
  unfolding leave exit_scope close
  leave-inner m inside new outer raised h = rw h refl

  module _ (vars : List (String × V)) where
    run-Scoped :
        (p : Program V) (m : Entries V) (scope : List String) (outer : List (List String))
        (base : Entries V)
        → delete_all scope m ≡ ok base
        → Scoped (run vars p (namespace m (scope ∷ outer))) (expected p m) outer base
    unfolding run expected Scoped set_item enter_scope and_then entries_of delete_all
    run-Scoped done m scope outer base h = (scope, refl, h)
    run-Scoped (raise e) m scope outer base h = (scope, refl, h)
    run-Scoped (declare attr obj p) m scope outer base h =
        declare-Scoped (run vars p) (expected p) outer base (λ n s. run-Scoped p n s outer base) m
          scope h attr obj (validate_assignment attr m) (validated attr m)
    run-Scoped (look_up key p) m scope outer base h =
        look_up-Scoped (run vars p) (expected p) outer base (λ n s. run-Scoped p n s outer base) m
          scope h (get_item key m)
    run-Scoped (scoped body p) m scope outer base h =
        let (new, e, l) = run-Scoped body m [] (scope ∷ outer) m refl in
        let d =
          ap leave e
          ∙ leave-inner m (expected body m).0 new (scope ∷ outer) (expected body m).1 l in
        subst
          (λ (r : Namespace V × Option Error).
            Scoped (and_then r (run vars p)) (expected (scoped body p) m) outer base)
          (sym d)
          (and_then-Scoped (run vars p) (expected p) outer base (λ n s. run-Scoped p n s outer base)
            m scope h (expected body m).1)

ends :
    {V : Type 0} (vars : List (String × V)) (n : Namespace V) (raised : Option Error)
    → and_then (n, raised) (run vars done) ≡ (n, raised)
unfolding and_then run
ends vars n none = refl
ends vars n (some e) = refl

-- Where a scope is open, a `with namespace.enter_scope()` leaves the namespace with the names and
-- scopes that it had before, whatever its body declares, looks up or raises and however it nests
-- scopes, and it raises what the body does.
pub run-enter_scope :
    {V : Type 0} (vars : List (String × V)) (body : Program V) (m : Entries V) (scope : List String)
    (outer : List (List String))
    → run vars (scoped body done) (namespace m (scope ∷ outer))
      ≡ (namespace m (scope ∷ outer), (expected body m).1)
unfolding run expected enter_scope and_then Scoped delete_all
run-enter_scope vars body m scope outer =
    let (new, e, l) = run-Scoped vars body m [] (scope ∷ outer) m refl in
    let d =
      ap leave e ∙ leave-inner m (expected body m).0 new (scope ∷ outer) (expected body m).1 l in
    ap (λ r. and_then r (run vars done)) d ∙ ends vars _ (expected body m).1
