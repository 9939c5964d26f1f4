-- ===== src/Semantics/Namespace.antt =====
-- vyper/semantics/namespace.py: the names that are declared, with the scopes that are open. What the
-- environment declares in the first scope is an argument.
pub mod Scopes
pub mod Examples
use Prim.Native.String.{String}
use vysvm.Common.{List, Bool, Option, [], ◌∷◌, ◌++◌, some, none, true, false, ◌||◌, if◌then◌else◌}
use vysvm.Common.Errors.{
  Error, Result, ok, err, ◌>>=◌, ◌>>◌, key_error, compiler_panic, namespace_collision,
  undeclared_definition,
}
use vysvm.Common.Eq.{str_eq}
use vysvm.Ast.Identifiers.{validate_identifier}

abbrev pub Entries : Type 0 → Type 0
Entries V = String → Option V

unfoldable pub write : {V : Type 0} → String → Option V → Entries V → Entries V
write k p entries j = if str_eq k j then p else entries j

-- The dictionary and _scopes, with the last scope first.
pub data Namespace (V : Type 0) : Type 0 where
  namespace : Entries V → List (List String) → Namespace V

unfoldable pub validate_assignment : {V : Type 0} → String → Entries V → Result (Unit {0})
validate_assignment attr entries =
    validate_identifier attr
    >> elim (entries attr) [ none ↦ ok tt | some prev ↦ err namespace_collision ]

-- A state with the exception that is raised, if one is.
unfoldable pub and_then :
    {S : Type 0} → S × Option Error → (S → S × Option Error) → S × Option Error
and_then (s, none) rest = rest s
and_then (s, some e) rest = (s, some e)

unfoldable pub assigned : {S : Type 0} → Result (Unit {0}) → S → S → S × Option Error
assigned (ok _) new old = (new, none)
assigned (err e) new old = (old, some e)

-- `__setitem__`. In a scope the name is new, so that adding it to the set puts it there once.
unfoldable pub set_item : {V : Type 0} → String → V → Namespace V → Namespace V × Option Error
set_item attr obj (namespace entries []) = (namespace (write attr (some obj) entries) [], none)
set_item attr obj (namespace entries (scope ∷ outer)) =
    assigned (validate_assignment attr entries)
      (namespace (write attr (some obj) entries) ((attr ∷ scope) ∷ outer))
      (namespace entries (scope ∷ outer))

unfoldable pub get_item : {V : Type 0} → String → Entries V → Result V
get_item key entries = elim (entries key) [ none ↦ err undeclared_definition | some obj ↦ ok obj ]

unfoldable pub update : {V : Type 0} → List (String × V) → Namespace V → Namespace V × Option Error
update [] n = (n, none)
update ((key, value) ∷ other) n = and_then (set_item key value n) (update other)

-- `enter_scope`, with environment.get_mutable_vars().
unfoldable pub enter_scope :
    {V : Type 0} → List (String × V) → Namespace V → Namespace V × Option Error
enter_scope vars (namespace entries []) = update vars (namespace entries ([] ∷ []))
enter_scope vars (namespace entries (scope ∷ outer)) =
    (namespace entries ([] ∷ scope ∷ outer), none)

-- The loop of `__exit__`, in one order of the set: its keys are different.
unfoldable pub delete_all : {V : Type 0} → List String → Entries V → Result (Entries V)
delete_all [] entries = ok entries
delete_all (key ∷ keys) entries = elim (entries key) [
  | none ↦ err key_error
  | some obj ↦ delete_all keys (write key none entries)
]

-- `__exit__`
unfoldable pub exit_scope : {V : Type 0} → Namespace V → Result (Namespace V)
exit_scope (namespace entries []) = err compiler_panic
exit_scope (namespace entries (scope ∷ outer)) =
    delete_all scope entries >>= λ left. ok (namespace left outer)

-- What the analysis does with the namespace: it declares and looks up names, raises, and works in
-- a scope, `with namespace.enter_scope():`.
pub data Program (V : Type 0) : Type 0 where
  done : Program V
  raise : Error → Program V
  declare : String → V → Program V → Program V
  look_up : String → Program V → Program V
  scoped : Program V → Program V → Program V

unfoldable pub found : {S A : Type 0} → Result A → S → S × Option Error
found (ok _) s = (s, none)
found (err e) s = (s, some e)

unfoldable pub close :
    {V : Type 0} → Namespace V → Option Error → Result (Namespace V) → Namespace V × Option Error
close old raised (ok n) = (n, raised)
close old raised (err e) = (old, some e)

unfoldable pub entries_of : {V : Type 0} → Namespace V → Entries V
entries_of (namespace entries scopes) = entries

-- The scope is left in every case.
unfoldable pub leave : {V : Type 0} → Namespace V × Option Error → Namespace V × Option Error
leave (n, raised) = close n raised (exit_scope n)

unfoldable pub run :
    {V : Type 0} → List (String × V) → Program V → Namespace V → Namespace V × Option Error
run vars done n = (n, none)
run vars (raise e) n = (n, some e)
run vars (declare attr obj p) n = and_then (set_item attr obj n) (run vars p)
run vars (look_up key p) n = and_then (found (get_item key (entries_of n)) n) (run vars p)
run vars (scoped body p) n =
    and_then (and_then (enter_scope vars n) (λ t. leave (run vars body t))) (run vars p)

-- The same with names alone: what is declared in a scope ends with it.
unfoldable pub expected : {V : Type 0} → Program V → Entries V → Entries V × Option Error
expected done m = (m, none)
expected (raise e) m = (m, some e)
expected (declare attr obj p) m =
    and_then (assigned (validate_assignment attr m) (write attr (some obj) m) m) (expected p)
expected (look_up key p) m = and_then (found (get_item key m) m) (expected p)
expected (scoped body p) m = and_then (m, (expected body m).1) (expected p)
