-- ===== src/Semantics/Namespace/Examples.antt =====
-- Runs of vyper/semantics/namespace.py, and the theorem at a concrete input.
use vysvm.Common.{ℕ, [], ◌∷◌, ◌≡◌, none, some, refl}
use vysvm.Semantics.Namespace.{
  Program, done, declare, scoped, namespace, Entries, run, expected, write,
}
use vysvm.Semantics.Namespace.Scopes.{run-enter_scope}
use vysvm.Ast.Identifiers.{
  validate_identifier, matches, matches_rest, is_letter, is_letter_or_digit, one_of_keywords,
  reserved_keywords, python_reserved_keywords,
}
use vysvm.Common.Text.{lower}
use vysvm.Common.Errors.{ok}

-- In an inner scope two names are declared, one of them again in a scope of its own.
abbrev body : Program ℕ
body = declare "x" 1 (scoped (declare "x" 2 done) (declare "y" 3 done))

abbrev outside : Entries ℕ
outside = write "foo" (some 5) (λ k. none)

run-enter_scope_example :
    run [] (scoped body done) (namespace outside (("foo" ∷ []) ∷ []))
    ≡ (namespace outside (("foo" ∷ []) ∷ []), (expected body outside).1)
run-enter_scope_example = run-enter_scope [] body outside ("foo" ∷ []) []

-- A comma is missing after the text "flag" in the source's set.
flag_is_accepted : validate_identifier "flag" ≡ ok tt
unfolding validate_identifier matches matches_rest is_letter is_letter_or_digit one_of_keywords
    reserved_keywords python_reserved_keywords lower
flag_is_accepted = refl
