-- ===== src/Ast/Metadata/Examples.antt =====
-- Runs of vyper/ast/metadata.py, and the theorem at a concrete input.
use vysvm.Common.{ℕ, ◌≡◌, refl, none, some, []}
use vysvm.Ast.Metadata.{
  Program, done, raise, assign, speculate, attempt, journal, Values, run, expected, kept_or_dropped,
  kept_or_restored, write,
}
use vysvm.Ast.Metadata.Restore.{run-expected}

-- A nested speculation is committed, and the outer one raises and is caught.
abbrev nested : Program ℕ
nested =
    assign (1, "type") 7
      (attempt (speculate (assign (1, "type") 8 (assign (2, "type") 9 done)) raise) done)

abbrev nothing : Values ℕ
nothing k = none

run-expected_example :
    run nested (journal nothing [])
    ≡ (journal (expected nested nothing).0 [], (expected nested nothing).1)
run-expected_example = run-expected nested nothing

-- The value from before the speculation is back, and the new key is gone.
restored : (expected nested nothing).0 (1, "type") ≡ some 7
unfolding expected kept_or_dropped kept_or_restored write
restored = refl

dropped : (expected nested nothing).0 (2, "type") ≡ none
unfolding expected kept_or_dropped kept_or_restored write
dropped = refl
