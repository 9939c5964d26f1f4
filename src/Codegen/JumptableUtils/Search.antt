-- ===== src/Codegen/JumptableUtils/Search.antt =====
-- vyper/codegen/jumptable_utils.py: the loop of generate_dense_jumptable_info ends.
use vysvm.Codegen.JumptableUtils.{
  Turn, returns, raises, goes_on, Solution, Bucket, no_magic, turn_with, turn,
  generate_dense_jumptable_info, start_bucket_size, proceed, find_table,
}
use vysvm.Common.Errors.{Result, ok, err, find_magic_failure, has_empty_buckets, assertion_error}
use vysvm.Common.Dict.{Dict}
use vysvm.Common.{
  List, ℕ, Bool, ◌<◌, Option, length, ◌+◌, ◌≢◌, Bool-cases, ◌/◌, suc, ◌-◌, if◌then◌else◌, ◌==◌, ◌≡◌,
  some, arith, none, true, inl, false, refl, inr, zero,
}

-- The rounds that are left at most.
rounds : List ℕ → ℕ → Bool → ℕ
rounds method_ids n_buckets true = n_buckets
rounds method_ids n_buckets false = n_buckets + suc (length method_ids)

-- A round that goes on leaves fewer.
Shortens : List ℕ → ℕ → Turn → Type 0
Shortens method_ids m (returns ret) = Unit
Shortens method_ids m (raises e) = Unit
Shortens method_ids m (goes_on n_buckets ret tried_exhaustive) =
    rounds method_ids n_buckets tried_exhaustive < m

rounds_lt :
    (method_ids : List ℕ) (n : ℕ) (tried : Bool)
    → n ≢ 0
    → rounds method_ids (n - 1) tried < rounds method_ids n tried
unfolding rounds
rounds_lt method_ids n true h = omega arith
rounds_lt method_ids n false h = omega arith

no_magic-Shortens :
    (method_ids : List ℕ) (n : ℕ) (ret : Option Solution) (tried : Bool)
    → n ≢ 0
    → Shortens method_ids (rounds method_ids n tried) (no_magic method_ids ret tried)
unfolding Shortens no_magic rounds
no_magic-Shortens method_ids n (some solution) tried h = tt
no_magic-Shortens method_ids n none false h = omega arith
no_magic-Shortens method_ids n none true h = tt

asserted-Shortens :
    (method_ids : List ℕ) (n : ℕ) (ret : Option Solution) (tried c : Bool)
    → n ≢ 0
    → Shortens method_ids
        (rounds method_ids n tried)
        (if c then goes_on (n - 1) ret tried else raises assertion_error)
unfolding Shortens
asserted-Shortens method_ids n ret tried true h = rounds_lt method_ids n tried h
asserted-Shortens method_ids n ret tried false h = tt

turn_with-Shortens :
    (method_ids : List ℕ) (n : ℕ) (ret : Option Solution) (tried : Bool)
    (info : Result (Dict ℕ Bucket))
    → n ≢ 0
    → Shortens method_ids (rounds method_ids n tried) (turn_with method_ids n ret tried info)
unfolding Shortens turn_with
turn_with-Shortens method_ids n ret tried (ok solution) h =
    asserted-Shortens method_ids n _ tried _ h
turn_with-Shortens method_ids n ret tried (err has_empty_buckets) h = rounds_lt method_ids n tried h
turn_with-Shortens method_ids n ret tried (err find_magic_failure) h =
    no_magic-Shortens method_ids n ret tried h
turn_with-Shortens method_ids n ret tried (err _) h = tt

turn-Shortens :
    (method_ids : List ℕ) (n : ℕ) (ret : Option Solution) (tried : Bool)
    → Shortens method_ids (rounds method_ids n tried) (turn method_ids n ret tried)
unfolding turn Shortens
turn-Shortens method_ids n ret tried = elim (Bool-cases (n == 0)) [
  | inl z ↦ rw z tt
  | inr z ↦ rw z (turn_with-Shortens method_ids n ret tried _ (ground arith))
]

module _ (method_ids : List ℕ)
    (again : ℕ → Option Solution → Bool → Option (Result (Option Solution))) (m fuel : ℕ) where
  proceed-returns :
      (t : Turn)
      → Shortens method_ids m t
      → m < suc fuel
      → ((n : ℕ) (ret : Option Solution) (tried : Bool)
          → rounds method_ids n tried < fuel
          → (r : Result (Option Solution)) × (again n ret tried ≡ some r))
      → (r : Result (Option Solution)) × (proceed again t ≡ some r)
  unfolding proceed Shortens
  proceed-returns (returns ret) h l f = (ok ret, refl)
  proceed-returns (raises e) h l f = (err e, refl)
  proceed-returns (goes_on n ret tried) h l f = f n ret tried (omega arith)

find_table-returns :
    (fuel : ℕ) (method_ids : List ℕ) (n : ℕ) (ret : Option Solution) (tried : Bool)
    → rounds method_ids n tried < fuel
    → (r : Result (Option Solution)) × (find_table fuel method_ids n ret tried ≡ some r)
unfolding find_table
find_table-returns zero method_ids n ret tried h = absurd (omega arith)
find_table-returns (suc fuel) method_ids n ret tried h =
    proceed-returns method_ids (find_table fuel method_ids) (rounds method_ids n tried) fuel
      (turn method_ids n ret tried) (turn-Shortens method_ids n ret tried) h
      (λ k s t. find_table-returns fuel method_ids k s t)

-- With more fuel than the number of method ids, a fifth of it and two together, the loop of
-- generate_dense_jumptable_info ends, with a result or an exception.
pub generate_dense_jumptable_info-ends :
    (method_ids : List ℕ) (fuel : ℕ)
    → length method_ids / 5 + length method_ids + 2 < fuel
    → (r : Result (Option Solution)) × (generate_dense_jumptable_info fuel method_ids ≡ some r)
unfolding generate_dense_jumptable_info start_bucket_size rounds
generate_dense_jumptable_info-ends method_ids fuel h =
    find_table-returns fuel method_ids _ none false (omega arith)
