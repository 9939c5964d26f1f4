-- ===== src/Codegen/JumptableUtils.antt =====
-- vyper/codegen/jumptable_utils.py: the jump tables for function selectors. The method ids of
-- the signatures are hashes, and an argument here.
pub mod Buckets
pub mod Hash
pub mod Search
pub mod Perfect
pub mod Sparse
pub mod Examples
use vysvm.Common.{
  max, ltb, ℕ, List, Bool, Option, [], ◌∷◌, ◌++◌, map, length, zero, suc, ◌+◌, ◌*◌, ◌/◌, ◌%◌, ◌-◌,
  ◌^◌, some, none, true, false, if◌then◌else◌, ◌==◌, ◌||◌,
}
use vysvm.Common.Dict.{Dict, get, put}
use vysvm.Common.Errors.{
  value_error, unbound_local_error, Error, Result, ok, err, ◌>>=◌, ◌>>◌, unless, find_magic_failure,
  has_empty_buckets, runtime_error, assertion_error,
}
use vysvm.Common.Eq.{ℕ_Eq}

pub record Bucket : Type 0 where
  pub bucket_id : ℕ
  pub magic : ℕ
  pub method_ids : List ℕ

-- A single image under a multiplier, for a list of that length: BITS_MAGIC is 24.
pub image : ℕ → ℕ → ℕ → ℕ
image size magic x = ((x * magic) / 2 ^ 24) % size

-- `_image_of`
pub image_of : List ℕ → ℕ → List ℕ
image_of xs magic = map (image (length xs) magic) xs

pub elem : ℕ → List ℕ → Bool
elem x [] = false
elem x (y ∷ ys) = x == y || elem x ys

-- `len(set(xs))`
pub count_distinct : List ℕ → ℕ
count_distinct [] = 0
count_distinct (x ∷ xs) = if elem x xs then count_distinct xs else suc (count_distinct xs)

-- The loop of find_magic_for, with the rounds that are left and the next multiplier.
pub try_magic : ℕ → ℕ → List ℕ → Result ℕ
try_magic zero m xs = err find_magic_failure
try_magic (suc rounds) m xs = elim (count_distinct (image_of xs m) == length xs) [
  | true ↦ ok m
  | false ↦ try_magic rounds (suc m) xs
]

pub find_magic_for : List ℕ → Result ℕ
find_magic_for xs = try_magic (2 ^ 16) 0 xs

-- `buckets.setdefault(t, [])`, and the bucket itself.
pub bucket_of : ℕ → Dict ℕ (List ℕ) → List ℕ
bucket_of t buckets = elim (get t buckets) [ none ↦ [] | some xs ↦ xs ]

-- `_mk_buckets`, for a number of buckets that is not zero.
pub add_to_buckets : ℕ → List ℕ → Dict ℕ (List ℕ) → Dict ℕ (List ℕ)
add_to_buckets n_buckets [] buckets = buckets
add_to_buckets n_buckets (x ∷ xs) buckets =
    add_to_buckets n_buckets xs
      (put (x % n_buckets) (bucket_of (x % n_buckets) buckets ++ (x ∷ [])) buckets)

pub mk_buckets : List ℕ → ℕ → Dict ℕ (List ℕ)
mk_buckets method_ids n_buckets = add_to_buckets n_buckets method_ids []

pub find_all : Dict ℕ (List ℕ) → Dict ℕ Bucket → Result (Dict ℕ Bucket)
find_all [] ret = ok ret
find_all ((bucket_id, method_ids) ∷ buckets) ret = do
  magic ← find_magic_for method_ids
  find_all buckets
      (put bucket_id (record { bucket_id = bucket_id; magic = magic; method_ids = method_ids }) ret)

pub dense_jumptable_info : List ℕ → ℕ → Result (Dict ℕ Bucket)
dense_jumptable_info method_ids n_buckets =
    let buckets = mk_buckets method_ids n_buckets in
    unless has_empty_buckets (length buckets == n_buckets) >> find_all buckets []

abbrev pub Solution : Type 0
Solution = ℕ × Dict ℕ Bucket

-- How a round of the loop of generate_dense_jumptable_info ends. The loop's variables are
-- n_buckets, ret and tried_exhaustive.
pub data Turn : Type 0 where
  returns : Option Solution → Turn
  raises : Error → Turn
  goes_on : ℕ → Option Solution → Bool → Turn

-- The handler of `_FindMagicFailure`.
pub no_magic : List ℕ → Option Solution → Bool → Turn
no_magic method_ids (some solution) tried_exhaustive = returns (some solution)
no_magic method_ids none false = goes_on (length method_ids) none true
no_magic method_ids none true = raises runtime_error

pub turn_with : List ℕ → ℕ → Option Solution → Bool → Result (Dict ℕ Bucket) → Turn
turn_with method_ids n_buckets ret tried_exhaustive (ok solution) =
    if length solution == n_buckets
    then goes_on (n_buckets - 1) (some (n_buckets, solution)) tried_exhaustive
    else raises assertion_error
turn_with method_ids n_buckets ret tried_exhaustive (err has_empty_buckets) =
    goes_on (n_buckets - 1) ret tried_exhaustive
turn_with method_ids n_buckets ret tried_exhaustive (err find_magic_failure) =
    no_magic method_ids ret tried_exhaustive
turn_with method_ids n_buckets ret tried_exhaustive (err e) = raises e

pub turn : List ℕ → ℕ → Option Solution → Bool → Turn
turn method_ids n_buckets ret tried_exhaustive =
    if n_buckets == 0
    then returns ret
    else turn_with method_ids n_buckets ret tried_exhaustive
        (dense_jumptable_info method_ids n_buckets)

pub proceed :
    (ℕ → Option Solution → Bool → Option (Result (Option Solution)))
    → Turn
    → Option (Result (Option Solution))
proceed again (returns ret) = some (ok ret)
proceed again (raises e) = some (err e)
proceed again (goes_on n_buckets ret tried_exhaustive) = again n_buckets ret tried_exhaustive

-- The loop, with `none` where the fuel does not suffice.
pub find_table : ℕ → List ℕ → ℕ → Option Solution → Bool → Option (Result (Option Solution))
find_table zero method_ids n_buckets ret tried_exhaustive = none
find_table (suc fuel) method_ids n_buckets ret tried_exhaustive =
    proceed (find_table fuel method_ids) (turn method_ids n_buckets ret tried_exhaustive)

pub start_bucket_size : ℕ
start_bucket_size = 5

pub generate_dense_jumptable_info : ℕ → List ℕ → Option (Result (Option Solution))
generate_dense_jumptable_info fuel method_ids =
    find_table fuel method_ids (length method_ids / start_bucket_size + 1) none false

-- `max(len(bucket) for bucket in buckets.values())`, which raises on no buckets.
pub max_length : ℕ → Dict ℕ (List ℕ) → ℕ
max_length size [] = size
max_length size ((t, xs) ∷ buckets) = max_length (max size (length xs)) buckets

pub max_bucket_size : Dict ℕ (List ℕ) → Result ℕ
max_bucket_size [] = err value_error
max_bucket_size ((t, xs) ∷ buckets) = ok (max_length (length xs) buckets)

-- The loop that fills `stats`, from a number of buckets on, in its order: no number occurs twice.
pub stats_from : ℕ → ℕ → List ℕ → List (ℕ × Dict ℕ (List ℕ))
stats_from zero i method_ids = []
stats_from (suc rounds) i method_ids =
    (i, mk_buckets method_ids i) ∷ stats_from rounds (suc i) method_ids

-- The loop over `stats`, with min_max_bucket_size and ret.
pub find_smallest :
    List (ℕ × Dict ℕ (List ℕ))
    → ℕ
    → Option (ℕ × Dict ℕ (List ℕ))
    → Result (Option (ℕ × Dict ℕ (List ℕ)))
find_smallest [] min_size ret = ok ret
find_smallest ((i, buckets) ∷ stats) min_size ret = do
  size ← max_bucket_size buckets
  if ltb size min_size
      then find_smallest stats size (some (i, buckets))
      else find_smallest stats min_size ret

-- The bounds `lo` and `hi` are products with floating-point numbers, and arguments here.
pub generate_sparse_jumptable_buckets : ℕ → ℕ → List ℕ → Result (ℕ × Dict ℕ (List ℕ))
generate_sparse_jumptable_buckets lo hi method_ids = do
  ret ← find_smallest (stats_from (hi + 1 - lo) lo method_ids) (hi + 1) none
  elim ret [ none ↦ err unbound_local_error | some solution ↦ ok solution ]
