-- ===== src/Codegen/JumptableUtils/Sparse.antt =====
-- vyper/codegen/jumptable_utils.py: generate_sparse_jumptable_buckets.
use vysvm.Common.{
  ℕ, List, [], ◌∷◌, ◌≡◌, Option, ◌≤◌, some, All, ◌<◌, ◌+◌, none, sym, arith, ◌-◌, true, suc,
  Bool-cases, zero, ltb, ◌==◌, ◌∙◌, ◌%◌, refl, ap, inl, ==_iff, inr,
}
use vysvm.Common.Dict.{Dict}
use vysvm.Common.Errors.{Result, ok, err, unbound_local_error, bind_succeeds}
use vysvm.Codegen.JumptableUtils.{
  max_bucket_size, find_smallest, stats_from, generate_sparse_jumptable_buckets, mk_buckets, elem,
  bucket_of,
}
use vysvm.Codegen.JumptableUtils.Buckets.{added}

abbrev pub Candidate : Type 0
Candidate = ℕ × Dict ℕ (List ℕ)

-- A candidate whose largest bucket is not smaller.
Exceeds : ℕ → Candidate → Type 0
Exceeds m (i, buckets) = (s : ℕ) × (max_bucket_size buckets ≡ ok s) × (m ≤ s)

HasSize : ℕ → Option Candidate → Type 0
HasSize m none = Unit
HasSize m (some (i, buckets)) = max_bucket_size buckets ≡ ok m

find_smallest-Exceeds :
    (stats : List Candidate) (m : ℕ) (ret : Option Candidate) (i : ℕ) (buckets : Dict ℕ (List ℕ))
    → find_smallest stats m ret ≡ ok (some (i, buckets))
    → HasSize m ret
    → (s : ℕ) × (max_bucket_size buckets ≡ ok s) × (s ≤ m) × All (Exceeds s) stats
unfolding find_smallest HasSize Exceeds
find_smallest-Exceeds [] m none i buckets h p = cc
find_smallest-Exceeds [] m (some (j, d)) i buckets h p =
    let e : d ≡ buckets = cc in (m, rw (sym e) p, omega arith, tt)
find_smallest-Exceeds ((j, d) ∷ stats) m ret i buckets h p =
    let (s, e, f) = bind_succeeds (max_bucket_size d) _ h in
    elim (Bool-cases (ltb s m)) [
      | inl c ↦
          let (t, g, l, others) =
            find_smallest-Exceeds stats s (some (j, d)) i buckets (rw c at f) e in
          (t, g, ground arith, ((s, e, l), others))
      | inr c ↦
          let (t, g, l, others) = find_smallest-Exceeds stats m ret i buckets (rw c at f) p in
          (t, g, l, ((s, e, ground arith), others))
    ]

-- A property of the candidates, and of the one so far, is one of the result.
Holds : (Candidate → Type 0) → Option Candidate → Type 0
Holds P none = Unit
Holds P (some c) = P c

find_smallest-Holds :
    (P : Candidate → Type 0) (stats : List Candidate) (m : ℕ) (ret : Option Candidate)
    (result : Option Candidate)
    → find_smallest stats m ret ≡ ok result
    → All P stats
    → Holds P ret
    → Holds P result
unfolding find_smallest Holds
find_smallest-Holds P [] m ret result h a p = let e : ret ≡ result = cc in rw (sym e) p
find_smallest-Holds P ((j, d) ∷ stats) m ret result h (b, a) p =
    let (s, e, f) = bind_succeeds (max_bucket_size d) _ h in
    elim (Bool-cases (ltb s m)) [
      | inl c ↦ find_smallest-Holds P stats s (some (j, d)) result (rw c at f) a b
      | inr c ↦ find_smallest-Holds P stats m ret result (rw c at f) a p
    ]

-- The candidates are the tables for the numbers in the range.
IsTable : List ℕ → ℕ → ℕ → Candidate → Type 0
IsTable ids lo hi (i, buckets) = (lo ≤ i) × (i < hi) × (buckets ≡ mk_buckets ids i)

stats_from-IsTable :
    (rounds i lo hi : ℕ) (ids : List ℕ)
    → lo ≤ i
    → i + rounds ≤ hi
    → All (IsTable ids lo hi) (stats_from rounds i ids)
unfolding stats_from IsTable
stats_from-IsTable zero i lo hi ids p q = tt
stats_from-IsTable (suc rounds) i lo hi ids p q = (
  (p, omega arith, refl),
  stats_from-IsTable rounds (suc i) lo hi ids (omega arith) (omega arith),
)

candidate :
    (Q : Candidate → Type 0) (rounds i k : ℕ) (ids : List ℕ)
    → All Q (stats_from rounds i ids)
    → i ≤ k
    → k < i + rounds
    → Q (k, mk_buckets ids k)
unfolding stats_from
candidate Q zero i k ids a p q = absurd (omega arith)
candidate Q (suc rounds) i k ids (b, a) p q = elim (Bool-cases (i == k)) [
  | inl e ↦ rw (sym ((==_iff i k).0 e)) b
  | inr e ↦ candidate Q rounds (suc i) k ids a (ground arith) (omega arith)
]

unwrap :
    (ret : Option Candidate) (c : Candidate)
    → ◌≡◌ {A = Result Candidate}
        (elim ret [ none ↦ err unbound_local_error | some solution ↦ ok solution ])
        (ok c)
    → ret ≡ some c
unwrap none c h = cc
unwrap (some d) c h = cc

module _ (lo hi : ℕ) (ids : List ℕ) (i : ℕ) (buckets : Dict ℕ (List ℕ))
    (h : generate_sparse_jumptable_buckets lo hi ids ≡ ok (i, buckets)) where
  smallest : find_smallest (stats_from (hi + 1 - lo) lo ids) (hi + 1) none ≡ ok (some (i, buckets))
  unfolding generate_sparse_jumptable_buckets
  smallest =
      let (ret, e, f) =
        bind_succeeds (find_smallest (stats_from (hi + 1 - lo) lo ids) (hi + 1) none) _ h in
      e ∙ ap ok (unwrap ret (i, buckets) f)

-- The table that generate_sparse_jumptable_buckets returns has a number of buckets in the range,
-- and each method id is in the bucket of its remainder.
pub generate_sparse_jumptable_buckets_complete :
    (lo hi : ℕ) (ids : List ℕ) (i : ℕ) (buckets : Dict ℕ (List ℕ)) (x : ℕ)
    → generate_sparse_jumptable_buckets lo hi ids ≡ ok (i, buckets)
    → lo ≤ hi
    → elem x ids ≡ true
    → (lo ≤ i) × (i ≤ hi) × (elem x (bucket_of (x % i) buckets) ≡ true)
unfolding Holds IsTable mk_buckets
generate_sparse_jumptable_buckets_complete lo hi ids i buckets x h l p =
    let (a, b, e) =
      find_smallest-Holds (IsTable ids lo (hi + 1)) _ (hi + 1) none (some (i, buckets))
        (smallest lo hi ids i buckets h)
        (stats_from-IsTable (hi + 1 - lo) lo lo (hi + 1) ids (omega arith) (omega arith)) tt in
    (a, omega arith, rw e (added i ids [] x p))

-- No number of buckets in the range gives a smaller largest bucket than the table that
-- generate_sparse_jumptable_buckets returns has.
pub generate_sparse_jumptable_buckets-least :
    (lo hi : ℕ) (ids : List ℕ) (i : ℕ) (buckets : Dict ℕ (List ℕ)) (k : ℕ)
    → generate_sparse_jumptable_buckets lo hi ids ≡ ok (i, buckets)
    → lo ≤ k
    → k ≤ hi
    → (s : ℕ) × (t : ℕ) × (max_bucket_size buckets ≡ ok s)
      × (max_bucket_size (mk_buckets ids k) ≡ ok t)
      × (s ≤ t)
unfolding Exceeds HasSize
generate_sparse_jumptable_buckets-least lo hi ids i buckets k h p q =
    let (s, e, l, others) =
      find_smallest-Exceeds _ (hi + 1) none i buckets (smallest lo hi ids i buckets h) tt in
    let (t, f, m) = candidate (Exceeds s) (hi + 1 - lo) lo k ids others p (omega arith) in
    (s, t, e, f, m)
