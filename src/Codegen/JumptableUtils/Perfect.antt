-- ===== src/Codegen/JumptableUtils/Perfect.antt =====
-- vyper/codegen/jumptable_utils.py: the table is a perfect hash of the method ids.
use vysvm.Common.{
  ℕ, List, ◌≡◌, Option, ◌%◌, some, none, Bool, length, true, if◌then◌else◌, Bool-cases, sym, false,
  suc, ◌==◌, zero, ◌∙◌, refl, inl, ap, inr, ◌≢◌,
}
use vysvm.Codegen.JumptableUtils.{
  Bucket, Turn, returns, raises, goes_on, dense_jumptable_info, no_magic, turn_with, turn, proceed,
  find_table, generate_dense_jumptable_info, Solution, image, elem,
}
use vysvm.Common.Dict.{Dict, get}
use vysvm.Common.Errors.{Result, ok, err, find_magic_failure, has_empty_buckets, assertion_error}
use vysvm.Codegen.JumptableUtils.Buckets.{dense_jumptable_info-bucket}
use vysvm.Common.Eq.{ℕ_Eq}
use vysvm.Codegen.JumptableUtils.Hash.{find_magic_for-separates}

-- The place of an id in a table of `n_buckets`: its bucket, and its image there.
pub slot_of : ℕ → Dict ℕ Bucket → ℕ → Option (ℕ × ℕ)
slot_of n_buckets table x = elim (get (x % n_buckets) table) [
  | none ↦ none
  | some b ↦ some (x % n_buckets, image (length b.method_ids) b.magic x)
]

slot_at :
    (n : ℕ) (table : Dict ℕ Bucket) (x : ℕ) (b : Bucket)
    → get (x % n) table ≡ some b
    → slot_of n table x ≡ some (x % n, image (length b.method_ids) b.magic x)
unfolding slot_of
slot_at n table x b e = rw (e, slot_of) refl

both : (a b c d : ℕ) → ◌≡◌ {A = Option (ℕ × ℕ)} (some (a, b)) (some (c, d)) → (a ≡ c) × (b ≡ d)
both a b c d h = (cc, cc)

module _ (ids : List ℕ) (n : ℕ) (table : Dict ℕ Bucket)
    (h : dense_jumptable_info ids n ≡ ok table) where
  dense_jumptable_info-perfect :
      (x y : ℕ)
      → elem x ids ≡ true
      → elem y ids ≡ true
      → slot_of n table x ≡ slot_of n table y
      → x ≡ y
  dense_jumptable_info-perfect x y p q e =
      let (xs, i, (m, f, g)) = dense_jumptable_info-bucket ids n table x h p in
      let (ys, j, (k, l, o)) = dense_jumptable_info-bucket ids n table y h q in
      let (c, d) =
        both (x % n) (image (length xs) m x) (y % n) (image (length ys) k y)
          (sym (slot_at n table x _ g) ∙ e ∙ slot_at n table y _ o) in
      let s : ◌≡◌ {A = Option Bucket}
          (some (record { bucket_id = x % n; magic = m; method_ids = xs }))
          (some (record { bucket_id = y % n; magic = k; method_ids = ys })) =
        sym g ∙ ap (λ t. get t table) c ∙ o in
      let (a, b) : (m ≡ k) × (xs ≡ ys) = (cc, cc) in
      find_magic_for-separates xs m x y f i (rw b j) (d ∙ rw (a, b) refl)

-- The loop keeps only tables that dense_jumptable_info returned.
IsSolved : List ℕ → Option Solution → Type 0
IsSolved ids none = Unit
IsSolved ids (some (n, table)) = dense_jumptable_info ids n ≡ ok table

TurnIsSolved : List ℕ → Turn → Type 0
TurnIsSolved ids (returns ret) = IsSolved ids ret
TurnIsSolved ids (raises e) = Unit
TurnIsSolved ids (goes_on n ret tried) = IsSolved ids ret

no_magic-TurnIsSolved :
    (ids : List ℕ) (ret : Option Solution) (tried : Bool)
    → IsSolved ids ret
    → TurnIsSolved ids (no_magic ids ret tried)
unfolding TurnIsSolved IsSolved no_magic
no_magic-TurnIsSolved ids (some solution) tried h = h
no_magic-TurnIsSolved ids none false h = tt
no_magic-TurnIsSolved ids none true h = tt

asserted-TurnIsSolved :
    (ids : List ℕ) (n : ℕ) (ret : Option Solution) (tried c : Bool)
    → IsSolved ids ret
    → TurnIsSolved ids (if c then goes_on n ret tried else raises assertion_error)
unfolding TurnIsSolved
asserted-TurnIsSolved ids n ret tried true h = h
asserted-TurnIsSolved ids n ret tried false h = tt

turn_with-TurnIsSolved :
    (ids : List ℕ) (n : ℕ) (ret : Option Solution) (tried : Bool) (info : Result (Dict ℕ Bucket))
    → dense_jumptable_info ids n ≡ info
    → IsSolved ids ret
    → TurnIsSolved ids (turn_with ids n ret tried info)
unfolding turn_with TurnIsSolved IsSolved
turn_with-TurnIsSolved ids n ret tried (ok table) e h = asserted-TurnIsSolved ids _ _ tried _ e
turn_with-TurnIsSolved ids n ret tried (err has_empty_buckets) e h = h
turn_with-TurnIsSolved ids n ret tried (err find_magic_failure) e h =
    no_magic-TurnIsSolved ids ret tried h
turn_with-TurnIsSolved ids n ret tried (err _) e h = tt

turn-TurnIsSolved :
    (ids : List ℕ) (n : ℕ) (ret : Option Solution) (tried : Bool)
    → IsSolved ids ret
    → TurnIsSolved ids (turn ids n ret tried)
unfolding turn TurnIsSolved
turn-TurnIsSolved ids n ret tried h = elim (Bool-cases (n == 0)) [
  | inl z ↦ rw z h
  | inr z ↦ rw z (turn_with-TurnIsSolved ids n ret tried _ refl h)
]

proceed-IsSolved :
    (ids : List ℕ) (again : ℕ → Option Solution → Bool → Option (Result (Option Solution)))
    (result : Option Solution)
    → ((n : ℕ) (ret : Option Solution) (tried : Bool)
        → IsSolved ids ret
        → again n ret tried ≡ some (ok result)
        → IsSolved ids result)
    → (t : Turn) → TurnIsSolved ids t
    → proceed again t ≡ some (ok result)
    → IsSolved ids result
unfolding proceed TurnIsSolved
proceed-IsSolved ids again result f (returns ret) h e = let d : ret ≡ result = cc in rw (sym d) h
proceed-IsSolved ids again result f (raises x) h e = cc
proceed-IsSolved ids again result f (goes_on n ret tried) h e = f n ret tried h e

find_table-IsSolved :
    (fuel : ℕ) (ids : List ℕ) (n : ℕ) (ret : Option Solution) (tried : Bool)
    (result : Option Solution)
    → IsSolved ids ret
    → find_table fuel ids n ret tried ≡ some (ok result)
    → IsSolved ids result
unfolding find_table
find_table-IsSolved zero ids n ret tried result h e = cc
find_table-IsSolved (suc fuel) ids n ret tried result h e =
    proceed-IsSolved ids (find_table fuel ids) result
      (λ k s t. find_table-IsSolved fuel ids k s t result) (turn ids n ret tried)
      (turn-TurnIsSolved ids n ret tried h) e

-- In a table that generate_dense_jumptable_info returns, no two different method ids have the same
-- bucket and the same image in it.
pub generate_dense_jumptable_info-perfect :
    (fuel : ℕ) (ids : List ℕ) (n x y : ℕ) (table : Dict ℕ Bucket)
    → generate_dense_jumptable_info fuel ids ≡ some (ok (some (n, table)))
    → elem x ids ≡ true
    → elem y ids ≡ true
    → x ≢ y
    → slot_of n table x ≢ slot_of n table y
unfolding generate_dense_jumptable_info IsSolved
generate_dense_jumptable_info-perfect fuel ids n x y table h p q d = λ e. d (
    dense_jumptable_info-perfect ids n table
      (find_table-IsSolved fuel ids _ none false (some (n, table)) tt h) x y p q e)

-- In a table that generate_dense_jumptable_info returns, each method id is in the bucket of its
-- remainder.
pub generate_dense_jumptable_info_complete :
    (fuel : ℕ) (ids : List ℕ) (n x : ℕ) (table : Dict ℕ Bucket)
    → generate_dense_jumptable_info fuel ids ≡ some (ok (some (n, table)))
    → elem x ids ≡ true
    → (b : Bucket) × (get (x % n) table ≡ some b) × (elem x b.method_ids ≡ true)
unfolding generate_dense_jumptable_info IsSolved
generate_dense_jumptable_info_complete fuel ids n x table h p =
    let (xs, i, (m, f, g)) =
      dense_jumptable_info-bucket ids n table x
        (find_table-IsSolved fuel ids _ none false (some (n, table)) tt h) p in
    (_, g, i)
