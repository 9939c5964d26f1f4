-- ===== src/Codegen/JumptableUtils/Buckets.antt =====
-- vyper/codegen/jumptable_utils.py: every method id is in the bucket of its remainder.
use vysvm.Common.{
  ℕ, List, [], ◌∷◌, ◌≡◌, true, ◌++◌, ◌≢◌, false, Bool-cases, arith, some, ◌%◌, refl, ◌==◌, inl,
  ==_iff, inr, sym, Option, none, ◌∙◌, length,
}
use vysvm.Codegen.JumptableUtils.{
  Bucket, elem, bucket_of, add_to_buckets, find_all, find_magic_for, dense_jumptable_info,
  mk_buckets,
}
use vysvm.Common.Dict.{Dict, get, put, contains, get-put_self, get-put_ne}
use vysvm.Common.Errors.{ok, bind_succeeds, unless, has_empty_buckets}
use vysvm.Common.Eq.{ℕ_Eq}

elem-append_left : (x : ℕ) (xs ys : List ℕ) → elem x xs ≡ true → elem x (xs ++ ys) ≡ true
unfolding elem
elem-append_left x [] ys h = cc
elem-append_left x (y ∷ xs) ys h = elim (Bool-cases (x == y)) [
  | inl e ↦ rw e refl
  | inr e ↦ rw e (elem-append_left x xs ys (rw e at h))
]

elem-append_last : (x : ℕ) (xs : List ℕ) → elem x (xs ++ (x ∷ [])) ≡ true
unfolding elem
elem-append_last x [] = ground arith
elem-append_last x (y ∷ xs) = elim (Bool-cases (x == y)) [
  | inl e ↦ rw e refl
  | inr e ↦ rw e (elem-append_last x xs)
]

-- A bucket with an id in it is an entry.
from_entry :
    (x : ℕ) (entry : Option (List ℕ))
    → elem x (elim entry [ none ↦ [] | some xs ↦ xs ]) ≡ true
    → (xs : List ℕ) × (entry ≡ some xs) × (elem x xs ≡ true)
unfolding elem
from_entry x none h = cc
from_entry x (some xs) h = (xs, refl, h)

get-bucket_of :
    (x t : ℕ) (d : Dict ℕ (List ℕ))
    → elem x (bucket_of t d) ≡ true
    → (xs : List ℕ) × (get t d ≡ some xs) × (elem x xs ≡ true)
unfolding bucket_of
get-bucket_of x t d h = from_entry x (get t d) h

bucket_of-put_self : (t : ℕ) (xs : List ℕ) (d : Dict ℕ (List ℕ)) → bucket_of t (put t xs d) ≡ xs
unfolding bucket_of
bucket_of-put_self t xs d = rw (get-put_self t xs d, bucket_of) refl

bucket_of-put_ne :
    (t s : ℕ) (xs : List ℕ) (d : Dict ℕ (List ℕ)) → t ≢ s → bucket_of s (put t xs d) ≡ bucket_of s d
unfolding bucket_of
bucket_of-put_ne t s xs d h = rw (get-put_ne t s xs d h, bucket_of) refl

-- Adding ids keeps what the buckets have.
stays :
    (n : ℕ) (ids : List ℕ) (d : Dict ℕ (List ℕ)) (t x : ℕ)
    → elem x (bucket_of t d) ≡ true
    → elem x (bucket_of t (add_to_buckets n ids d)) ≡ true
unfolding add_to_buckets
stays n [] d t x h = h
stays n (y ∷ ids) d t x h = stays n ids _ t x (elim (Bool-cases (y % n == t)) [
  | inl e ↦
      let k = (==_iff (y % n) t).0 e in
      rw (k, bucket_of-put_self t (bucket_of t d ++ (y ∷ [])) d)
        (elem-append_left x (bucket_of t d) (y ∷ []) h)
  | inr e ↦ rw (bucket_of-put_ne (y % n) t (bucket_of (y % n) d ++ (y ∷ [])) d (ground arith)) h
])

pub added :
    (n : ℕ) (ids : List ℕ) (d : Dict ℕ (List ℕ)) (x : ℕ)
    → elem x ids ≡ true
    → elem x (bucket_of (x % n) (add_to_buckets n ids d)) ≡ true
unfolding add_to_buckets elem
added n [] d x h = cc
added n (y ∷ ids) d x h = elim (Bool-cases (x == y)) [
  | inl e ↦
      let k = (==_iff x y).0 e in
      stays n ids _ (x % n) x (
        rw (sym k, bucket_of-put_self (x % n) (bucket_of (x % n) d ++ (x ∷ [])) d)
          (elem-append_last x (bucket_of (x % n) d)))
  | inr e ↦ added n ids _ x (rw e at h)
]

-- No key stands twice.
UniqueKeys : {V : Type 0} → Dict ℕ V → Type 0
UniqueKeys [] = Unit
UniqueKeys ((k, v) ∷ d) = (contains k d ≡ false) × UniqueKeys d

contains-put :
    {V : Type 0} (k j : ℕ) (v : V) (d : Dict ℕ V)
    → k ≢ j
    → contains j d ≡ false
    → contains j (put k v d) ≡ false
unfolding contains put
contains-put k j v [] n h = ground arith
contains-put k j v ((i, w) ∷ d) n h =
    let rest : contains j d ≡ false → contains j (put k v d) ≡ false = contains-put k j v d n in
    elim (Bool-cases (i == k)) [ inl e ↦ rw e h | inr e ↦ rw e (ground arith) ]

put-UniqueKeys : {V : Type 0} (k : ℕ) (v : V) (d : Dict ℕ V) → UniqueKeys d → UniqueKeys (put k v d)
unfolding UniqueKeys put contains
put-UniqueKeys k v [] u = (refl, tt)
put-UniqueKeys k v ((j, w) ∷ d) (a, u) = elim (Bool-cases (j == k)) [
  | inl e ↦ rw e (a, u)
  | inr e ↦ rw e (contains-put k j v d (ground arith) a, put-UniqueKeys k v d u)
]

add_to_buckets-UniqueKeys :
    (n : ℕ) (ids : List ℕ) (d : Dict ℕ (List ℕ))
    → UniqueKeys d
    → UniqueKeys (add_to_buckets n ids d)
unfolding add_to_buckets
add_to_buckets-UniqueKeys n [] d u = u
add_to_buckets-UniqueKeys n (x ∷ ids) d u =
    add_to_buckets-UniqueKeys n ids _ (put-UniqueKeys (x % n) _ d u)

-- What find_all makes of the entries.
kept :
    (buckets : Dict ℕ (List ℕ)) (ret out : Dict ℕ Bucket) (t : ℕ)
    → find_all buckets ret ≡ ok out
    → contains t buckets ≡ false
    → get t out ≡ get t ret
unfolding find_all contains
kept [] ret out t h a = cc
kept ((k, xs) ∷ buckets) ret out t h a =
    let (m, e, f) = bind_succeeds (find_magic_for xs) _ h in
    let n : k ≢ t = ground arith in
    let b : contains t buckets ≡ false = ground arith in
    kept buckets _ out t f b ∙ get-put_ne k t _ ret n

-- Where an entry leads.
abbrev pub MagicAt : ℕ → List ℕ → Dict ℕ Bucket → Type 0
MagicAt t xs out =
    (m : ℕ) × (find_magic_for xs ≡ ok m)
    × (get t out ≡ some (record { bucket_id = t; magic = m; method_ids = xs }))

found :
    (buckets : Dict ℕ (List ℕ)) (ret out : Dict ℕ Bucket) (t : ℕ) (xs : List ℕ)
    → find_all buckets ret ≡ ok out
    → UniqueKeys buckets
    → get t buckets ≡ some xs
    → MagicAt t xs out
unfolding find_all UniqueKeys get
found [] ret out t xs h u g = cc
found ((k, ys) ∷ buckets) ret out t xs h (a, u) g =
    let (m, e, f) = bind_succeeds (find_magic_for ys) _ h in
    elim (Bool-cases (k == t)) [
      | inl c ↦
          let d = (==_iff k t).0 c in
          let i : ys ≡ xs = cc (rw c at g) in
          let b : contains t buckets ≡ false = rw (sym d) a in
          (m, rw (sym i) e, kept buckets _ out t f b ∙ rw (d, i) (get-put_self t _ ret))
      | inr c ↦ found buckets _ out t xs f u (rw c at g)
    ]

-- In a table that dense_jumptable_info returns, each id is in the bucket of its remainder, and the
-- bucket's multiplier is one that find_magic_for returns for the ids in it.
pub dense_jumptable_info-bucket :
    (ids : List ℕ) (n : ℕ) (out : Dict ℕ Bucket) (x : ℕ)
    → dense_jumptable_info ids n ≡ ok out
    → elem x ids ≡ true
    → (xs : List ℕ) × (elem x xs ≡ true) × MagicAt (x % n) xs out
unfolding dense_jumptable_info mk_buckets UniqueKeys
dense_jumptable_info-bucket ids n out x h p =
    let (v, e, f) =
      bind_succeeds (unless has_empty_buckets (length (add_to_buckets n ids []) == n)) _ h in
    let (xs, g, i) = get-bucket_of x (x % n) (add_to_buckets n ids []) (added n ids [] x p) in
    (
      xs,
      i,
      found (add_to_buckets n ids []) [] out (x % n) xs f (add_to_buckets-UniqueKeys n ids [] tt) g,
    )
