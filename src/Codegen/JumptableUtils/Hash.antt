-- ===== src/Codegen/JumptableUtils/Hash.antt =====
-- vyper/codegen/jumptable_utils.py: a multiplier that find_magic_for accepts separates the ids.
use vysvm.Common.{
  ℕ, List, [], ◌∷◌, ◌≡◌, length, map, ◌≤◌, true, false, ap, arith, Bool-cases, suc, ◌==◌, zero,
  refl, inl, ==_iff, inr, ◌∙◌, sym, ◌^◌,
}
use vysvm.Codegen.JumptableUtils.{count_distinct, elem, try_magic, image_of, find_magic_for, image}
use vysvm.Common.Errors.{ok}

length-map : (f : ℕ → ℕ) (xs : List ℕ) → length (map f xs) ≡ length xs
length-map f [] = refl
length-map f (x ∷ xs) = ap suc (length-map f xs)

count_le : (xs : List ℕ) → count_distinct xs ≤ length xs
unfolding count_distinct
count_le [] = omega arith
count_le (x ∷ xs) = let h = count_le xs in ground arith

elem-map : (f : ℕ → ℕ) (x : ℕ) (xs : List ℕ) → elem x xs ≡ true → elem (f x) (map f xs) ≡ true
unfolding elem
elem-map f x [] h = cc
elem-map f x (y ∷ ys) h = elim (Bool-cases (x == y)) [
  | inl e ↦ rw ((==_iff x y).0 e) (ground arith)
  | inr e ↦ let k = elem-map f x ys (rw e at h) in rw k (ground arith)
]

-- All different: no element occurs again.
all_distinct :
    (x : ℕ) (xs : List ℕ)
    → count_distinct (x ∷ xs) ≡ length (x ∷ xs)
    → (elem x xs ≡ false) × (count_distinct xs ≡ length xs)
unfolding count_distinct
all_distinct x xs h = let l = count_le xs in ground arith

twice :
    (f : ℕ → ℕ) (z : ℕ) (zs : List ℕ)
    → elem (f z) (map f zs) ≡ false
    → (x y : ℕ) → x ≡ z
    → elem y zs ≡ true
    → f x ≡ f y
    → ⊥
twice f z zs d x y a b e = let k = elem-map f y zs b in cc

pub separates :
    (f : ℕ → ℕ) (xs : List ℕ)
    → count_distinct (map f xs) ≡ length xs
    → (x y : ℕ) → elem x xs ≡ true
    → elem y xs ≡ true
    → f x ≡ f y
    → x ≡ y
unfolding elem
separates f [] h x y p q e = absurd (cc p)
separates f (z ∷ zs) h x y p q e =
    let (d, k) = all_distinct (f z) (map f zs) (h ∙ ap suc (sym (length-map f zs))) in
    elim (Bool-cases (x == z)) [
      | inl a ↦ elim (Bool-cases (y == z)) [
        | inl b ↦ (==_iff x z).0 a ∙ sym ((==_iff y z).0 b)
        | inr b ↦ absurd (twice f z zs d x y ((==_iff x z).0 a) (rw b at q) e)
      ]
      | inr a ↦ elim (Bool-cases (y == z)) [
        | inl b ↦ absurd (twice f z zs d y x ((==_iff y z).0 b) (rw a at p) (sym e))
        | inr b ↦ separates f zs (k ∙ length-map f zs) x y (rw a at p) (rw b at q) e
      ]
    ]

try_magic-accepts :
    (rounds m : ℕ) (xs : List ℕ) (r : ℕ)
    → try_magic rounds m xs ≡ ok r
    → count_distinct (image_of xs r) ≡ length xs
unfolding try_magic
try_magic-accepts zero m xs r h = cc
try_magic-accepts (suc rounds) m xs r h =
    elim (Bool-cases (count_distinct (image_of xs m) == length xs)) [
      | inl c ↦
          let e : m ≡ r = cc (rw (c, try_magic) at h) in
          rw (sym e) ((==_iff (count_distinct (image_of xs m)) (length xs)).0 c)
      | inr c ↦ try_magic-accepts rounds (suc m) xs r (rw (c, try_magic) at h)
    ]

-- With the multiplier that find_magic_for returns, two of the ids have the same image only if they
-- are equal.
pub find_magic_for-separates :
    (xs : List ℕ) (r x y : ℕ)
    → find_magic_for xs ≡ ok r
    → elem x xs ≡ true
    → elem y xs ≡ true
    → image (length xs) r x ≡ image (length xs) r y
    → x ≡ y
unfolding find_magic_for image_of
find_magic_for-separates xs r x y h p q e =
    separates (image (length xs) r) xs (try_magic-accepts (2 ^ 16) 0 xs r h) x y p q e
