-- ===== src/Utils/OrderedSet.antt =====
-- vyper/utils.py: `OrderedSet`. The keys of its dictionary are a list, in the order of insertion.
use vysvm.Common.{
  Bool, ◌≡◌, ◌||◌, ◌&&◌, List, false, not, true, if◌then◌else◌, ◌∷◌, length, ◌++◌, Bool-cases, [],
  ◌==◌, ◌∙◌, refl, inl, ap, sym, inr,
}
use vysvm.Common.Eq.{Equality, eqb_ne}
use vysvm.Common.Errors.{Result, ok, err, key_error}

or_false : (a : Bool) → a ≡ (a || false)
or_false true = refl
or_false false = refl

or_assoc : (a b c : Bool) → ((a || b) || c) ≡ (a || (b || c))
or_assoc true b c = refl
or_assoc false b c = refl

and_true : (a : Bool) → a ≡ (a && not false)
and_true true = refl
and_true false = refl

and_not_or : (a b c : Bool) → ((a && not b) && not c) ≡ (a && not (b || c))
and_not_or true true c = refl
and_not_or true false c = refl
and_not_or false b c = refl

taken : (a b : Bool) → (b && not a) ≡ ((a || b) && not a)
taken true true = refl
taken true false = refl
taken false true = refl
taken false false = refl

kept_or : (a b c : Bool) → (a ≡ true → c ≡ false) → (a || (b && not c)) ≡ ((a || b) && not c)
kept_or true b true h = let e = h refl in cc
kept_or true b false h = refl
kept_or false b c h = refl

module _ {ℓ} {A : Type ℓ} ⦃e : Equality A⦄ where
  unfoldable pub contains_item : A → List A → Bool
  contains_item x [] = false
  contains_item x (y ∷ set) = e.eqb x y || contains_item x set

  -- A key that is there keeps its place.
  unfoldable pub add_item : A → List A → List A
  unfolding contains_item
  add_item x set = if contains_item x set then set else set ++ (x ∷ [])

  -- `update`, and `addmany`
  unfoldable pub add_many : List A → List A → List A
  unfolding add_item
  add_many [] set = set
  add_many (x ∷ items) set = add_many items (add_item x set)

  unfoldable pub discard_item : A → List A → List A
  discard_item x [] = []
  discard_item x (y ∷ set) = let rest = discard_item x set in if e.eqb x y then rest else y ∷ rest

  unfoldable pub remove_item : A → List A → Result (List A)
  unfolding contains_item discard_item
  remove_item x set = if contains_item x set then ok (discard_item x set) else err key_error

  unfoldable pub drop_many : List A → List A → List A
  unfolding discard_item
  drop_many [] set = set
  drop_many (x ∷ items) set = drop_many items (discard_item x set)

  unfoldable pub difference_of : List A → List A → List A
  unfolding drop_many
  difference_of set other = drop_many other set

  unfoldable pub includes_all : List A → List A → Bool
  unfolding contains_item
  includes_all [] other = true
  includes_all (x ∷ set) other = contains_item x other && includes_all set other

  -- `==` of dictionaries, in whatever order.
  unfoldable pub same_items : List A → List A → Bool
  unfolding includes_all
  same_items set other = (length set == length other) && includes_all set other

  contains_item-append :
      (x : A) (set other : List A)
      → contains_item x (set ++ other) ≡ (contains_item x set || contains_item x other)
  unfolding contains_item
  contains_item-append x [] other = refl
  contains_item-append x (y ∷ set) other = elim (Bool-cases (e.eqb x y)) [
    | inl p ↦ rw p refl
    | inr p ↦ rw p (contains_item-append x set other)
  ]

  one_item : (x y : A) (b : Bool) → (b || contains_item x (y ∷ [])) ≡ (b || e.eqb x y)
  unfolding contains_item
  one_item x y b = ap (λ c. b || c) (sym (or_false (e.eqb x y)))

  present :
      (x y : A) (set : List A)
      → contains_item y set ≡ true
      → contains_item x set ≡ (contains_item x set || e.eqb x y)
  present x y set h = elim (Bool-cases (e.eqb x y)) [
    | inl p ↦
        let d : x ≡ y = (e.eqb_iff x y).0 p in
        let k : contains_item x set ≡ true = rw d h in rw k refl
    | inr p ↦ rw p (or_false (contains_item x set))
  ]

  apart : (x y z : A) → e.eqb y z ≡ false → e.eqb x z ≡ true → e.eqb x y ≡ false
  apart x y z h p =
      let d : x ≡ z = (e.eqb_iff x z).0 p in
      eqb_ne x y (λ q. let r : e.eqb y z ≡ true = (e.eqb_iff y z).1 (sym q ∙ d) in absurd cc)

  left_over :
      (x y z : A) (set : List A)
      → e.eqb y z ≡ false
      → contains_item x (discard_item y set) ≡ (contains_item x set && not (e.eqb x y))
      → (e.eqb x z || contains_item x (discard_item y set))
        ≡ ((e.eqb x z || contains_item x set) && not (e.eqb x y))
  left_over x y z set h k =
      rw k (kept_or (e.eqb x z) (contains_item x set) (e.eqb x y) (λ p. apart x y z h p))

  -- Adding an item adds it and no other.
  pub contains_item-add_item :
      (x y : A) (set : List A)
      → contains_item x (add_item y set) ≡ (contains_item x set || e.eqb x y)
  unfolding add_item
  contains_item-add_item x y set = elim (Bool-cases (contains_item y set)) [
    | inl p ↦ rw (add_item, p) (present x y set p)
    | inr p ↦
        rw (add_item, p) (contains_item-append x set (y ∷ []) ∙ one_item x y (contains_item x set))
  ]

  pub contains_item-add_many :
      (x : A) (items set : List A)
      → contains_item x (add_many items set) ≡ (contains_item x set || contains_item x items)
  unfolding add_many contains_item
  contains_item-add_many x [] set = or_false (contains_item x set)
  contains_item-add_many x (y ∷ items) set =
      contains_item-add_many x items (add_item y set)
      ∙ ap (λ b. b || contains_item x items) (contains_item-add_item x y set)
      ∙ or_assoc (contains_item x set) (e.eqb x y) (contains_item x items)

  pub contains_item-discard_item :
      (x y : A) (set : List A)
      → contains_item x (discard_item y set) ≡ (contains_item x set && not (e.eqb x y))
  unfolding discard_item contains_item
  contains_item-discard_item x y [] = refl
  contains_item-discard_item x y (z ∷ set) = elim (Bool-cases (e.eqb y z)) [
    | inl p ↦
        let d : y ≡ z = (e.eqb_iff y z).0 p in
        rw p (
          contains_item-discard_item x y set
          ∙ ap (λ k. contains_item x set && not (e.eqb x k)) d
          ∙ taken (e.eqb x z) (contains_item x set)
          ∙ ap (λ k. (e.eqb x z || contains_item x set) && not (e.eqb x k)) (sym d))
    | inr p ↦ rw p (left_over x y z set p (contains_item-discard_item x y set))
  ]

  pub contains_item-drop_many :
      (x : A) (items set : List A)
      → contains_item x (drop_many items set) ≡ (contains_item x set && not (contains_item x items))
  unfolding drop_many contains_item
  contains_item-drop_many x [] set = and_true (contains_item x set)
  contains_item-drop_many x (y ∷ items) set =
      contains_item-drop_many x items (discard_item y set)
      ∙ ap (λ b. b && not (contains_item x items)) (contains_item-discard_item x y set)
      ∙ and_not_or (contains_item x set) (e.eqb x y) (contains_item x items)
