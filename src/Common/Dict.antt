-- ===== src/Common/Dict.antt =====
-- Python's `dict` in insertion order: an assignment to a key that is there keeps its place.
use vysvm.Common.{
  ◌≡◌, ◌≢◌, refl, sym, ◌∙◌, Bool, true, false, Option, none, some, List, [], ◌∷◌, if◌then◌else◌,
  Bool-cases, inl, inr,
}
use vysvm.Common.Eq.{Equality, eqb_refl, eqb_ne}

abbrev pub Dict {ℓ κ} : Type ℓ → Type κ → Type (ℓ ⊔ κ)
Dict K V = List (K × V)

module _ {ℓ κ} {K : Type ℓ} {V : Type κ} ⦃e : Equality K⦄ where
  -- d.get(k)
  unfoldable pub get : K → Dict K V → Option V
  get k [] = none
  get k ((j, v) ∷ d) = if e.eqb j k then some v else get k d

  -- d[k] = v
  unfoldable pub put : K → V → Dict K V → Dict K V
  put k v [] = (k, v) ∷ []
  put k v ((j, w) ∷ d) = if e.eqb j k then (j, v) ∷ d else (j, w) ∷ put k v d

  -- k in d
  unfoldable pub contains : K → Dict K V → Bool
  contains k [] = false
  contains k ((j, v) ∷ d) = if e.eqb j k then true else contains k d

  -- d.pop(k, None)
  unfoldable pub remove : K → Dict K V → Dict K V
  remove k [] = []
  remove k ((j, v) ∷ d) = if e.eqb j k then d else (j, v) ∷ remove k d

  pub get-put_self : (k : K) (v : V) (d : Dict K V) → get k (put k v d) ≡ some v
  unfolding get put
  get-put_self k v [] = rw eqb_refl
  get-put_self k v ((j, w) ∷ d) = elim (Bool-cases (e.eqb j k)) [
    | inl p ↦ rw (p, p)
    | inr q ↦ rw (q, q) (get-put_self k v d)
  ]

  pub get-put_ne : (k j : K) (v : V) (d : Dict K V) → k ≢ j → get j (put k v d) ≡ get j d
  unfolding get put
  get-put_ne k j v [] h = rw (eqb_ne k j h)
  get-put_ne k j v ((i, w) ∷ d) h = elim (Bool-cases (e.eqb i k)) [
    | inl p ↦
        let n : e.eqb i j ≡ false = eqb_ne i j (λ q. h (sym ((e.eqb_iff i k).0 p) ∙ q)) in rw (p, n)
    | inr q ↦ elim (Bool-cases (e.eqb i j)) [
      | inl r ↦ rw (q, r)
      | inr s ↦ rw (q, s) (get-put_ne k j v d h)
    ]
  ]

  pub get_absent : (k : K) (d : Dict K V) → contains k d ≡ false → get k d ≡ none
  unfolding contains get
  get_absent k [] h = refl
  get_absent k ((j, v) ∷ d) h = elim (Bool-cases (e.eqb j k)) [
    | inl p ↦ cc (rw p at h)
    | inr q ↦ rw q (get_absent k d (rw q at h))
  ]

  pub get-contains : (k : K) (v : V) (d : Dict K V) → get k d ≡ some v → contains k d ≡ true
  unfolding contains get
  get-contains k v [] h = cc
  get-contains k v ((j, w) ∷ d) h = elim (Bool-cases (e.eqb j k)) [
    | inl p ↦ rw p
    | inr q ↦ rw q (get-contains k v d (rw q at h))
  ]

  pub contains-get : (k : K) (d : Dict K V) → contains k d ≡ true → (v : V) × (get k d ≡ some v)
  unfolding contains get
  contains-get k [] h = cc
  contains-get k ((j, v) ∷ d) h = elim (Bool-cases (e.eqb j k)) [
    | inl p ↦ (v, rw p)
    | inr q ↦ let (w, r) = contains-get k d (rw q at h) in (w, rw q r)
  ]
