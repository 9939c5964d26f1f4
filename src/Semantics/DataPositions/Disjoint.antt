-- ===== src/Semantics/DataPositions/Disjoint.antt =====
-- vyper/semantics/analysis/data_positions.py: reserved ranges do not collide.
use vysvm.Common.{
  ℕ, List, Bool, false, ◌==◌, ◌∷◌, ◌≡◌, ◌||◌, true, Bool-cases, [], some, leb, inl, none, ◌^◌, inr,
  arith, ◌∙◌, refl, sym, ==_iff, ◌≢◌,
}
use vysvm.Semantics.DataPositions.{
  reserve_slot, reserve_slots, reserve_slot_range, OccupiedSlots, slots_from,
}
use vysvm.Common.Int.{ℤ, pos, negsuc}
use Prim.Native.String.{String}
use vysvm.Common.Dict.{contains, put, get, get-put_self, get_absent, get-put_ne}
use vysvm.Common.Errors.{ok, bind_succeeds}
use vysvm.Common.Eq.{ℕ_Eq}

abbrev pub is_slot : ℕ → ℤ → Bool
is_slot k (pos j) = j == k
is_slot k (negsuc _) = false

unfoldable pub among : ℕ → List ℤ → Bool
among k [] = false
among k (slot ∷ slots) = is_slot k slot || among k slots

record Reserves (slots : List ℤ) (name : String) (before after : OccupiedSlots) : Type 0 where
  owned : (k : ℕ) → among k slots ≡ true → get k after ≡ some name
  was_free : (k : ℕ) → among k slots ≡ true → get k before ≡ none
  others : (k : ℕ) → among k slots ≡ false → get k after ≡ get k before

reserve_slot-put :
    (slot : ℤ) (name : String) (d e : OccupiedSlots)
    → reserve_slot slot name d ≡ ok e
    → (j : ℕ) × (slot ≡ pos j) × (contains j d ≡ false) × (e ≡ put j name d)
unfolding reserve_slot
reserve_slot-put (negsuc _) name d e h = cc
reserve_slot-put (pos j) name d e h = elim (Bool-cases (leb (2 ^ 256) j)) [
  | inl p ↦ cc (rw p at h)
  | inr p ↦ elim (Bool-cases (contains j d)) [
    | inl q ↦ cc (rw (p, q) at h)
    | inr q ↦ (j, refl, q, cc (rw (p, q) at h))
  ]
]

one_slot :
    (j : ℕ) (slots : List ℤ) (name : String) (d f : OccupiedSlots)
    → contains j d ≡ false
    → Reserves slots name (put j name d) f
    → Reserves (pos j ∷ slots) name d f
unfolding among
one_slot j slots name d f c r = record {
  owned = λ k h. elim (Bool-cases (among k slots)) [
    | inl p ↦ r.owned k p
    | inr p ↦ let e : j ≡ k = ground arith in r.others k p ∙ rw (sym e) (get-put_self j name d)
  ];
  was_free = λ k h. elim (Bool-cases (j == k)) [
    | inl p ↦ let e : j ≡ k = (==_iff j k).0 p in rw (sym e) (get_absent j d c)
    | inr p ↦
        let e : j ≢ k = ground arith in sym (get-put_ne j k name d e) ∙ r.was_free k (ground arith)
  ];
  others =
      λ k h. let e : j ≢ k = ground arith in r.others k (ground arith) ∙ get-put_ne j k name d e;
}

reserve_slots-Reserves :
    (slots : List ℤ) (name : String) (d e : OccupiedSlots)
    → reserve_slots slots name d ≡ ok e
    → Reserves slots name d e
unfolding reserve_slots among
reserve_slots-Reserves [] name d e h =
    let s : d ≡ e = cc in
    record { owned = λ k x. cc; was_free = λ k x. cc; others = λ k x. rw s refl }
reserve_slots-Reserves (slot ∷ slots) name d f h =
    let (e, p, q) = bind_succeeds (reserve_slot slot name d) _ h in
    let (j, s, c, w) = reserve_slot-put slot name d e p in
    rw s (one_slot j slots name d f c (rw w at (reserve_slots-Reserves slots name e f q)))

-- Where reserve_slot_range succeeds for one variable and then for another, no slot is in both
-- ranges.
pub reserve_slot_range-disjoint :
    (a b : ℤ) (n m : ℕ) (x y : String) (d e f : OccupiedSlots)
    → reserve_slot_range a n x d ≡ ok e
    → reserve_slot_range b m y e ≡ ok f
    → (k : ℕ) → among k (slots_from 0 n a) ≡ true
    → among k (slots_from 0 m b) ≡ false
unfolding reserve_slot_range
reserve_slot_range-disjoint a b n m x y d e f g h k p =
    elim (Bool-cases (among k (slots_from 0 m b))) [
      | inl q ↦
          let r = reserve_slots-Reserves (slots_from 0 n a) x d e g in
          let s = reserve_slots-Reserves (slots_from 0 m b) y e f h in
          cc (r.owned k p, s.was_free k q)
      | inr q ↦ q
    ]
