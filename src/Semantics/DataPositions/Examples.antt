-- ===== src/Semantics/DataPositions/Examples.antt =====
-- vyper/semantics/analysis/data_positions.py: the theorem on two variables, at slots 0 and 1 and at
-- slot 2.
use vysvm.Semantics.DataPositions.{
  OccupiedSlots, reserve_slot_range, allocate_slot, simple_allocator, slots_from, reserve_slots,
  reserve_slot,
}
use vysvm.Common.{◌∷◌, [], ◌≡◌, false, refl}
use vysvm.Semantics.DataPositions.Disjoint.{among, reserve_slot_range-disjoint}
use vysvm.Common.Errors.{err, storage_layout_exception}
use vysvm.Common.Int.{pos, ◌+ℤ◌}
use vysvm.Common.Dict.{contains, put}

abbrev after_first : OccupiedSlots
after_first = (0, "owner") ∷ (1, "owner") ∷ []

abbrev after_both : OccupiedSlots
after_both = (0, "owner") ∷ (1, "owner") ∷ (2, "total") ∷ []

reserve_slot_range-disjoint_example : among 1 (slots_from 0 1 (pos 2)) ≡ false
unfolding reserve_slot_range among reserve_slots slots_from reserve_slot ◌+ℤ◌ contains put
reserve_slot_range-disjoint_example =
    reserve_slot_range-disjoint (pos 0) (pos 2) 2 1 "owner" "total" [] after_first after_both refl
      refl 1 refl

-- The last slot below the limit is not handed out.
last_slot : allocate_slot (simple_allocator 4 0) 4 ≡ err storage_layout_exception
unfolding allocate_slot simple_allocator
last_slot = refl
