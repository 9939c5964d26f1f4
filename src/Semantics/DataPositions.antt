-- ===== src/Semantics/DataPositions.antt =====
-- vyper/semantics/analysis/data_positions.py: the allocators of storage slots.
pub mod Disjoint
pub mod Examples
use vysvm.Common.{ℕ, List, if◌then◌else◌, [], leb, suc, ◌+◌, ◌∷◌, ◌==◌, ◌^◌, zero}
use vysvm.Common.Errors.{
  Result, ◌>>=◌, ok, ◌>>◌, unless, err, storage_layout_exception, assertion_error,
}
use vysvm.Common.Dict.{Dict, contains, put}
use vysvm.Common.Int.{ℤ, negsuc, pos, ◌+ℤ◌}
use Prim.Native.String.{String}
use vysvm.Common.Eq.{ℕ_Eq}

pub record SimpleAllocator : Type 0 where
  pub starting_slot : ℕ
  pub slot : ℕ
  pub max_slot : ℕ

-- The constructor.
pub simple_allocator : ℕ → ℕ → SimpleAllocator
simple_allocator max_slot starting_slot = record {
  starting_slot = starting_slot;
  slot = starting_slot;
  max_slot = max_slot;
}

-- The allocator is as it was where this raises.
pub allocate_slot : SimpleAllocator → ℕ → Result (ℕ × SimpleAllocator)
allocate_slot s n =
    if leb s.max_slot (s.slot + n)
    then (err storage_layout_exception)
    else ok (s.slot, record s { slot = s.slot + n })

pub allocate_global_nonreentrancy_slot : SimpleAllocator → Result (ℕ × SimpleAllocator)
allocate_global_nonreentrancy_slot s = do
  allocated ← allocate_slot s 1
  unless assertion_error (allocated.0 == s.starting_slot)
  ok allocated

-- `occupied_slots`. What a reservation that raises has stored before is not kept, since the
-- compilation ends.
abbrev pub OccupiedSlots : Type 0
OccupiedSlots = Dict ℕ String

pub reserve_slot : ℤ → String → OccupiedSlots → Result OccupiedSlots
reserve_slot (negsuc _) var_name occupied_slots = err storage_layout_exception
reserve_slot (pos slot) var_name occupied_slots =
    if leb (2 ^ 256) slot
    then (err storage_layout_exception)
    else if contains slot occupied_slots
    then (err storage_layout_exception)
    else ok (put slot var_name occupied_slots)

pub reserve_slots : List ℤ → String → OccupiedSlots → Result OccupiedSlots
reserve_slots [] var_name occupied_slots = ok occupied_slots
reserve_slots (slot ∷ slots) var_name occupied_slots =
    reserve_slot slot var_name occupied_slots >>= λ o. reserve_slots slots var_name o

-- `[x + first_slot for x in range(n_slots)]`, from `x` on.
pub slots_from : ℕ → ℕ → ℤ → List ℤ
slots_from x zero first_slot = []
slots_from x (suc n) first_slot = (pos x +ℤ first_slot) ∷ slots_from (suc x) n first_slot

pub reserve_slot_range : ℤ → ℕ → String → OccupiedSlots → Result OccupiedSlots
reserve_slot_range first_slot n_slots var_name occupied_slots =
    reserve_slots (slots_from 0 n_slots first_slot) var_name occupied_slots
