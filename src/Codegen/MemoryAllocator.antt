-- ===== src/Codegen/MemoryAllocator.antt =====
-- vyper/codegen/memory_allocator.py: the allocator of frame memory with its free list.
-- A method returns its result beside the allocator that it leaves, also where it raises.
pub mod Partition
pub mod Allocate
pub mod Deallocate
pub mod Compact
pub mod Reclaim
pub mod History
pub mod Examples
use vysvm.Common.{
  ℕ, ◌+◌, ◌-◌, ◌%◌, ◌^◌, max, List, [], ◌∷◌, ◌++◌, Option, none, some, ltb, leb, ◌==◌,
  if◌then◌else◌,
}
use vysvm.Common.Int.{ℤ, pos, negsuc}
use vysvm.Common.Errors.{Result, ok, err, compiler_panic, memory_allocation_exception}

pub record FreeMemory : Type 0 where
  pub position : ℕ
  pub size : ℕ

pub record MemoryAllocator : Type 0 where
  pub next_mem : ℕ
  pub size_of_mem : ℕ
  pub deallocated_mem : List FreeMemory

abbrev pub reserved_memory : ℕ
reserved_memory = 64

abbrev pub allocation_limit : ℕ
allocation_limit = 2 ^ 64

-- The constructor.
pub start : ℕ → MemoryAllocator
start start_position = record {
  next_mem = start_position;
  size_of_mem = start_position;
  deallocated_mem = [];
}

pub get_next_memory_position : MemoryAllocator → ℕ
get_next_memory_position m = m.next_mem

-- The position handed out, and the slot that is left.
pub partially_allocate : FreeMemory → ℕ → Result (ℕ × FreeMemory)
partially_allocate f size =
    if leb f.size size
    then (err compiler_panic)
    else ok (f.position, record { position = f.position + size; size = f.size - size })

-- What the scan of the free list comes to: no slot is large enough, a slot was used, or
-- `partially_allocate` raised.
pub data Scan : Type 0 where
  miss : Scan
  hit : ℕ → List FreeMemory → Scan
  panic : Scan

pub used_part : List FreeMemory → Result (ℕ × FreeMemory) → Scan
used_part rest (ok (position, slot)) = hit position (slot ∷ rest)
used_part rest _ = panic

pub skip_slot : FreeMemory → Scan → Scan
skip_slot f miss = miss
skip_slot f (hit position rest) = hit position (f ∷ rest)
skip_slot f panic = panic

-- The loop of `allocate_memory` over the free list.
pub scan : ℕ → List FreeMemory → Scan
unfolding partially_allocate used_part skip_slot
scan size [] = miss
scan size (f ∷ fs) =
    let later = scan size fs in
    if f.size == size
    then hit f.position fs
    else if ltb size f.size
    then used_part fs (partially_allocate f size)
    else skip_slot f later

-- What is stored before the limit is tested.
pub grown : MemoryAllocator → ℕ → MemoryAllocator
grown m size =
    let next = m.next_mem + size in
    record m { next_mem = next; size_of_mem = max m.size_of_mem next }

pub expand_memory : MemoryAllocator → ℕ → Result ℕ × MemoryAllocator
unfolding grown
expand_memory m size =
    if size % 32 == 0
    then if leb allocation_limit (grown m size).size_of_mem
      then (err memory_allocation_exception, grown m size)
      else (ok m.next_mem, grown m size)
    else (err compiler_panic, m)

pub after_scan : MemoryAllocator → ℕ → Scan → Result ℕ × MemoryAllocator
unfolding expand_memory
after_scan m size miss = expand_memory m size
after_scan m size (hit position rest) = (ok position, record m { deallocated_mem = rest })
after_scan m size panic = (err compiler_panic, m)

-- A negative size raises `CompilerPanic` whatever its remainder by 32.
pub allocate_memory : MemoryAllocator → ℤ → Result ℕ × MemoryAllocator
unfolding scan after_scan
allocate_memory m (negsuc _) = (err compiler_panic, m)
allocate_memory m (pos size) =
    if size % 32 == 0
    then after_scan m size (scan size m.deallocated_mem)
    else (err compiler_panic, m)

-- `list.sort` by position: stable.
pub insert_by_position : FreeMemory → List FreeMemory → List FreeMemory
insert_by_position f [] = f ∷ []
insert_by_position f (g ∷ gs) =
    if leb f.position g.position then f ∷ g ∷ gs else g ∷ insert_by_position f gs

pub sort_by_position : List FreeMemory → List FreeMemory
unfolding insert_by_position
sort_by_position [] = []
sort_by_position (f ∷ fs) = insert_by_position f (sort_by_position fs)

-- The merging loop, with `active` and the slots from index `i` on.
pub merge_slots : FreeMemory → List FreeMemory → List FreeMemory
merge_slots active [] = active ∷ []
merge_slots active (next_slot ∷ rest) =
    let merged = merge_slots (record active { size = active.size + next_slot.size }) rest in
    let kept = active ∷ merge_slots next_slot rest in
    if next_slot.position == active.position + active.size then merged else kept

-- The last step: the highest slot goes back to unallocated memory if it ends there.
pub trim_last : ℕ → List FreeMemory → ℕ × List FreeMemory
trim_last next_mem [] = (next_mem, [])
trim_last next_mem (last ∷ []) =
    if last.position + last.size == next_mem then (last.position, []) else (next_mem, last ∷ [])
trim_last next_mem (f ∷ g ∷ rest) =
    let (next, kept) = trim_last next_mem (g ∷ rest) in (next, f ∷ kept)

pub merge_sorted : List FreeMemory → List FreeMemory
unfolding merge_slots
merge_sorted [] = []
merge_sorted (active ∷ rest) = merge_slots active rest

pub released : MemoryAllocator → ℕ × List FreeMemory → MemoryAllocator
released m (next, kept) = record m { next_mem = next; deallocated_mem = kept }

-- The free list with one slot more, sorted and merged.
pub freed : MemoryAllocator → ℕ → ℕ → List FreeMemory
unfolding sort_by_position merge_sorted
freed m position size =
    merge_sorted
      (sort_by_position (m.deallocated_mem ++ record { position = position; size = size } ∷ []))

pub deallocate_memory : MemoryAllocator → ℕ → ℕ → Result (Unit {0}) × MemoryAllocator
unfolding freed trim_last released
deallocate_memory m position size =
    if size % 32 == 0
    then (ok tt, released m (trim_last m.next_mem (freed m position size)))
    else (err compiler_panic, m)
