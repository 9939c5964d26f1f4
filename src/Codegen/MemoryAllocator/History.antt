-- ===== src/Codegen/MemoryAllocator/History.antt =====
-- Any sequence of allocations and releases, from a new allocator on.
use vysvm.Common.Int.{pos}
use vysvm.Codegen.MemoryAllocator.{
  FreeMemory, MemoryAllocator, start, allocate_memory, deallocate_memory,
}
use vysvm.Codegen.MemoryAllocator.Partition.{IsPartition, IsPartition-IsDisjoint, IsDisjoint}
use vysvm.Codegen.MemoryAllocator.Allocate.{allocate_memory-IsPartition}
use vysvm.Codegen.MemoryAllocator.Deallocate.{deallocate_memory-IsPartition}
use vysvm.Common.{ℕ, List, [], ◌≡◌, arith, ◌∷◌, ◌++◌, ◌%◌}
use vysvm.Common.Errors.{ok}

abbrev pub slot : ℕ → ℕ → FreeMemory
slot position size = record { position = position; size = size }

-- The slots that clients hold, with the allocator; a client releases a slot that it holds.
pub data Run (start_position : ℕ) : List FreeMemory → MemoryAllocator → Type 0 where
  begin : Run start_position [] (start start_position)
  allocate :
      {live : List FreeMemory} {m : MemoryAllocator} (size p : ℕ)
      → Run start_position live m
      → (allocate_memory m (pos size)).0 ≡ ok p
      → Run start_position (slot p size ∷ live) (allocate_memory m (pos size)).1
  release :
      {live : List FreeMemory} {m : MemoryAllocator} (before after : List FreeMemory) (p size : ℕ)
      → Run start_position live m
      → live ≡ before ++ slot p size ∷ after
      → size % 32 ≡ 0
      → Run start_position (before ++ after) (deallocate_memory m p size).1

start-IsPartition : (n : ℕ) → IsPartition n [] (start n)
unfolding start
start-IsPartition n = record { low = omega arith; high = omega arith; exact = λ x. ground arith }

-- After any run the slots that clients hold and the free ones partition the memory in use.
pub Run-IsPartition :
    {start_position : ℕ} {live : List FreeMemory} {m : MemoryAllocator}
    → Run start_position live m
    → IsPartition start_position live m
Run-IsPartition {start_position} begin = start-IsPartition start_position
Run-IsPartition (allocate size p r e) = allocate_memory-IsPartition (Run-IsPartition r) size p e
Run-IsPartition (release {m = m} before after p size r e aligned) =
    (deallocate_memory-IsPartition m before after p size aligned (rw e at (Run-IsPartition r))).1

-- Whatever was allocated and released before, a slot that is handed out meets no slot that
-- clients hold.
pub allocate_memory-IsDisjoint :
    {start_position : ℕ} {live : List FreeMemory} {m : MemoryAllocator} (size p : ℕ)
    → Run start_position live m
    → (allocate_memory m (pos size)).0 ≡ ok p
    → IsDisjoint (slot p size) live
allocate_memory-IsDisjoint size p r e =
    (IsPartition-IsDisjoint (slot p size)
      (allocate_memory-IsPartition (Run-IsPartition r) size p e)).0
