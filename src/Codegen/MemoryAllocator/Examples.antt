-- ===== src/Codegen/MemoryAllocator/Examples.antt =====
-- The theorems on the allocator at concrete runs, and tests.
use vysvm.Common.Int.{pos, negsuc}
use vysvm.Codegen.MemoryAllocator.{MemoryAllocator, start, allocate_memory, deallocate_memory}
use vysvm.Codegen.MemoryAllocator.Partition.{IsPartition, IsDisjoint}
use vysvm.Codegen.MemoryAllocator.Allocate.{allocate_memory-first_fit}
use vysvm.Codegen.MemoryAllocator.History.{
  slot, Run, begin, allocate, release, Run-IsPartition, allocate_memory-IsDisjoint,
}
use vysvm.Codegen.MemoryAllocator.Reclaim.{deallocate_memory-reclaims}
use vysvm.Common.{◌∷◌, ◌≡◌, [], ◌^◌, refl, arith}
use vysvm.Common.Errors.{ok, err, compiler_panic, memory_allocation_exception}

-- Two slots are taken and the first is released.
abbrev fragmented : MemoryAllocator
fragmented = record { next_mem = 192; size_of_mem = 192; deallocated_mem = slot 64 96 ∷ [] }

fragmented_reached : Run 64 (slot 160 32 ∷ []) fragmented
unfolding start allocate_memory deallocate_memory
fragmented_reached =
    release (slot 160 32 ∷ []) [] 64 96 (allocate 32 160 (allocate 96 64 begin refl) refl) refl refl

Run-IsPartition_example : IsPartition 64 (slot 160 32 ∷ []) fragmented
Run-IsPartition_example = Run-IsPartition fragmented_reached

reuse : (allocate_memory fragmented (pos 32)).0 ≡ ok 64
unfolding allocate_memory
reuse = refl

allocate_memory-IsDisjoint_example : IsDisjoint (slot 64 32) (slot 160 32 ∷ [])
allocate_memory-IsDisjoint_example = allocate_memory-IsDisjoint 32 64 fragmented_reached reuse

allocate_memory-first_fit_example : (allocate_memory fragmented (pos 32)).0 ≡ ok 64
allocate_memory-first_fit_example = allocate_memory-first_fit fragmented 32 refl

deallocate_memory-reclaims_example :
    ((deallocate_memory fragmented 160 32).1.next_mem ≡ 64)
    × ((deallocate_memory fragmented 160 32).1.deallocated_mem ≡ [])
deallocate_memory-reclaims_example =
    deallocate_memory-reclaims fragmented 64 160 32 refl (omega arith) (omega arith, tt)
      (Run-IsPartition fragmented_reached)

-- A size that is no multiple of 32, a negative size, and the limit of 2 ** 64 bytes.
refusals :
    ((allocate_memory fragmented (pos 33)).0 ≡ (err compiler_panic))
    × ((allocate_memory fragmented (negsuc 31)).0 ≡ (err compiler_panic))
    × ((allocate_memory fragmented (pos (2 ^ 64))).0 ≡ (err memory_allocation_exception))
unfolding allocate_memory
refusals = (refl, refl, refl)
