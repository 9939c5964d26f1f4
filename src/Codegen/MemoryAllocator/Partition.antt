-- ===== src/Codegen/MemoryAllocator/Partition.antt =====
-- How often a byte address is covered by a list of slots, and the invariant of the allocator:
-- the live and the free slots partition the memory that is in use.
use vysvm.Common.{ℕ, ◌+◌, ◌-◌, ◌≤◌, ◌≡◌, List, [], ◌∷◌, ◌++◌, ltb, leb, if◌then◌else◌, arith}
use vysvm.Codegen.MemoryAllocator.{FreeMemory, MemoryAllocator}

-- 1 if `position ≤ x < position + size`, otherwise 0.
abbrev pub within : ℕ → ℕ → ℕ → ℕ
within position size x = if leb position x then if ltb x (position + size) then 1 else 0 else 0

abbrev pub covers : List FreeMemory → ℕ → ℕ
covers [] x = 0
covers (f ∷ fs) x = within f.position f.size x + covers fs x

pub covers-append :
    (fs gs : List FreeMemory) (x : ℕ) → covers (fs ++ gs) x ≡ covers fs x + covers gs x
covers-append [] gs x = omega arith
covers-append (f ∷ fs) gs x = omega (arith, covers-append fs gs x)

-- Each address from `start` to the free memory pointer belongs to exactly one slot, live or
-- free, and no other address to any. The high-water mark is not below the pointer.
pub record IsPartition (start : ℕ) (live : List FreeMemory) (m : MemoryAllocator) : Type 0 where
  pub low : start ≤ m.next_mem
  pub high : m.next_mem ≤ m.size_of_mem
  pub exact :
      (x : ℕ) → covers live x + covers m.deallocated_mem x ≡ within start (m.next_mem - start) x

-- No address of the slot lies in a slot of the list.
abbrev pub IsDisjoint : FreeMemory → List FreeMemory → Type 0
IsDisjoint f fs = (x : ℕ) → within f.position f.size x ≡ 1 → covers fs x ≡ 0

-- A slot of a partition meets no other.
pub IsPartition-IsDisjoint :
    {start : ℕ} {live : List FreeMemory} {m : MemoryAllocator} (f : FreeMemory)
    → IsPartition start (f ∷ live) m
    → IsDisjoint f live × IsDisjoint f m.deallocated_mem
IsPartition-IsDisjoint f h = (λ x hx. ground (arith, h.exact x), λ x hx. ground (arith, h.exact x))
