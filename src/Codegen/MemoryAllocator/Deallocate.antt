-- ===== src/Codegen/MemoryAllocator/Deallocate.antt =====
-- `deallocate_memory`: what sorting, merging and trimming do to the addresses covered.
use vysvm.Codegen.MemoryAllocator.{
  FreeMemory, MemoryAllocator, insert_by_position, sort_by_position, merge_slots, merge_sorted,
  trim_last, released, deallocate_memory, freed,
}
use vysvm.Codegen.MemoryAllocator.Partition.{within, covers, IsPartition, covers-append}
use vysvm.Common.{
  ℕ, List, ◌+◌, ◌≡◌, ◌≤◌, arith, ◌∷◌, ◌-◌, if_cases, ◌==◌, ==_iff, [], refl, ◌%◌, ◌++◌,
}
use vysvm.Common.Errors.{ok}

module _ (x : ℕ) where
  covers-insert :
      (f : FreeMemory) (fs : List FreeMemory)
      → covers (insert_by_position f fs) x ≡ covers (f ∷ fs) x
  unfolding insert_by_position
  covers-insert f [] = refl
  covers-insert f (g ∷ gs) = ground (arith, covers-insert f gs)

  covers-sort : (fs : List FreeMemory) → covers (sort_by_position fs) x ≡ covers fs x
  unfolding sort_by_position
  covers-sort [] = refl
  covers-sort (f ∷ fs) = omega (arith, covers-insert f (sort_by_position fs), covers-sort fs)

  within-join : (p s t : ℕ) → within p (s + t) x ≡ within p s x + within (p + s) t x
  within-join p s t = ground arith

  covers-merge_slots :
      (active : FreeMemory) (rest : List FreeMemory)
      → covers (merge_slots active rest) x ≡ covers (active ∷ rest) x
  unfolding merge_slots
  covers-merge_slots active [] = refl
  covers-merge_slots active (g ∷ rest) =
      if_cases (λ l. covers l x ≡ covers (active ∷ g ∷ rest) x)
        (g.position == active.position + active.size)
        (λ e.
          let touch : g.position ≡ active.position + active.size = (==_iff _ _).0 e in
          let joined : FreeMemory = record active { size = active.size + g.size } in
          rw touch (
            omega (
              arith,
              covers-merge_slots joined rest,
              within-join active.position active.size g.size,
            )))
        (λ _. omega (arith, covers-merge_slots g rest))

  covers-merge_sorted : (fs : List FreeMemory) → covers (merge_sorted fs) x ≡ covers fs x
  unfolding merge_sorted
  covers-merge_sorted [] = refl
  covers-merge_sorted (f ∷ fs) = covers-merge_slots f fs

-- Trimming gives back a segment at the top.
pub record Trims (next_mem : ℕ) (fs : List FreeMemory) (r : ℕ × List FreeMemory) : Type 0 where
  pub below : r.0 ≤ next_mem
  pub rest : (x : ℕ) → covers r.1 x + within r.0 (next_mem - r.0) x ≡ covers fs x

trim_last-Trims : (next_mem : ℕ) (fs : List FreeMemory) → Trims next_mem fs (trim_last next_mem fs)
unfolding trim_last
trim_last-Trims next_mem [] = record { below = omega arith; rest = λ x. ground arith }
trim_last-Trims next_mem (f ∷ []) =
    if_cases (Trims next_mem (f ∷ [])) (f.position + f.size == next_mem)
      (λ e. record { below = ground arith; rest = λ x. ground arith })
      (λ e. record { below = omega arith; rest = λ x. ground arith })
trim_last-Trims next_mem (f ∷ g ∷ fs) =
    let t = trim_last-Trims next_mem (g ∷ fs) in
    record { below = t.below; rest = λ x. omega (arith, t.rest x) }

module _ (m : MemoryAllocator) where
  released-IsPartition :
      {start : ℕ} {live : List FreeMemory} (fs : List FreeMemory) (r : ℕ × List FreeMemory)
      → start ≤ m.next_mem
      → m.next_mem ≤ m.size_of_mem
      → ((x : ℕ) → covers live x + covers fs x ≡ within start (m.next_mem - start) x)
      → Trims m.next_mem fs r
      → IsPartition start live (released m r)
  unfolding released
  released-IsPartition fs r low high exact t = record {
    low = ground (arith, t.below, t.rest r.0, exact r.0);
    high = omega (arith, t.below);
    exact = λ x. ground (arith, t.below, t.rest x, exact x, t.rest r.0, exact r.0);
  }

  covers-freed :
      (position size x : ℕ)
      → covers (freed m position size) x ≡ covers m.deallocated_mem x + within position size x
  unfolding freed
  covers-freed position size x =
      let slot : FreeMemory = record { position = position; size = size } in
      let slots = m.deallocated_mem ++ slot ∷ [] in
      omega (
        arith,
        covers-merge_sorted x (sort_by_position slots),
        covers-sort x slots,
        covers-append m.deallocated_mem (slot ∷ []) x,
      )

  -- A live slot that is released becomes free, and the other live slots and the free ones again
  -- partition the memory in use.
  pub deallocate_memory-IsPartition :
      {start : ℕ} (before after : List FreeMemory) (position size : ℕ)
      → size % 32 ≡ 0
      → IsPartition start (before ++ record { position = position; size = size } ∷ after) m
      → ((deallocate_memory m position size).0 ≡ ok tt)
        × IsPartition start (before ++ after) (deallocate_memory m position size).1
  unfolding deallocate_memory
  deallocate_memory-IsPartition before after position size aligned h =
      let slot : FreeMemory = record { position = position; size = size } in
      rw aligned (
        refl,
        released-IsPartition (freed m position size) _ h.low h.high
            (λ x. omega (
              arith,
              h.exact x,
              covers-freed position size x,
              covers-append before (slot ∷ after) x,
              covers-append before after x,
            ))
            (trim_last-Trims m.next_mem (freed m position size)),
      )
