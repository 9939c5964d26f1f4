-- ===== src/Codegen/MemoryAllocator/Reclaim.antt =====
-- When the last live slot is released, the allocator is back at its start position with an
-- empty free list.
use vysvm.Codegen.MemoryAllocator.{
  FreeMemory, MemoryAllocator, insert_by_position, sort_by_position, merge_slots, merge_sorted,
  trim_last, released, deallocate_memory, freed,
}
use vysvm.Codegen.MemoryAllocator.Partition.{within, covers, IsPartition}
use vysvm.Codegen.MemoryAllocator.Deallocate.{deallocate_memory-IsPartition}
use vysvm.Codegen.MemoryAllocator.Compact.{
  From, From-sort, IsCompact, EndsBelow, IsTrimmed, merge_slots-IsCompact, trim_last-IsTrimmed,
}
use vysvm.Common.{
  List, ℕ, All, ◌<◌, ◌∷◌, ◌≤◌, if_cases, arith, ◌≡◌, ◌+◌, [], leb, ◌==◌, ◌-◌, refl, ◌%◌, suc, ◌++◌,
  All-append,
}

abbrev pub IsPositive : List FreeMemory → Type 0
IsPositive = All (λ f. 0 < f.size)

IsPositive-insert :
    (f : FreeMemory) (fs : List FreeMemory)
    → 0 < f.size
    → IsPositive fs
    → IsPositive (insert_by_position f fs)
unfolding insert_by_position
IsPositive-insert f [] h k = (h, tt)
IsPositive-insert f (g ∷ gs) h k =
    if_cases IsPositive (leb f.position g.position) (λ _. (h, k))
      (λ _. (k.0, IsPositive-insert f gs h k.1))

IsPositive-sort : (fs : List FreeMemory) → IsPositive fs → IsPositive (sort_by_position fs)
unfolding sort_by_position
IsPositive-sort [] h = tt
IsPositive-sort (f ∷ fs) h = IsPositive-insert f (sort_by_position fs) h.0 (IsPositive-sort fs h.1)

IsPositive-merge_slots :
    (f : FreeMemory) (fs : List FreeMemory)
    → 0 < f.size
    → IsPositive fs
    → IsPositive (merge_slots f fs)
unfolding merge_slots
IsPositive-merge_slots f [] h k = (h, tt)
IsPositive-merge_slots f (g ∷ gs) h k =
    if_cases IsPositive (g.position == f.position + f.size)
      (λ _. IsPositive-merge_slots (record f { size = f.size + g.size }) gs (omega arith) k.1)
      (λ _. (h, IsPositive-merge_slots g gs k.0 k.1))

IsPositive-trim_last :
    (n : ℕ) (fs : List FreeMemory) → IsPositive fs → IsPositive (trim_last n fs).1
unfolding trim_last
IsPositive-trim_last n [] h = tt
IsPositive-trim_last n (f ∷ []) h = ground arith
IsPositive-trim_last n (f ∷ g ∷ fs) h = (h.0, IsPositive-trim_last n (g ∷ fs) h.1)

IsPositive-merge_sorted : (fs : List FreeMemory) → IsPositive fs → IsPositive (merge_sorted fs)
unfolding merge_sorted
IsPositive-merge_sorted [] h = tt
IsPositive-merge_sorted (f ∷ fs) h = IsPositive-merge_slots f fs h.0 h.1

From-covers : (p x : ℕ) (fs : List FreeMemory) → From p fs → x < p → covers fs x ≡ 0
From-covers p x [] s h = refl
From-covers p x (f ∷ fs) s h = ground (arith, From-covers f.position x fs s.1)

IsCompact-From : (p e : ℕ) (fs : List FreeMemory) → IsCompact p e fs → From p fs
IsCompact-From p e [] c = tt
IsCompact-From p e (f ∷ fs) c = (c.0, IsCompact-From f.position (f.position + f.size) fs c.2)

-- A compact list that covers a segment and does not end with it covers nothing.
module _ (start next_mem : ℕ) (low : start ≤ next_mem) where
  abbrev Fills : List FreeMemory → Type 0
  Fills fs = (x : ℕ) → covers fs x ≡ within start (next_mem - start) x

  one_slot : (f : FreeMemory) → 0 < f.size → Fills (f ∷ []) → f.position + f.size ≡ next_mem
  one_slot f h exact = ground (
    arith,
    exact f.position,
    exact (f.position + f.size),
    exact (f.position + f.size - 1),
    exact (next_mem - 1),
  )

  two_slots :
      (f g : FreeMemory) (fs : List FreeMemory)
      → 0 < f.size
      → 0 < g.size
      → f.position ≤ g.position
      → From g.position fs
      → Fills (f ∷ g ∷ fs)
      → g.position ≡ f.position + f.size
  two_slots f g fs h k l s exact = ground (
    arith,
    exact g.position,
    exact (f.position + f.size),
    exact f.position,
    From-covers g.position (f.position + f.size) fs s,
  )

  nothing_left :
      (p e : ℕ) (fs : List FreeMemory)
      → IsCompact p e fs
      → EndsBelow next_mem fs
      → IsPositive fs
      → Fills fs
      → (fs ≡ []) × (next_mem ≡ start)
  nothing_left p e [] c l h exact = (refl, ground (arith, exact start))
  nothing_left p e (f ∷ []) c l h exact = absurd (l (one_slot f h.0 exact))
  nothing_left p e (f ∷ g ∷ fs) c l h exact = absurd (
      c.2.1 (
        two_slots f g fs h.0 h.1.0 c.2.0 (IsCompact-From g.position (g.position + g.size) fs c.2.2)
          exact))

freed-IsPositive :
    (m : MemoryAllocator) (position size : ℕ)
    → 0 < size
    → IsPositive m.deallocated_mem
    → IsPositive (freed m position size)
unfolding freed
freed-IsPositive m position size h k =
    let slot : FreeMemory = record { position = position; size = size } in
    IsPositive-merge_sorted (sort_by_position (m.deallocated_mem ++ slot ∷ [])) (
      IsPositive-sort (m.deallocated_mem ++ slot ∷ [])
        (All-append (λ f. 0 < f.size) m.deallocated_mem (slot ∷ []) k (h, tt)))

merge_sorted-IsCompact :
    (fs : List FreeMemory) → From 0 fs → (e : ℕ) × IsCompact 0 e (merge_sorted fs)
unfolding merge_sorted
merge_sorted-IsCompact [] s = (0, tt)
merge_sorted-IsCompact (f ∷ fs) s =
    (suc f.position, merge_slots-IsCompact 0 (suc f.position) f fs (omega arith) (omega arith) s.1)

freed-IsCompact :
    (m : MemoryAllocator) (position size : ℕ) → (e : ℕ) × IsCompact 0 e (freed m position size)
unfolding freed
freed-IsCompact m position size =
    let slots = m.deallocated_mem ++ record { position = position; size = size } ∷ [] in
    merge_sorted-IsCompact (sort_by_position slots) (From-sort slots)

module _ (m : MemoryAllocator) (start position size : ℕ) (aligned : size % 32 ≡ 0) where
  released_state :
      (deallocate_memory m position size).1
      ≡ released m (trim_last m.next_mem (freed m position size))
  unfolding deallocate_memory
  released_state = rw aligned

  reclaims :
      (e : ℕ) (r : ℕ × List FreeMemory)
      → IsTrimmed 0 e r
      → IsPositive r.1
      → IsPartition start [] (released m r)
      → ((released m r).next_mem ≡ start) × ((released m r).deallocated_mem ≡ [])
  unfolding released
  reclaims e (n, fs) trimmed positive after =
      let (nothing, at_start) =
        nothing_left start n after.low 0 e fs trimmed.0 trimmed.1 positive
          (λ x. omega (arith, after.exact x)) in
      (at_start, nothing)

  -- Releasing the last live slot takes the allocator back to its start position, with nothing
  -- left in the free list, if no slot is empty.
  pub deallocate_memory-reclaims :
      0 < size
      → IsPositive m.deallocated_mem
      → IsPartition start (record { position = position; size = size } ∷ []) m
      → ((deallocate_memory m position size).1.next_mem ≡ start)
        × ((deallocate_memory m position size).1.deallocated_mem ≡ [])
  deallocate_memory-reclaims h k part =
      let after =
        rw released_state at
          ((deallocate_memory-IsPartition m [] [] position size aligned part).1) in
      let fs = freed m position size in
      let (e, compact) = freed-IsCompact m position size in
      let trimmed = trim_last-IsTrimmed 0 e m.next_mem fs compact in
      let positive = IsPositive-trim_last m.next_mem fs (freed-IsPositive m position size h k) in
      rw released_state (reclaims e (trim_last m.next_mem fs) trimmed positive after)
