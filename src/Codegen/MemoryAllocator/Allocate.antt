-- ===== src/Codegen/MemoryAllocator/Allocate.antt =====
-- `allocate_memory` on each of its branches.
use vysvm.Common.{
  ℕ, ◌+◌, ◌-◌, ◌%◌, ◌≤◌, ◌<◌, ◌≡◌, refl, List, [], ◌∷◌, ◌==◌, ltb, leb, true, false, if_cases,
  ltb→lt, arith, Bool-cases, Option, none, inl, some, inr, if◌then◌else◌, max, ◌∙◌,
}
use vysvm.Common.Int.{pos}
use vysvm.Codegen.MemoryAllocator.{
  FreeMemory, MemoryAllocator, partially_allocate, Scan, miss, hit, panic, used_part, skip_slot,
  scan, grown, expand_memory, after_scan, allocate_memory, allocation_limit,
}
use vysvm.Codegen.MemoryAllocator.Partition.{within, covers, IsPartition}
use vysvm.Common.Errors.{Result, ok, err, memory_allocation_exception}

-- What a scan may come to: nothing, or a slot of the wanted size cut out of the free list.
abbrev Cuts : ℕ → List FreeMemory → Scan → Type 0
Cuts size fs miss = Unit
Cuts size fs (hit p rest) = (x : ℕ) → covers fs x ≡ within p size x + covers rest x
Cuts size fs panic = ⊥

Cuts-skip_slot :
    (size : ℕ) (f : FreeMemory) (fs : List FreeMemory) (r : Scan)
    → Cuts size fs r
    → Cuts size (f ∷ fs) (skip_slot f r)
unfolding skip_slot
Cuts-skip_slot size f fs miss h = tt
Cuts-skip_slot size f fs (hit p rest) h = λ x. omega (arith, h x)
Cuts-skip_slot size f fs panic h = h

within-split : (p s t x : ℕ) → t ≤ s → within p s x ≡ within p t x + within (p + t) (s - t) x
within-split p s t x h = ground arith

Cuts-used_part :
    (size : ℕ) (f : FreeMemory) (fs : List FreeMemory)
    → size < f.size
    → Cuts size (f ∷ fs) (used_part fs (partially_allocate f size))
unfolding partially_allocate used_part
Cuts-used_part size f fs h =
    let fits : leb f.size size ≡ false = ground arith in
    rw fits (λ x. omega (arith, within-split f.position f.size size x (omega arith)))

-- The first slot that is large enough is cut, and no scan raises.
scan-Cuts : (size : ℕ) (fs : List FreeMemory) → Cuts size fs (scan size fs)
unfolding scan
scan-Cuts size [] = tt
scan-Cuts size (f ∷ fs) =
    if_cases (Cuts size (f ∷ fs)) (f.size == size)
      (λ e. let same : f.size ≡ size = ground arith in λ x. rw same refl)
      (λ _.
        if_cases (Cuts size (f ∷ fs)) (ltb size f.size)
          (λ e. Cuts-used_part size f fs (ltb→lt _ _ e))
          (λ _. Cuts-skip_slot size f fs (scan size fs) (scan-Cuts size fs)))

expand_memory-ok :
    (m : MemoryAllocator) (size p : ℕ)
    → (expand_memory m size).0 ≡ ok p
    → (p ≡ m.next_mem) × ((expand_memory m size).1 ≡ grown m size)
unfolding expand_memory
expand_memory-ok m size p e = ground arith

module _ {start : ℕ} {live : List FreeMemory} {m : MemoryAllocator}
    (h : IsPartition start live m) where
  abbrev slot_at : ℕ → ℕ → FreeMemory
  slot_at p size = record { position = p; size = size }

  grown-IsPartition : (size : ℕ) → IsPartition start (slot_at m.next_mem size ∷ live) (grown m size)
  unfolding grown
  grown-IsPartition size = record {
    low = ground (arith, h.low);
    high = omega arith;
    exact = λ x. ground (arith, h.low, h.exact x);
  }

  after_scan-IsPartition :
      (size p : ℕ) (r : Scan)
      → Cuts size m.deallocated_mem r
      → (after_scan m size r).0 ≡ ok p
      → IsPartition start (slot_at p size ∷ live) (after_scan m size r).1
  unfolding after_scan
  after_scan-IsPartition size p miss c e =
      let (same, state) = expand_memory-ok m size p e in rw (same, state) (grown-IsPartition size)
  after_scan-IsPartition size p (hit q rest) c e = record {
    low = h.low;
    high = h.high;
    exact = λ x. ground (arith, h.exact x, c x);
  }
  after_scan-IsPartition size p panic c e = absurd c

  -- The slot that `allocate_memory` hands out joins the live ones, and these and the free slots
  -- again partition the memory in use.
  pub allocate_memory-IsPartition :
      (size p : ℕ)
      → (allocate_memory m (pos size)).0 ≡ ok p
      → IsPartition start (slot_at p size ∷ live) (allocate_memory m (pos size)).1
  unfolding allocate_memory
  allocate_memory-IsPartition size p e = elim (Bool-cases (size % 32 == 0)) [
    | inl aligned ↦ rw aligned (
        after_scan-IsPartition size p (scan size m.deallocated_mem)
          (scan-Cuts size m.deallocated_mem) (rw aligned at e))
    | inr odd ↦ cc (rw odd at e)
  ]

-- The first free slot with room, in the order of the list.
abbrev pub first_fit : ℕ → List FreeMemory → Option ℕ
first_fit size [] = none
first_fit size (f ∷ fs) = if leb size f.size then some f.position else first_fit size fs

-- The result that a client may expect.
abbrev pub expected_position : MemoryAllocator → ℕ → Option ℕ → Result ℕ
expected_position m size (some p) = ok p
expected_position m size none =
    if leb allocation_limit (max m.size_of_mem (m.next_mem + size))
    then (err memory_allocation_exception)
    else ok m.next_mem

after_scan-skip_slot :
    (m : MemoryAllocator) (size : ℕ) (f : FreeMemory) (r : Scan)
    → (after_scan m size (skip_slot f r)).0 ≡ (after_scan m size r).0
unfolding after_scan skip_slot
after_scan-skip_slot m size f miss = refl
after_scan-skip_slot m size f (hit p rest) = refl
after_scan-skip_slot m size f panic = refl

after_scan-used_part :
    (m : MemoryAllocator) (size : ℕ) (f : FreeMemory) (fs : List FreeMemory)
    → size < f.size
    → (after_scan m size (used_part fs (partially_allocate f size))).0 ≡ ok f.position
unfolding after_scan used_part partially_allocate
after_scan-used_part m size f fs h = ground arith

module _ (m : MemoryAllocator) (size : ℕ) (aligned : size % 32 ≡ 0) where
  after_scan-first_fit :
      (fs : List FreeMemory)
      → (after_scan m size (scan size fs)).0 ≡ expected_position m size (first_fit size fs)
  unfolding scan
  after_scan-first_fit [] = unfold after_scan expand_memory grown in rw aligned (ground arith)
  after_scan-first_fit (f ∷ fs) =
      let later = after_scan-first_fit fs in
      elim (Bool-cases (f.size == size)) [
        | inl same ↦
            let fits : leb size f.size ≡ true = ground arith in
            rw (same, fits) (unfold after_scan in refl)
        | inr other ↦ elim (Bool-cases (ltb size f.size)) [
          | inl less ↦
              let fits : leb size f.size ≡ true = ground arith in
              rw (other, less, fits) (after_scan-used_part m size f fs (ltb→lt _ _ less))
          | inr more ↦
              let small : leb size f.size ≡ false = ground arith in
              rw (other, more, small) (after_scan-skip_slot m size f (scan size fs) ∙ later)
        ]
      ]

-- On whole words `allocate_memory` takes the first free slot with room; without one it extends
-- the memory, and raises `MemoryAllocationException` exactly if 2 ** 64 bytes are reached.
pub allocate_memory-first_fit :
    (m : MemoryAllocator) (size : ℕ)
    → size % 32 ≡ 0
    → (allocate_memory m (pos size)).0 ≡ expected_position m size (first_fit size m.deallocated_mem)
unfolding allocate_memory
allocate_memory-first_fit m size aligned =
    rw aligned (after_scan-first_fit m size aligned m.deallocated_mem)
