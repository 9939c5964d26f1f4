-- ===== src/Codegen/MemoryAllocator/Compact.antt =====
-- The free list that `deallocate_memory` leaves: in order, with no slot that could be merged with
-- the next one or returned to unallocated memory.
use vysvm.Codegen.MemoryAllocator.{
  FreeMemory, insert_by_position, sort_by_position, merge_slots, trim_last,
}
use vysvm.Common.{ℕ, List, ◌∷◌, ◌≤◌, if_cases, arith, ◌≢◌, [], leb, ◌+◌, ◌==◌, leb→le}

-- In order, from position `p` on.
abbrev pub From : ℕ → List FreeMemory → Type 0
From p [] = Unit
From p (f ∷ fs) = (p ≤ f.position) × From f.position fs

From-weaken : (p q : ℕ) (fs : List FreeMemory) → p ≤ q → From q fs → From p fs
From-weaken p q [] h s = tt
From-weaken p q (f ∷ fs) h s = (omega arith, s.1)

From-insert :
    (p : ℕ) (f : FreeMemory) (fs : List FreeMemory)
    → p ≤ f.position
    → From p fs
    → From p (insert_by_position f fs)
unfolding insert_by_position
From-insert p f [] h s = (h, tt)
From-insert p f (g ∷ gs) h s =
    if_cases (From p) (leb f.position g.position) (λ e. (h, (leb→le _ _ e, s.1)))
      (λ e. (s.0, From-insert g.position f gs (ground arith) s.1))

pub From-sort : (fs : List FreeMemory) → From 0 (sort_by_position fs)
unfolding sort_by_position
From-sort [] = tt
From-sort (f ∷ fs) = From-insert 0 f (sort_by_position fs) (omega arith) (From-sort fs)

-- In order from `p` on, no slot beginning where the one before it ends; `e` is the end before the first.
abbrev pub IsCompact : ℕ → ℕ → List FreeMemory → Type 0
IsCompact p e [] = Unit
IsCompact p e (f ∷ fs) =
    (p ≤ f.position) × (f.position ≢ e) × IsCompact f.position (f.position + f.size) fs

pub merge_slots-IsCompact :
    (p e : ℕ) (active : FreeMemory) (rest : List FreeMemory)
    → p ≤ active.position
    → active.position ≢ e
    → From active.position rest
    → IsCompact p e (merge_slots active rest)
unfolding merge_slots
merge_slots-IsCompact p e active [] h k s = (h, k, tt)
merge_slots-IsCompact p e active (g ∷ rest) h k s =
    if_cases (IsCompact p e) (g.position == active.position + active.size)
      (λ t.
        merge_slots-IsCompact p e (record active { size = active.size + g.size }) rest h k
          (From-weaken active.position g.position rest s.0 s.1))
      (λ t. (
        h,
        k,
        merge_slots-IsCompact active.position (active.position + active.size) g rest s.0
            (ground arith) s.1,
      ))

-- No slot ends where the last one must not: at the free memory pointer.
abbrev pub EndsBelow : ℕ → List FreeMemory → Type 0
EndsBelow n [] = Unit
EndsBelow n (f ∷ []) = f.position + f.size ≢ n
EndsBelow n (f ∷ g ∷ fs) = EndsBelow n (g ∷ fs)

-- What a trimmed list is: compact as before, and not ending at the pointer that it comes with.
abbrev pub IsTrimmed : ℕ → ℕ → ℕ × List FreeMemory → Type 0
IsTrimmed p e (n, fs) = IsCompact p e fs × EndsBelow n fs

IsTrimmed-cons :
    (p e : ℕ) (f g : FreeMemory) (next_mem : ℕ) (fs : List FreeMemory)
    → p ≤ f.position
    → f.position ≢ e
    → f.position ≤ g.position
    → g.position ≢ f.position + f.size
    → IsTrimmed f.position (f.position + f.size) (trim_last next_mem (g ∷ fs))
    → IsTrimmed p e (trim_last next_mem (f ∷ g ∷ fs))
unfolding trim_last
IsTrimmed-cons p e f g next_mem [] h k l n t = ground arith
IsTrimmed-cons p e f g next_mem (i ∷ fs) h k l n t = ((h, k, t.0), t.1)

pub trim_last-IsTrimmed :
    (p e next_mem : ℕ) (fs : List FreeMemory)
    → IsCompact p e fs
    → IsTrimmed p e (trim_last next_mem fs)
trim_last-IsTrimmed p e next_mem [] c = unfold trim_last in (tt, tt)
trim_last-IsTrimmed p e next_mem (f ∷ []) c = unfold trim_last in ground arith
trim_last-IsTrimmed p e next_mem (f ∷ g ∷ fs) c =
    IsTrimmed-cons p e f g next_mem fs c.0 c.1 c.2.0 c.2.1
      (trim_last-IsTrimmed f.position (f.position + f.size) next_mem (g ∷ fs) c.2)
