-- ===== src/Venom/MemoryLocation/Alias.antt =====
-- vyper/venom/memory_location.py: what the alias tests say of the bytes that accesses touch.
use vysvm.Venom.MemoryLocation.{
  MemoryLocation, is_zero, overlap, may_overlap, contains_fixed, completely_contains, location,
}
use vysvm.Common.{Option, ℕ, ◌≡◌, some, true, false, arith, none, ◌⊎◌, inl, inr, if◌then◌else◌}
use vysvm.Common.Int.{ℤ, pos, ◌≤ℤ◌, ◌<ℤ◌, ◌+ℤ◌, leb_ℤ}

-- A number that a location may stand for.
unfoldable pub Fits : Option ℤ → ℤ → Type 0
Fits none _ = Unit
Fits (some n) m = n ≡ m

-- Addresses are integers: neither the code nor the model wraps one around.
-- An access of `size` bytes at `offset` that a location describes.
pub record Covers (l : MemoryLocation) (offset size : ℤ) : Type 0 where
  pub offset_fits : Fits l.offset offset
  pub size_fits : Fits l.size size

-- The addresses of an access.
unfoldable pub Touches : ℤ → ℤ → ℤ → Type 0
Touches offset size a = (offset ≤ℤ a) × (a <ℤ offset +ℤ size)

pub Apart : ℤ → ℤ → ℤ → ℤ → Type 0
unfolding Touches
Apart o1 s1 o2 s2 = (a : ℤ) → Touches o1 s1 a → ¬ (Touches o2 s2 a)

is_zero-Fits : (s : Option ℤ) (n : ℤ) → Fits s n → is_zero s ≡ true → n ≡ pos 0
unfolding Fits is_zero
is_zero-Fits none n _ z = ground arith
is_zero-Fits (some m) n f z = ground arith

overlap-Apart :
    (o1 s1 o2 s2 : Option ℤ) (a n b m : ℤ)
    → Fits o1 a
    → Fits s1 n
    → Fits o2 b
    → Fits s2 m
    → overlap o1 s1 o2 s2 ≡ false
    → Apart a n b m
unfolding overlap Fits Apart Touches ◌+ℤ◌
overlap-Apart none s1 o2 s2 a n b m f g h k e = ground arith
overlap-Apart (some _) s1 none s2 a n b m f g h k e = ground arith
overlap-Apart (some x) (some y) (some z) (some w) a n b m f g h k e = λ c p q. ground arith
overlap-Apart (some x) (some y) (some z) none a n b m f g h k e = λ c p q. ground arith
overlap-Apart (some x) none (some z) (some w) a n b m f g h k e = λ c p q. ground arith
overlap-Apart (some x) none (some z) none a n b m f g h k e = ground arith

overlap_or_empty :
    (l1 l2 : MemoryLocation)
    → may_overlap l1 l2 ≡ false
    → (is_zero l1.size ≡ true)
      ⊎ ((is_zero l2.size ≡ true) ⊎ (overlap l1.offset l1.size l2.offset l2.size ≡ false))
unfolding may_overlap
overlap_or_empty l1 l2 e = ground arith

-- Where may_overlap answers False, accesses that the two locations describe share no address,
-- whatever the offsets and sizes that the locations leave open.
pub may_overlap-Apart :
    (l1 l2 : MemoryLocation) (o1 s1 o2 s2 : ℤ)
    → Covers l1 o1 s1
    → Covers l2 o2 s2
    → may_overlap l1 l2 ≡ false
    → (a : ℤ) → Touches o1 s1 a
    → ¬ (Touches o2 s2 a)
unfolding Touches Apart ◌+ℤ◌
may_overlap-Apart l1 l2 o1 s1 o2 s2 c d e = elim (overlap_or_empty l1 l2 e) [
  | inl z ↦ λ a p q. ground (arith, is_zero-Fits l1.size s1 c.size_fits z)
  | inr (inl z) ↦ λ a p q. ground (arith, is_zero-Fits l2.size s2 d.size_fits z)
  | inr (inr z) ↦
      overlap-Apart l1.offset l1.size l2.offset l2.size o1 s1 o2 s2 c.offset_fits c.size_fits
        d.offset_fits d.size_fits z
]

-- For locations whose offsets and sizes are known, no size being negative, may_overlap answers
-- True only if they share an address.
pub may_overlap-exact :
    (o1 : ℤ) (s1 : ℕ) (o2 : ℤ) (s2 : ℕ)
    → may_overlap (location (some o1) (some (pos s1))) (location (some o2) (some (pos s2))) ≡ true
    → (a : ℤ) × (Touches o1 (pos s1) a × Touches o2 (pos s2) a)
unfolding may_overlap Touches is_zero overlap ◌+ℤ◌
may_overlap-exact o1 s1 o2 s2 e = (if leb_ℤ o1 o2 then o2 else o1, ground arith)

-- may_overlap does not depend on the order of the two locations.
pub may_overlap_comm : (l1 l2 : MemoryLocation) → may_overlap l1 l2 ≡ may_overlap l2 l1
unfolding may_overlap overlap is_zero
may_overlap_comm l1 l2 = ground arith

contains_fixed-Touches :
    (o1 s1 o2 s2 : Option ℤ) (a n b m : ℤ)
    → Fits o1 a
    → Fits s1 n
    → Fits o2 b
    → Fits s2 m
    → contains_fixed o1 s1 o2 s2 ≡ true
    → (c : ℤ) → Touches b m c
    → Touches a n c
unfolding contains_fixed Fits Touches ◌+ℤ◌
contains_fixed-Touches (some x) (some y) (some z) (some w) a n b m f g h k e = λ c p. ground arith
contains_fixed-Touches none s1 o2 s2 a n b m f g h k e = ground arith
contains_fixed-Touches (some _) none o2 s2 a n b m f g h k e = ground arith
contains_fixed-Touches (some _) (some _) none s2 a n b m f g h k e = ground arith
contains_fixed-Touches (some _) (some _) (some _) none a n b m f g h k e = ground arith

contains_or_empty :
    (l1 l2 : MemoryLocation)
    → completely_contains l1 l2 ≡ true
    → (is_zero l2.size ≡ true) ⊎ (contains_fixed l1.offset l1.size l2.offset l2.size ≡ true)
unfolding completely_contains
contains_or_empty l1 l2 e = ground arith

-- Where completely_contains answers True, an access that the other location describes touches
-- only addresses that the first does.
pub completely_contains-Touches :
    (l1 l2 : MemoryLocation) (o1 s1 o2 s2 : ℤ)
    → Covers l1 o1 s1
    → Covers l2 o2 s2
    → completely_contains l1 l2 ≡ true
    → (a : ℤ) → Touches o2 s2 a
    → Touches o1 s1 a
unfolding Touches ◌+ℤ◌
completely_contains-Touches l1 l2 o1 s1 o2 s2 c d e = elim (contains_or_empty l1 l2 e) [
  | inl z ↦ λ a p. ground (arith, is_zero-Fits l2.size s2 d.size_fits z)
  | inr z ↦
      contains_fixed-Touches l1.offset l1.size l2.offset l2.size o1 s1 o2 s2 c.offset_fits
        c.size_fits d.offset_fits d.size_fits z
]
