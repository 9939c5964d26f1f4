-- ===== src/Venom/MemoryLocation/Examples.antt =====
-- vyper/venom/memory_location.py: the theorems at concrete locations.
use vysvm.Venom.MemoryLocation.{MemoryLocation, may_overlap, location, completely_contains}
use vysvm.Venom.MemoryLocation.Access.{Env}
use vysvm.Venom.MemoryLocation.Alias.{
  Fits, Touches, may_overlap-Apart, may_overlap-exact, completely_contains-Touches,
  may_overlap_comm,
}
use vysvm.Common.Int.{ℤ, pos, ◌+ℤ◌}
use vysvm.Common.{◌≡◌, some, arith, none, refl}

abbrev tail : MemoryLocation
tail = location (some (pos 32)) none

abbrev head : MemoryLocation
head = location (some (pos 0)) (some (pos 32))

abbrev half : MemoryLocation
half = location (some (pos 16)) (some (pos 16))

abbrev env : Env
env _ = 64

may_overlap-Apart_example : ¬ (Touches (pos 32) (pos 64) (pos 20))
unfolding Fits may_overlap Touches ◌+ℤ◌
may_overlap-Apart_example =
    may_overlap-Apart head tail (pos 0) (pos 32) (pos 32) (pos 64)
      (record { offset_fits = refl; size_fits = refl })
      (record { offset_fits = refl; size_fits = tt }) refl (pos 20) (omega arith, omega arith)

may_overlap-exact_example : (a : ℤ) × (Touches (pos 0) (pos 32) a × Touches (pos 16) (pos 16) a)
unfolding may_overlap ◌+ℤ◌
may_overlap-exact_example = may_overlap-exact (pos 0) 32 (pos 16) 16 refl

may_overlap_comm_example : may_overlap head tail ≡ may_overlap tail head
may_overlap_comm_example = may_overlap_comm head tail

completely_contains-Touches_example : Touches (pos 0) (pos 32) (pos 20)
unfolding Fits completely_contains Touches ◌+ℤ◌
completely_contains-Touches_example =
    completely_contains-Touches head half (pos 0) (pos 32) (pos 16) (pos 16)
      (record { offset_fits = refl; size_fits = refl })
      (record { offset_fits = refl; size_fits = refl }) refl (pos 20) (omega arith, omega arith)
