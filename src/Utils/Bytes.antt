-- ===== src/Utils/Bytes.antt =====
-- Integers as big-endian byte strings.
use vysvm.Common.{ℕ, List, ◌∷◌, ◌*◌, ◌+◌, []}

-- `bytes_to_int`, with the value `o` so far.
unfoldable pub bytes_loop : ℕ → List ℕ → ℕ
bytes_loop o [] = o
bytes_loop o (b ∷ bs) = bytes_loop (o * 256 + b) bs

unfoldable pub bytes_to_int : List ℕ → ℕ
unfolding bytes_loop
bytes_to_int = bytes_loop 0
