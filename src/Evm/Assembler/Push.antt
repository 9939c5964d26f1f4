-- ===== src/Evm/Assembler/Push.antt =====
-- The immediate bytes of `PUSH` and of `PUSH_N` are the value, in big-endian order.
use native.Mathlib.Nat.{pow-suc}
use vysvm.Evm.Assembler.Instructions.{
  num_loop, num_to_bytearray, push, push_n, push_n_loop, pad_zero, shanghai,
}
use vysvm.Utils.Bytes.{bytes_to_int, bytes_loop}
use vysvm.Common.{
  ℕ, ◌<◌, List, ◌≡◌, ◌≤◌, All, ◌^◌, suc, arith, if_cases, ◌/◌, Bool-cases, ltb, ◌*◌, ◌%◌, length,
  ◌∷◌, ◌+◌, inl, ◌∙◌, zero, ap, refl, inr, [], leb,
}
use vysvm.Common.Errors.{ok}
use vysvm.Evm.Assembler.Sizes.{length-push_n_loop}

abbrev IsByte : ℕ → Type 0
IsByte b = b < 256

-- The loop puts the digits of `x` before those that are done.
num_loop-value :
    (fuel x : ℕ) (bs : List ℕ) → x ≤ fuel → bytes_loop 0 (num_loop fuel x bs) ≡ bytes_loop x bs
unfolding num_loop bytes_loop
num_loop-value zero x bs h = let e : x ≡ 0 = omega arith in rw e refl
num_loop-value (suc fuel) x bs h = elim (Bool-cases (ltb 0 x)) [
  | inl more ↦
      let digit : x / 256 * 256 + x % 256 ≡ x = omega arith in
      rw more (
        num_loop-value fuel (x / 256) (x % 256 ∷ bs) (ground arith)
        ∙ ap (λ (v : ℕ). bytes_loop v bs) digit)
  | inr done ↦ let e : x ≡ 0 = ground arith in rw e refl
]

num_loop-IsByte : (fuel x : ℕ) (bs : List ℕ) → All IsByte bs → All IsByte (num_loop fuel x bs)
unfolding num_loop
num_loop-IsByte zero x bs h = h
num_loop-IsByte (suc fuel) x bs h =
    if_cases (All IsByte) (ltb 0 x)
      (λ _. num_loop-IsByte fuel (x / 256) (x % 256 ∷ bs) (omega arith, h)) (λ _. h)

pad_zero-value : (version : ℕ) (bs : List ℕ) → bytes_loop 0 (pad_zero version bs) ≡ bytes_loop 0 bs
unfolding pad_zero bytes_loop
pad_zero-value version [] =
    if_cases (λ l. bytes_loop 0 l ≡ 0) (leb shanghai version) (λ _. refl) (λ _. refl)
pad_zero-value version (b ∷ bs) = refl

pad_zero-IsByte : (version : ℕ) (bs : List ℕ) → All IsByte bs → All IsByte (pad_zero version bs)
unfolding pad_zero
pad_zero-IsByte version [] h =
    if_cases (All IsByte) (leb shanghai version) (λ _. tt) (λ _. (omega arith, tt))
pad_zero-IsByte version (b ∷ bs) h = h

-- In every version, what `PUSH(x)` pushes are bytes that read back as `x`.
pub bytes_to_int-push :
    (version x : ℕ) → (bytes_to_int (push version x) ≡ x) × All IsByte (push version x)
unfolding push bytes_to_int num_to_bytearray
bytes_to_int-push version x = (
  pad_zero-value version (num_loop x x []) ∙ num_loop-value x x [] (omega arith),
  pad_zero-IsByte version (num_loop x x []) (num_loop-IsByte x x [] tt),
)

push_n_loop-value :
    (n x : ℕ) (o : List ℕ) → bytes_loop (push_n_loop n x o).1 (push_n_loop n x o).0 ≡ bytes_loop x o
unfolding push_n_loop bytes_loop
push_n_loop-value zero x o = refl
push_n_loop-value (suc n) x o =
    let digit : x / 256 * 256 + x % 256 ≡ x = omega arith in
    push_n_loop-value n (x / 256) (x % 256 ∷ o) ∙ ap (λ (v : ℕ). bytes_loop v o) digit

push_n_loop-fits : (n x : ℕ) (o : List ℕ) → x < 256 ^ n → (push_n_loop n x o).1 ≡ 0
unfolding push_n_loop
push_n_loop-fits zero x o h = omega arith
push_n_loop-fits (suc n) x o h =
    push_n_loop-fits n (x / 256) (x % 256 ∷ o) (omega (arith, pow-suc 256 n))

-- `PUSH_N(x, n)` succeeds on a value below 256 ** n, with bytes that read back as `x`.
pub bytes_to_int-push_n :
    (x n : ℕ)
    → x < 256 ^ n
    → (bs : List ℕ) × (push_n x n ≡ ok bs) × (bytes_to_int bs ≡ x) × (length bs ≡ n)
unfolding push_n bytes_to_int
bytes_to_int-push_n x n h =
    let spent = push_n_loop-fits n x [] h in
    (
      (push_n_loop n x []).0,
      rw spent refl,
      rw spent at (push_n_loop-value n x []),
      length-push_n_loop n x [] ∙ omega arith,
    )
