-- ===== src/Evm/Machine/Pushes.antt =====
-- The machine runs a `PUSH`, and one sequence after another.
use native.Mathlib.Nat.{pow-suc}
use vysvm.Common.{
  ℕ, get_elem?, List, ◌≤◌, ◌<◌, length, ◌^◌, if_cases, ◌≡◌, none, ◌∷◌, ◌+◌, leb, [], some, map,
  arith, ◌++◌, ◌∙◌, Option-cases, ap, suc, ltb, inl, tests, ◌*◌, inr, ◌/◌, ◌%◌, zero,
  element_exists, refl,
}
use vysvm.Evm.Assembler.Instructions.{
  num_loop, pad_zero, push, num_to_bytearray, AssemblyInstruction, mnemonic, shanghai, byte,
}
use Prim.Native.String.{String}
use vysvm.Evm.Machine.{
  Other, stack_op, Machine, run_items, run_item, do_mnemonic, ready, push_bytes, do_op, reading,
  StackOp,
}
use vysvm.Evm.StackNames.{push_names}
use vysvm.Utils.Bytes.{bytes_to_int, bytes_loop}
use vysvm.Evm.Assembler.Push.{bytes_to_int-push}
use vysvm.Evm.Machine.Names.{push_names-stack_op}

unfoldable pub push_name : ℕ → String
push_name n = elim (get_elem? push_names n) [ none ↦ "PUSH" | some s ↦ s ]

-- `PUSH(x)`: the mnemonic numbers the bytes, at most 32 of them for a word.
unfoldable pub push_items : ℕ → ℕ → List AssemblyInstruction
unfolding push_name
push_items version x = mnemonic (push_name (length (push version x))) ∷ map byte (push version x)

length-num_loop :
    (k fuel x : ℕ) (bs : List ℕ) → x < 256 ^ k → length (num_loop fuel x bs) ≤ k + length bs
unfolding num_loop
length-num_loop k zero x bs h = omega arith
length-num_loop zero (suc fuel) x bs h =
    if_cases (λ (l : List ℕ). length l ≤ 0 + length bs) (ltb 0 x) (λ e. absurd (omega tests))
      (λ _. omega arith)
length-num_loop (suc k) (suc fuel) x bs h =
    if_cases (λ (l : List ℕ). length l ≤ suc k + length bs) (ltb 0 x)
      (λ _.
        let rest = length-num_loop k fuel (x / 256) (x % 256 ∷ bs) (omega (arith, pow-suc 256 k)) in
        omega (arith, rest))
      (λ _. omega arith)

length-pad_zero : (version : ℕ) (bs : List ℕ) → length bs ≤ 32 → length (pad_zero version bs) ≤ 32
unfolding pad_zero
length-pad_zero version [] h =
    if_cases (λ (l : List ℕ). length l ≤ 32) (leb shanghai version) (λ _. omega arith)
      (λ _. omega arith)
length-pad_zero version (b ∷ bs) h = h

length-push : (version x : ℕ) → x < 2 ^ 256 → length (push version x) ≤ 32
unfolding push num_to_bytearray
length-push version x h =
    length-pad_zero version (num_loop x x [])
      (let l = length-num_loop 32 x x [] h in omega (arith, l))

push_name-stack_op : (n : ℕ) → n ≤ 32 → stack_op (push_name n) ≡ some (push_bytes n)
unfolding push_name
push_name-stack_op n h =
    let (s, e) = element_exists push_names n (omega arith) in rw e (push_names-stack_op n s e)

module _ {W : Type 0} (address : String → ℕ) (other : Other W) where
  pub run_items-append :
      (first second : List AssemblyInstruction) (start middle : Machine W)
      → run_items address other first start ≡ some middle
      → run_items address other (first ++ second) start ≡ run_items address other second middle
  unfolding run_items
  run_items-append [] second start middle h = let e : start ≡ middle = cc in rw e refl
  run_items-append (item ∷ first) second start middle h =
      elim (Option-cases (run_item address other item start)) [
        | inl e ↦ cc (rw (run_items, e) at h)
        | inr (next, e) ↦
            rw (run_items, e) (run_items-append first second next middle (rw (run_items, e) at h))
      ]

  do_mnemonic-stack_op :
      (s : String) (o : StackOp) (stack : List ℕ) (w : W)
      → stack_op s ≡ some o
      → do_mnemonic other s stack w ≡ do_op o stack w
  unfolding do_mnemonic
  do_mnemonic-stack_op s o stack w h = rw (do_mnemonic, h) refl

  -- A mnemonic of the stack does its operation.
  pub run_items-stack_op :
      (s : String) (o : StackOp) (items : List AssemblyInstruction) (stack : List ℕ) (w : W)
      (next : Machine W)
      → stack_op s ≡ some o
      → do_op o stack w ≡ some next
      → run_items address other (mnemonic s ∷ items) (ready stack w)
        ≡ run_items address other items next
  unfolding run_items run_item
  run_items-stack_op s o items stack w next h k =
      rw (run_items, do_mnemonic-stack_op s o stack w h, k) refl

  pub run_items-stack_op_fails :
      (s : String) (o : StackOp) (items : List AssemblyInstruction) (stack : List ℕ) (w : W)
      → stack_op s ≡ some o
      → do_op o stack w ≡ none
      → run_items address other (mnemonic s ∷ items) (ready stack w) ≡ none
  unfolding run_items run_item
  run_items-stack_op_fails s o items stack w h k =
      rw (run_items, do_mnemonic-stack_op s o stack w h, k) refl

  pub run_items-other_same :
      (s : String) (items : List AssemblyInstruction) (stack stack' : List ℕ) (w : W)
      → stack_op s ≡ none
      → other (mnemonic s) stack w ≡ other (mnemonic s) stack' w
      → run_items address other (mnemonic s ∷ items) (ready stack w)
        ≡ run_items address other (mnemonic s ∷ items) (ready stack' w)
  unfolding run_items run_item do_mnemonic
  run_items-other_same s items stack stack' w h e = rw (run_items, do_mnemonic, h, e) refl

  -- Another mnemonic does what the argument says.
  pub run_items-other :
      (s : String) (stack : List ℕ) (w : W) (next : Machine W)
      → stack_op s ≡ none
      → other (mnemonic s) stack w ≡ some next
      → run_items address other (mnemonic s ∷ []) (ready stack w) ≡ some next
  unfolding run_items run_item do_mnemonic
  run_items-other s stack w next h k = rw (run_items, do_mnemonic, h, k) refl

  run_bytes :
      (b : ℕ) (bs : List ℕ) (word : ℕ) (stack : List ℕ) (w : W)
      → run_items address other (map byte (b ∷ bs)) (reading (length bs) word stack w)
        ≡ some (ready (bytes_loop (word * 256 + b) bs ∷ stack) w)
  unfolding run_items run_item bytes_loop
  run_bytes b [] word stack w = refl
  run_bytes b (c ∷ bs) word stack w = run_bytes c bs (word * 256 + b) stack w

  run_immediate :
      (bs : List ℕ) (stack : List ℕ) (w : W)
      → length bs ≤ 32
      → run_items address other (mnemonic (push_name (length bs)) ∷ map byte bs) (ready stack w)
        ≡ some (ready (bytes_loop 0 bs ∷ stack) w)
  unfolding run_items run_item do_mnemonic do_op bytes_loop
  run_immediate [] stack w h =
      run_items-stack_op (push_name 0) (push_bytes 0) [] stack w (ready (0 ∷ stack) w)
        (push_name-stack_op 0 h) refl
  run_immediate (b ∷ bs) stack w h =
      run_items-stack_op (push_name (suc (length bs))) (push_bytes (suc (length bs)))
        (map byte (b ∷ bs)) stack w (reading (length bs) 0 stack w)
        (push_name-stack_op (suc (length bs)) h) refl
      ∙ run_bytes b bs 0 stack w

  -- `PUSH(x)` pushes `x`.
  pub run_items-push_items :
      (version x : ℕ) (stack : List ℕ) (w : W)
      → x < 2 ^ 256
      → run_items address other (push_items version x) (ready stack w) ≡ some (ready (x ∷ stack) w)
  unfolding push_items bytes_to_int
  run_items-push_items version x stack w h =
      run_immediate (push version x) stack w (length-push version x h)
      ∙ ap (λ v. some (ready (v ∷ stack) w)) (bytes_to_int-push version x).0
