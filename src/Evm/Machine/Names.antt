-- ===== src/Evm/Machine/Names.antt =====
-- The machine reads each mnemonic of the stack as what it is.
use Prim.Native.String.{String}
use vysvm.Common.{ℕ, List, [], ◌∷◌, get_elem?, ◌≡◌, some, suc, ◌+◌, arith, sym, zero, refl}
use vysvm.Evm.Machine.{StackOp, stack_op, exchange_top, copy_up, push_bytes, discard_top}
use vysvm.Evm.StackNames.{swap_names, dup_names, push_names}

-- The names of the list are read as the operations of their numbers.
ReadAs : (ℕ → StackOp) → ℕ → List String → Type 0
ReadAs f i [] = Unit
ReadAs f i (s ∷ names) = (stack_op s ≡ some (f i)) × ReadAs f (suc i) names

at_index :
    (f : ℕ → StackOp) (i n : ℕ) (names : List String) (s : String)
    → ReadAs f i names
    → get_elem? names n ≡ some s
    → stack_op s ≡ some (f (i + n))
unfolding ReadAs
at_index f i n [] s r h = cc
at_index f i zero (t ∷ names) s (e, r) h =
    let d : t ≡ s = cc in let k : i + 0 ≡ i = omega arith in rw (k, sym d) e
at_index f i (suc n) (t ∷ names) s (e, r) h =
    let k : i + suc n ≡ suc i + n = omega arith in rw k (at_index f (suc i) n names s r h)

swaps_read : ReadAs exchange_top 0 swap_names
unfolding ReadAs stack_op
swaps_read = (
  refl,
  (
    refl,
    (
      refl,
      (
        refl,
        (
          refl,
          (
            refl,
            (refl, (refl, (refl, (refl, (refl, (refl, (refl, (refl, (refl, (refl, tt)))))))))),
          ),
        ),
      ),
    ),
  ),
)

dups_read : ReadAs copy_up 0 dup_names
unfolding ReadAs stack_op
dups_read = (
  refl,
  (
    refl,
    (
      refl,
      (
        refl,
        (
          refl,
          (
            refl,
            (refl, (refl, (refl, (refl, (refl, (refl, (refl, (refl, (refl, (refl, tt)))))))))),
          ),
        ),
      ),
    ),
  ),
)

pushes_read : ReadAs push_bytes 0 push_names
unfolding ReadAs stack_op
pushes_read = (
  refl,
  (
    refl,
    (
      refl,
      (
        refl,
        (
          refl,
          (
            refl,
            (
              refl,
              (
                refl,
                (
                  refl,
                  (
                    refl,
                    (
                      refl,
                      (
                        refl,
                        (
                          refl,
                          (
                            refl,
                            (
                              refl,
                              (
                                refl,
                                (
                                  refl,
                                  (
                                    refl,
                                    (
                                      refl,
                                      (
                                        refl,
                                        (
                                          refl,
                                          (
                                            refl,
                                            (
                                              refl,
                                              (
                                                refl,
                                                (
                                                  refl,
                                                  (
                                                    refl,
                                                    (
                                                      refl,
                                                      (
                                                        refl,
                                                        (refl, (refl, (refl, (refl, (refl, tt))))),
                                                      ),
                                                    ),
                                                  ),
                                                ),
                                              ),
                                            ),
                                          ),
                                        ),
                                      ),
                                    ),
                                  ),
                                ),
                              ),
                            ),
                          ),
                        ),
                      ),
                    ),
                  ),
                ),
              ),
            ),
          ),
        ),
      ),
    ),
  ),
)

pub swap_names-stack_op :
    (n : ℕ) (s : String) → get_elem? swap_names n ≡ some s → stack_op s ≡ some (exchange_top n)
swap_names-stack_op n s h =
    let k : 0 + n ≡ n = omega arith in rw k at (at_index exchange_top 0 n swap_names s swaps_read h)

pub dup_names-stack_op :
    (n : ℕ) (s : String) → get_elem? dup_names n ≡ some s → stack_op s ≡ some (copy_up n)
dup_names-stack_op n s h =
    let k : 0 + n ≡ n = omega arith in rw k at (at_index copy_up 0 n dup_names s dups_read h)

pub push_names-stack_op :
    (n : ℕ) (s : String) → get_elem? push_names n ≡ some s → stack_op s ≡ some (push_bytes n)
push_names-stack_op n s h =
    let k : 0 + n ≡ n = omega arith in rw k at (at_index push_bytes 0 n push_names s pushes_read h)

pub pop-stack_op : stack_op "POP" ≡ some discard_top
unfolding stack_op
pop-stack_op = refl
