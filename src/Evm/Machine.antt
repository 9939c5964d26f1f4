-- ===== src/Evm/Machine.antt =====
-- What straight-line assembly does on the EVM's stack. The other instructions, with the memory and
-- the rest of the world that they act on, and the addresses of labels are arguments.
pub mod Names
pub mod Pushes
use Prim.Native.String.{String}
use vysvm.Common.{
  ℕ, List, Option, ◌∷◌, [], ◌++◌, none, some, get_elem?, set, suc, zero, ◌+◌, ◌*◌, if◌then◌else◌,
}
use vysvm.Common.Eq.{str_eq}
use vysvm.Evm.Assembler.Instructions.{
  AssemblyInstruction, mnemonic, byte, push_label, label, push_ofst, data_item, data_header, const,
}
use vysvm.Evm.StackNames.{swap_names, dup_names, push_names}

-- The number is that of the mnemonic, less one for swaps and copies.
pub data StackOp : Type 0 where
  exchange_top copy_up push_bytes : ℕ → StackOp
  discard_top : StackOp

pub numbered : (ℕ → StackOp) → ℕ → List String → List (String × StackOp)
numbered f i [] = []
numbered f i (s ∷ names) = (s, f i) ∷ numbered f (suc i) names

pub find_op : String → List (String × StackOp) → Option StackOp
find_op s [] = none
find_op s ((t, o) ∷ table) = if str_eq s t then some o else find_op s table

unfoldable pub stack_op : String → Option StackOp
unfolding find_op numbered
stack_op s = find_op s (
    ("POP", discard_top)
    ∷ (numbered exchange_top 0 swap_names
        ++ (numbered copy_up 0 dup_names ++ numbered push_bytes 0 push_names)))

-- The stack, its top first, and the world; within a push also the number of bytes that follow the
-- next, and the value of those before it.
pub data Machine (W : Type 0) : Type 0 where
  ready : List ℕ → W → Machine W
  reading : ℕ → ℕ → List ℕ → W → Machine W

unfoldable pub do_swap : ℕ → List ℕ → Option (List ℕ)
do_swap n [] = none
do_swap n (t ∷ rest) = elim (get_elem? rest n) [ none ↦ none | some x ↦ some (x ∷ set rest n t) ]

unfoldable pub do_dup : ℕ → List ℕ → Option (List ℕ)
do_dup n stack = elim (get_elem? stack n) [ none ↦ none | some x ↦ some (x ∷ stack) ]

unfoldable pub do_pop : List ℕ → Option (List ℕ)
do_pop [] = none
do_pop (x ∷ stack) = some stack

-- What an instruction does that is none of these.
abbrev pub Other : Type 0 → Type 0
Other W = AssemblyInstruction → List ℕ → W → Option (Machine W)

module _ {W : Type 0} where
  unfoldable pub with_stack : W → Option (List ℕ) → Option (Machine W)
  with_stack w none = none
  with_stack w (some stack) = some (ready stack w)

  unfoldable pub do_op : StackOp → List ℕ → W → Option (Machine W)
  do_op (exchange_top n) stack w = with_stack w (do_swap n stack)
  do_op (copy_up n) stack w = with_stack w (do_dup n stack)
  do_op discard_top stack w = with_stack w (do_pop stack)
  do_op (push_bytes zero) stack w = some (ready (0 ∷ stack) w)
  do_op (push_bytes (suc n)) stack w = some (reading n 0 stack w)

  unfoldable pub do_mnemonic : Other W → String → List ℕ → W → Option (Machine W)
  do_mnemonic other s stack w = elim (stack_op s) [
    | some o ↦ do_op o stack w
    | none ↦ other (mnemonic s) stack w
  ]

  unfoldable pub run_item :
      (String → ℕ) → Other W → AssemblyInstruction → Machine W → Option (Machine W)
  run_item address other (byte b) (reading zero word stack w) =
      some (ready ((word * 256 + b) ∷ stack) w)
  run_item address other (byte b) (reading (suc n) word stack w) =
      some (reading n (word * 256 + b) stack w)
  run_item address other item (reading n word stack w) = none
  run_item address other (mnemonic s) (ready stack w) = do_mnemonic other s stack w
  run_item address other (push_label l) (ready stack w) = some (ready (address l ∷ stack) w)
  run_item address other item (ready stack w) = other item stack w

  unfoldable pub run_items :
      (String → ℕ) → Other W → List AssemblyInstruction → Machine W → Option (Machine W)
  run_items address other [] m = some m
  run_items address other (item ∷ items) m = elim (run_item address other item m) [
    | none ↦ none
    | some next ↦ run_items address other items next
  ]
