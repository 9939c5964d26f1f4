-- ===== src/Evm/Optimizer/Jumps.antt =====
-- vyper/evm/assembler/optimizer.py: the passes on jumps, labels and tests for zero.
use vysvm.Common.{
  List, Bool, true, false, ◌||◌, ℕ, length, ◌∷◌, Option, get_elem?, ◌-◌, suc, [], ◌&&◌, not,
  if◌then◌else◌, ◌+◌, zero, none, some,
}
use Prim.Native.String.{String}
use vysvm.Evm.Assembler.Instructions.{
  AssemblyInstruction, mnemonic, label, push_label, data_header, push_ofst, code_label, data_item,
  data_label,
}
use vysvm.Common.Eq.{str_eq}

abbrev pub Assembly : Type 0
Assembly = List AssemblyInstruction

abbrev pub Pass : Type 0
Pass = Assembly × Bool

unfoldable pub is_op : String → AssemblyInstruction → Bool
is_op name (mnemonic s) = str_eq s name
is_op name _ = false

unfoldable pub one_of : List String → AssemblyInstruction → Bool
one_of [] item = false
one_of (name ∷ names) item = is_op name item || one_of names item

unfoldable pub is_terminal : AssemblyInstruction → Bool
is_terminal item = one_of ("JUMP" ∷ "RETURN" ∷ "REVERT" ∷ "STOP" ∷ "INVALID" ∷ []) item

-- `isinstance(assembly[j], (Label, DataHeader))`
unfoldable pub next_is_reachable : AssemblyInstruction → Bool
next_is_reachable (label _) = true
next_is_reachable (data_header _) = true
next_is_reachable _ = false

unfoldable pub keep : AssemblyInstruction → Pass → Pass
keep item (rest, changed) = (item ∷ rest, changed)

unfoldable pub mark_changed : Pass → Pass
mark_changed (rest, changed) = (rest, true)

-- `dead` after a terminal instruction, up to the next label or header.
unfoldable pub prune_from : Bool → Assembly → Pass
prune_from dead [] = ([], false)
prune_from dead (item ∷ rest) = elim (dead && not (next_is_reachable item)) [
  | true ↦ mark_changed (prune_from true rest)
  | false ↦ keep item (prune_from (is_terminal item) rest)
]

unfoldable pub prune_unreachable_code : Assembly → Pass
prune_unreachable_code assembly = prune_from false assembly

pub is_push_label : AssemblyInstruction → Bool
is_push_label (push_label _) = true
is_push_label _ = false

-- `PUSHLABEL x`, then `LABEL x`
pub same_label : AssemblyInstruction → AssemblyInstruction → Bool
same_label (push_label x) (label y) = str_eq y x
same_label _ _ = false

pub prune_inefficient_jumps : Assembly → Pass
prune_inefficient_jumps (a ∷ b ∷ c ∷ rest) = elim (is_op "JUMP" b && same_label a c) [
  | true ↦ mark_changed (prune_inefficient_jumps (c ∷ rest))
  | false ↦ keep a (prune_inefficient_jumps (b ∷ c ∷ rest))
]
prune_inefficient_jumps assembly = (assembly, false)

-- None of the three instructions that are put in starts the sequence again.
pub optimize_inefficient_jumps : Assembly → Pass
optimize_inefficient_jumps (a ∷ b ∷ c ∷ d ∷ e ∷ rest) =
    elim (is_op "JUMPI" b && is_push_label c && is_op "JUMP" d && same_label a e) [
      | true ↦ mark_changed (
          keep (mnemonic "ISZERO")
            (keep c (keep (mnemonic "JUMPI") (optimize_inefficient_jumps (e ∷ rest)))))
      | false ↦ keep a (optimize_inefficient_jumps (b ∷ c ∷ d ∷ e ∷ rest))
    ]
optimize_inefficient_jumps assembly = (assembly, false)

pub returns_zero_or_one : AssemblyInstruction → Bool
returns_zero_or_one item =
    one_of
      ("LT" ∷ "GT" ∷ "SLT" ∷ "SGT" ∷ "EQ" ∷ "ISZERO" ∷ "CALL" ∷ "STATICCALL" ∷ "CALLCODE"
        ∷ "DELEGATECALL" ∷ [])
      item

-- The first loop at the instruction `a`.
pub merge_after : AssemblyInstruction → Assembly → Pass
merge_after a (b ∷ c ∷ rest) =
    elim (returns_zero_or_one a && is_op "ISZERO" b && is_op "ISZERO" c) [
      | true ↦ mark_changed (merge_after a rest)
      | false ↦ keep a (merge_after b (c ∷ rest))
    ]
merge_after a rest = (a ∷ rest, false)

pub merge_truthy : Assembly → Pass
merge_truthy [] = ([], false)
merge_truthy (a ∷ rest) = merge_after a rest

-- The second loop: two `ISZERO` before a conditional jump.
pub merge_before_jumpi : Assembly → Pass
merge_before_jumpi (a ∷ b ∷ c ∷ d ∷ rest) =
    elim (is_op "ISZERO" a && is_op "ISZERO" b && is_push_label c && is_op "JUMPI" d) [
      | true ↦ mark_changed (merge_before_jumpi (c ∷ d ∷ rest))
      | false ↦ keep a (merge_before_jumpi (b ∷ c ∷ d ∷ rest))
    ]
merge_before_jumpi assembly = (assembly, false)

pub merge_iszero : Assembly → Pass
merge_iszero assembly =
    let (first, c1) = merge_truthy assembly in
    let (second, c2) = merge_before_jumpi first in (second, c1 || c2)

-- The label that an instruction uses.
unfoldable pub uses : String → AssemblyInstruction → Bool
uses name (push_label l) = str_eq l name
uses name (push_ofst (code_label l) _) = str_eq l name
uses name (data_item (data_label l)) = str_eq l name
uses name _ = false

unfoldable pub used_in : String → Assembly → Bool
used_in name [] = false
used_in name (item ∷ rest) = uses name item || used_in name rest

unfoldable pub is_unused : Assembly → AssemblyInstruction → Bool
is_unused assembly (label l) = not (used_in l assembly)
is_unused assembly _ = false

unfoldable pub remove_unused : Assembly → Assembly → Pass
remove_unused whole [] = ([], false)
remove_unused whole (item ∷ rest) = elim (is_unused whole item) [
  | true ↦ mark_changed (remove_unused whole rest)
  | false ↦ keep item (remove_unused whole rest)
]

unfoldable pub prune_unused_jumpdests : Assembly → Pass
prune_unused_jumpdests assembly = remove_unused assembly assembly

-- Replace all instances of `PUSHLABEL current` by `PUSHLABEL new`.
pub relabel : String → String → Assembly → Pass
relabel current new [] = ([], false)
relabel current new (push_label l ∷ rest) = elim (str_eq l current) [
  | true ↦ mark_changed (keep (push_label new) (relabel current new rest))
  | false ↦ keep (push_label l) (relabel current new rest)
]
relabel current new (item ∷ rest) = keep item (relabel current new rest)

-- The label that the first of three instructions can be replaced by.
pub merged_into :
    AssemblyInstruction → AssemblyInstruction → AssemblyInstruction → Option (String × String)
merged_into (label x) (label y) _ = if str_eq y x then none else some (x, y)
merged_into (label x) (push_label y) c = if is_op "JUMP" c then some (x, y) else none
merged_into _ _ _ = none

pub three_at :
    ℕ → Assembly → Option (AssemblyInstruction × AssemblyInstruction × AssemblyInstruction)
three_at i assembly = elim (get_elem? assembly i) [
  | none ↦ none
  | some a ↦ elim (get_elem? assembly (i + 1)) [
    | none ↦ none
    | some b ↦ elim (get_elem? assembly (i + 2)) [ none ↦ none | some c ↦ some (a, b, c) ]
  ]
]

pub merge_at : ℕ → Assembly → Pass
merge_at i assembly = elim (three_at i assembly) [
  | none ↦ (assembly, false)
  | some (a, b, c) ↦ elim (merged_into a b c) [
    | none ↦ (assembly, false)
    | some (x, y) ↦ relabel x y assembly
  ]
]

-- The loop's body at `i`, and the rounds after it; the length of the list stays.
pub merge_from : ℕ → ℕ → Assembly → Pass
merge_from zero i assembly = (assembly, false)
merge_from (suc rounds) i assembly =
    let (merged, c1) = merge_at i assembly in
    let (rest, c2) = merge_from rounds (suc i) merged in (rest, c1 || c2)

pub merge_jumpdests : Assembly → Pass
merge_jumpdests assembly = merge_from (length assembly - 2) 0 assembly
