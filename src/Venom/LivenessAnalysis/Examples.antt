-- ===== src/Venom/LivenessAnalysis/Examples.antt =====
-- vyper/venom/analysis/liveness.py: a block that reads a variable, and two `phi` that exchange two.
use vysvm.Common.Int.{pos}
use vysvm.Venom.Operand.{variable, literal, ir_label, eq_operand}
use vysvm.Common.{
  ℕ, ◌+◌, All, if◌then◌else◌, Bool-cases, inl, inr, List, ◌∷◌, [], some, ◌≡◌, none, refl,
}
use vysvm.Utils.OrderedSet.{drop_many, add_many, contains_item, add_item, discard_item}
use vysvm.Venom.LivenessAnalysis.{
  input_vars_from, live_through, output_variables, input_vars_loop, phi_inputs, choose_phi,
  phi_operands,
}
use vysvm.Venom.VenomToAssembly.Instruction.{VenomInstruction, input_variables}
use vysvm.Venom.LivenessAnalysis.Blocks.{
  Argument, word, Env, ReadsOthers, Agree, run_block, live_through-run_block,
}
use vysvm.Venom.VenomToAssembly.Reorder.{in_operands}
use vysvm.Common.Eq.{str_eq, String_Eq}
use vysvm.Common.Errors.{ok}
use Prim.Native.String.{String}

abbrev add_one : List VenomInstruction
add_one =
    record { opcode = "add"; operands = variable "%1" ∷ literal (pos 1) ∷ []; output = some "%2" }
    ∷ record { opcode = "mstore"; operands = variable "%2" ∷ variable "%3" ∷ []; output = none }
    ∷ []

-- The sum of the words, and the number of instructions that ran.
abbrev add_words : List Argument → ℕ
add_words = elim [ [] ↦ 0 | a ∷ (rest → total) ↦ elim a [ word n ↦ n + total | _ ↦ total ] ]

abbrev adding : String → List Argument → ℕ → ℕ × ℕ
adding opcode arguments count = (add_words arguments, count + 1)

abbrev threes : Env
threes _ = 3

abbrev other_second : Env
other_second x = if str_eq x "%2" then 9 else 3

reads_others : All ReadsOthers add_one
unfolding ReadsOthers contains_item input_variables output_variables
reads_others = (
  λ x h. elim (Bool-cases (str_eq x "%1")) [
    | inl p ↦ let e : x ≡ "%1" = (String_Eq.eqb_iff x "%1").0 p in rw e refl
    | inr p ↦ cc (rw p at h)
  ],
  (λ x h. refl, tt),
)

agree : Agree (live_through add_one ("%4" ∷ [])).0 threes other_second
unfolding Agree live_through input_variables output_variables contains_item add_item discard_item
    drop_many add_many
agree x h = elim (Bool-cases (str_eq x "%2")) [
  | inl p ↦ let e : x ≡ "%2" = (String_Eq.eqb_iff x "%2").0 p in cc (rw e at h)
  | inr p ↦ rw p refl
]

live_through-run_block_example :
    ((run_block adding add_one threes 0).1 ≡ (run_block adding add_one other_second 0).1)
    × Agree
        ("%4" ∷ [])
        (run_block adding add_one threes 0).0
        (run_block adding add_one other_second 0).0
live_through-run_block_example =
    live_through-run_block adding add_one ("%4" ∷ []) threes other_second 0 reads_others agree

abbrev increment : List VenomInstruction
increment =
    record { opcode = "add"; operands = variable "%1" ∷ literal (pos 1) ∷ []; output = some "%1" }
    ∷ []

-- The variable is read before it is defined.
lost_read : (live_through increment []).0 ≡ []
unfolding live_through input_variables output_variables contains_item add_item discard_item
    drop_many add_many
lost_read = refl

abbrev exchanging : List VenomInstruction
exchanging =
    record {
      opcode = "phi";
      operands = ir_label "a" ∷ variable "%1" ∷ ir_label "b" ∷ variable "%2" ∷ [];
      output = some "%3";
    }
    ∷ record {
      opcode = "phi";
      operands = ir_label "a" ∷ variable "%2" ∷ ir_label "b" ∷ variable "%1" ∷ [];
      output = some "%4";
    }
    ∷ []

-- From either block both variables are read, but one of them is left.
lost_argument : input_vars_from "a" exchanging [] ≡ ok ("%2" ∷ [])
unfolding input_vars_from input_vars_loop phi_inputs choose_phi phi_operands in_operands eq_operand
    add_item discard_item contains_item
lost_argument = refl
