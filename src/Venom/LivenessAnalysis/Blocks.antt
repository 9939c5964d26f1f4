-- ===== src/Venom/LivenessAnalysis/Blocks.antt =====
-- vyper/venom/analysis/liveness.py: what the variables that are live at the start of a block are good
-- for. A block is run on the values of the variables and a state; what an opcode does to the values
-- of its operands and the state, the state holding all but the variables, is an argument.
use Prim.Native.String.{String}
use vysvm.Venom.Operand.{IrOperand, literal, variable, ir_label}
use vysvm.Venom.LivenessAnalysis.{live_through, live_before, LiveSet, output_variables}
use vysvm.Common.{
  or_left, or_right, ℕ, List, Option, Bool, true, false, refl, ◌∷◌, not, ◌≡◌, ◌&&◌, ◌∙◌, [], ap,
  All, none, some, map, if◌then◌else◌, Bool-cases, inl, inr,
}
use vysvm.Common.Int.{ℤ}
use vysvm.Common.Eq.{str_eq, String_Eq}
use vysvm.Venom.VenomToAssembly.Instruction.{VenomInstruction, input_variables}
use vysvm.Utils.OrderedSet.{
  contains_item, contains_item-drop_many, add_many, contains_item-add_many,
}

pub data Argument : Type 0 where
  number : ℤ → Argument
  place : String → Argument
  word : ℕ → Argument

abbrev pub Env : Type 0
Env = String → ℕ

unfoldable pub argument : Env → IrOperand → Argument
argument env (literal n) = number n
argument env (ir_label l) = place l
argument env (variable v) = word (env v)

-- The output takes the value.
unfoldable pub assign : Option String → ℕ → Env → Env
assign none value env = env
assign (some v) value env = λ x. if str_eq x v then value else env x

-- No variable is both read and defined by the instruction, as in the static single assignment form.
unfoldable pub ReadsOthers : VenomInstruction → Type 0
ReadsOthers inst =
    (x : String)
    → contains_item x (input_variables inst.operands) ≡ true
    → contains_item x (output_variables inst) ≡ false

-- The two give the variables of the set the same values.
unfoldable pub Agree : LiveSet → Env → Env → Type 0
Agree set env env' = (x : String) → contains_item x set ≡ true → env x ≡ env' x

and_intro : (a b : Bool) → a ≡ true → b ≡ false → (a && not b) ≡ true
and_intro true false p q = refl
and_intro true true p q = cc
and_intro false b p q = cc

module _ (inst : VenomInstruction) (later : LiveSet) (x : String)
    (kept : contains_item x (output_variables inst) ≡ false) where
  live_before-later : contains_item x later ≡ true → contains_item x (live_before inst later) ≡ true
  unfolding live_before
  live_before-later h =
      contains_item-drop_many x (output_variables inst)
        (add_many (input_variables inst.operands) later)
      ∙ and_intro _ _
          (contains_item-add_many x (input_variables inst.operands) later
            ∙ or_left (contains_item x later) (contains_item x (input_variables inst.operands)) h)
          kept

  live_before-read :
      contains_item x (input_variables inst.operands) ≡ true
      → contains_item x (live_before inst later) ≡ true
  unfolding live_before
  live_before-read h =
      contains_item-drop_many x (output_variables inst)
        (add_many (input_variables inst.operands) later)
      ∙ and_intro _ _
          (contains_item-add_many x (input_variables inst.operands) later
            ∙ or_right (contains_item x later) (contains_item x (input_variables inst.operands)) h)
          kept

arguments-Agree :
    (ops : List IrOperand) (env env' : Env)
    → Agree (input_variables ops) env env'
    → map (argument env) ops ≡ map (argument env') ops
unfolding input_variables Agree argument contains_item
arguments-Agree [] env env' h = refl
arguments-Agree (literal n ∷ ops) env env' h =
    ap (λ l. number n ∷ l) (arguments-Agree ops env env' h)
arguments-Agree (ir_label l ∷ ops) env env' h =
    ap (λ m. place l ∷ m) (arguments-Agree ops env env' h)
arguments-Agree (variable v ∷ ops) env env' h =
    let same : env v ≡ env' v = h v (or_left (str_eq v v) _ ((String_Eq.eqb_iff v v).1 refl)) in
    rw same (
      ap (λ l. word (env' v) ∷ l)
        (arguments-Agree ops env env' (λ x m. h x (or_right (str_eq x v) _ m))))

outputs_of : Option String → LiveSet
outputs_of output = elim output [ none ↦ [] | some v ↦ v ∷ [] ]

inputs-Agree :
    (inst : VenomInstruction) (later : LiveSet) (env env' : Env)
    → ReadsOthers inst
    → Agree (live_before inst later) env env'
    → Agree (input_variables inst.operands) env env'
unfolding Agree ReadsOthers
inputs-Agree inst later env env' r h = λ x m. h x (live_before-read inst later x (r x m) m)

-- What is assigned is the same, and any other variable keeps its value.
assign-same :
    (output : Option String) (value : ℕ) (env env' : Env) (x : String)
    → (contains_item x (outputs_of output) ≡ false → env x ≡ env' x)
    → assign output value env x ≡ assign output value env' x
unfolding assign contains_item outputs_of
assign-same none value env env' x h = h refl
assign-same (some v) value env env' x h = elim (Bool-cases (str_eq x v)) [
  | inl p ↦ rw p refl
  | inr p ↦ rw p (h (rw p refl))
]

assign-Agree :
    (inst : VenomInstruction) (later : LiveSet) (value : ℕ) (env env' : Env)
    → Agree (live_before inst later) env env'
    → Agree later (assign inst.output value env) (assign inst.output value env')
unfolding Agree output_variables outputs_of
assign-Agree inst later value env env' h = λ x m.
    assign-same inst.output value env env' x (λ kept. h x (live_before-later inst later x kept m))

module _ {S : Type 0} (perform : String → List Argument → S → ℕ × S) where
  unfoldable pub run_block : List VenomInstruction → Env → S → Env × S
  unfolding assign argument
  run_block [] env s = (env, s)
  run_block (inst ∷ rest) env s =
      let (value, s') = perform inst.opcode (map (argument env) inst.operands) s in
      run_block rest (assign inst.output value env) s'

  -- Where no instruction of the block reads the variable that it defines: started with the same
  -- values of the variables that live_through gives for the start of the block, and any values of
  -- the others, the block does the same, and leaves the same values of the variables that are live
  -- at its end.
  pub live_through-run_block :
      (instructions : List VenomInstruction) (out_vars : LiveSet) (env env' : Env) (s : S)
      → All ReadsOthers instructions
      → Agree (live_through instructions out_vars).0 env env'
      → ((run_block instructions env s).1 ≡ (run_block instructions env' s).1)
        × Agree out_vars (run_block instructions env s).0 (run_block instructions env' s).0
  unfolding live_through run_block
  live_through-run_block [] out_vars env env' s r h = (refl, h)
  live_through-run_block (inst ∷ rest) out_vars env env' s r h =
      let later = (live_through rest out_vars).0 in
      let same : map (argument env) inst.operands ≡ map (argument env') inst.operands =
        arguments-Agree inst.operands env env' (inputs-Agree inst later env env' r.0 h) in
      let done = perform inst.opcode (map (argument env') inst.operands) s in
      rw (same, run_block)
        (live_through-run_block rest out_vars (assign inst.output done.0 env)
          (assign inst.output done.0 env') done.1 r.1 (assign-Agree inst later done.0 env env' h))
