-- ===== src/Venom/VenomToAssembly/Plain.antt =====
-- vyper/venom/venom_to_assembly.py: the opcodes of `_ONE_TO_ONE_INSTRUCTIONS` have no special case
-- in `_generate_evm_for_instruction`, and none is an instruction of the stack.
use vysvm.Common.Text.{upper, in_texts}
use vysvm.Venom.VenomToAssembly.Instruction.{one_to_one, stack_operands}
use vysvm.Common.{
  List, Option, Bool, ◌∷◌, not, true, ◌≡◌, ◌&&◌, [], Bool-cases, false, none, All, refl, some, inl,
  inr, and_parts,
}
use Prim.Native.String.{String}
use vysvm.Evm.Machine.{stack_op, StackOp}
use vysvm.Venom.Operand.{IrOperand}
use vysvm.Common.Errors.{ok}
use vysvm.Common.Eq.{str_eq, String_Eq}

abbrev special : List String
special =
    "jmp" ∷ "djmp" ∷ "jnz" ∷ "invoke" ∷ "alloca" ∷ "palloca" ∷ "calloca" ∷ "iload" ∷ "istore"
    ∷ "log" ∷ "phi" ∷ "offset" ∷ []

abbrev is_absent : Option StackOp → Bool
is_absent none = true
is_absent (some _) = false

plain : String → Bool
plain s = not (in_texts s special) && is_absent (stack_op (upper s))

all_plain : List String → Bool
all_plain [] = true
all_plain (s ∷ names) = plain s && all_plain names

one_to_one_plain : all_plain one_to_one ≡ true
unfolding all_plain plain in_texts upper stack_op
one_to_one_plain = refl

listed_plain :
    (s : String) (names : List String)
    → all_plain names ≡ true
    → in_texts s names ≡ true
    → plain s ≡ true
unfolding all_plain in_texts
listed_plain s [] a h = cc
listed_plain s (t ∷ names) a h =
    let (first, rest) = and_parts (plain t) (all_plain names) a in
    elim (Bool-cases (str_eq s t)) [
      | inl e ↦ let d : s ≡ t = (String_Eq.eqb_iff s t).0 e in rw d first
      | inr e ↦ listed_plain s names rest (rw e at h)
    ]

unlisted :
    (s : String) (names : List String)
    → in_texts s names ≡ false
    → All (λ t. str_eq s t ≡ false) names
unfolding in_texts
unlisted s [] h = tt
unlisted s (t ∷ names) h = elim (Bool-cases (str_eq s t)) [
  | inl e ↦ cc (rw e at h)
  | inr e ↦ (e, unlisted s names (rw e at h))
]

absent_none : (o : Option StackOp) → is_absent o ≡ true → o ≡ none
absent_none none h = refl
absent_none (some o) h = cc

not-true : (b : Bool) → not b ≡ true → b ≡ false
not-true false h = refl
not-true true h = cc

pub one_to_one-special :
    (s : String) → in_texts s one_to_one ≡ true → All (λ t. str_eq s t ≡ false) special
unfolding plain
one_to_one-special s h =
    let p = listed_plain s one_to_one one_to_one_plain h in
    unlisted s special (not-true (in_texts s special) (and_parts (not (in_texts s special)) _ p).0)

pub one_to_one-stack_op : (s : String) → in_texts s one_to_one ≡ true → stack_op (upper s) ≡ none
unfolding plain
one_to_one-stack_op s h =
    let p = listed_plain s one_to_one one_to_one_plain h in
    absent_none (stack_op (upper s)) (and_parts (not (in_texts s special)) _ p).1

pub one_to_one-stack_operands :
    (s : String) (ops : List IrOperand)
    → in_texts s one_to_one ≡ true
    → stack_operands s ops ≡ ok ops
unfolding stack_operands in_texts
one_to_one-stack_operands s ops h =
    let (
      jmp,
      (djmp, (jnz, (invoke, (alloca, (palloca, (calloca, (iload, (istore, (log, others))))))))),
    ) =
      one_to_one-special s h in
    rw (jmp, djmp, jnz, invoke, alloca, palloca, calloca, iload, istore, log) refl
