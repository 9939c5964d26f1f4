-- ===== src/Venom/VenomToAssembly/Simulation.antt =====
-- vyper/venom/venom_to_assembly.py: the instructions emitted do on the machine's stack what the
-- model of the stack says. A literal stands for its word in two's complement, and a name for a
-- word: an address for a label, the value at run time for a variable, whose names the labels do not
-- share.
use Prim.Native.String.{String}
use mathlib.Core.List.{append-nil, append_assoc}
use vysvm.Venom.Operand.{literal, variable, ir_label, IrOperand}
use vysvm.Venom.VenomToAssembly.{
  extend_by, Emission, evm_swap_for, swap_below_top, emit_swap, emission,
}
use vysvm.Evm.Machine.{
  exchange_top, copy_up, Other, Machine, run_items, StackOp, do_op, ready, stack_op, do_swap,
  do_dup, with_stack,
}
use vysvm.Common.{
  ℕ, List, map, get_elem?, ◌<◌, ◌≡◌, length, ◌++◌, Option, some, set, ◌∙◌, ◌∷◌, arith, [], ap, sym,
  get_elem?_bounded, Option-cases, refl, suc, zero, none, inl, inr, false,
}
use vysvm.Venom.StackModel.{StackModel, swap}
use vysvm.Evm.Assembler.Instructions.{AssemblyInstruction, mnemonic}
use vysvm.Common.Int.{negsuc, pos, ℤ, ltb_ℤ}
use vysvm.Common.Errors.{ok, bind_succeeds}
use vysvm.Evm.Machine.Pushes.{run_items-stack_op, run_items-append}
use vysvm.Evm.StackNames.{swap_names}
use vysvm.Venom.VenomToAssembly.Success.{swap_succeeds}
use mathlib.Core.Path.{subst}
use vysvm.Evm.Machine.Names.{swap_names-stack_op}
use vysvm.Venom.ConstantEval.Words.{word_of}

unfoldable pub operand_word : (String → ℕ) → IrOperand → ℕ
unfolding word_of
operand_word names (literal value) = word_of value
operand_word names (variable v) = names v
operand_word names (ir_label l) = names l

abbrev pub words : (String → ℕ) → StackModel → List ℕ
words names stack = map (operand_word names) stack

pub get_elem?-map :
    (f : IrOperand → ℕ) (stack : StackModel) (below : List ℕ) (n : ℕ) (x : IrOperand)
    → get_elem? stack n ≡ some x
    → get_elem? (map f stack ++ below) n ≡ some (f x)
get_elem?-map f [] below n x h = cc
get_elem?-map f (y ∷ stack) below zero x h = let d : y ≡ x = cc in rw d refl
get_elem?-map f (y ∷ stack) below (suc n) x h = get_elem?-map f stack below n x h

pub set-map :
    (f : IrOperand → ℕ) (stack : StackModel) (below : List ℕ) (n : ℕ) (x : IrOperand)
    → n < length stack
    → set (map f stack ++ below) n (f x) ≡ map f (set stack n x) ++ below
set-map f [] below n x h = absurd (omega arith)
set-map f (y ∷ stack) below zero x h = refl
set-map f (y ∷ stack) below (suc n) x h =
    ap (λ l. f y ∷ l) (set-map f stack below n x (omega arith))

module _ {W : Type 0} (other : Other W) (names : String → ℕ) (below : List ℕ) (w : W) where
  -- The machine whose stack the model describes, above what was there at first.
  abbrev pub machine_of : StackModel → Machine W
  machine_of stack = ready (words names stack ++ below) w

  -- From one point of code generation to a later one, what was emitted brings the machine from
  -- the stack that the model had to the one that it has.
  pub record Simulates (before after : Emission) : Type 0 where
    pub items : List AssemblyInstruction
    pub emitted : after.assembly ≡ before.assembly ++ items
    pub runs : run_items names other items (machine_of before.stack) ≡ some (machine_of after.stack)

  pub Simulates-refl :
      (e : Emission) (stack : StackModel)
      → words names stack ≡ words names e.stack
      → Simulates e (emission e.assembly stack)
  unfolding run_items
  Simulates-refl e stack h = record {
    items = [];
    emitted = sym (append-nil e.assembly);
    runs = ap (λ l. some (ready (l ++ below) w)) (sym h);
  }

  pub Simulates-trans : (e f g : Emission) → Simulates e f → Simulates f g → Simulates e g
  Simulates-trans e f g first second = record {
    items = first.items ++ second.items;
    emitted =
        second.emitted
        ∙ ap (λ l. l ++ second.items) first.emitted
        ∙ append_assoc e.assembly first.items second.items;
    runs =
        run_items-append names other first.items second.items (machine_of e.stack)
          (machine_of f.stack) first.runs
        ∙ second.runs;
  }

  -- One mnemonic.
  pub simulate_op :
      (s : String) (o : StackOp) (e : Emission) (stack : StackModel)
      → stack_op s ≡ some o
      → do_op o (words names e.stack ++ below) w ≡ some (machine_of stack)
      → Simulates e (extend_by (mnemonic s ∷ []) stack e)
  unfolding run_items
  simulate_op s o e stack h k = record {
    items = mnemonic s ∷ [];
    emitted = refl;
    runs =
        run_items-stack_op names other s o [] (words names e.stack ++ below) w (machine_of stack) h
          k;
  }

  do_swap-words :
      (n : ℕ) (t x : IrOperand) (rest : StackModel)
      → get_elem? rest n ≡ some x
      → do_op (exchange_top n) (words names (t ∷ rest) ++ below) w
        ≡ some (machine_of (x ∷ set rest n t))
  unfolding do_op do_swap with_stack
  do_swap-words n t x rest h =
      rw (do_swap, get_elem?-map (operand_word names) rest below n x h)
        (ap (λ l. some (ready (operand_word names x ∷ l) w))
          (set-map (operand_word names) rest below n t (get_elem?_bounded rest n x h)))

  pub do_dup-words :
      (n : ℕ) (x : IrOperand) (stack : StackModel)
      → get_elem? stack n ≡ some x
      → do_op (copy_up n) (words names stack ++ below) w ≡ some (machine_of (x ∷ stack))
  unfolding do_op do_dup with_stack
  do_dup-words n x stack h = rw (do_dup, get_elem?-map (operand_word names) stack below n x h) refl

  evm_swap_for_succeeds :
      (n : ℕ) (s : String) → evm_swap_for (negsuc n) ≡ ok s → stack_op s ≡ some (exchange_top n)
  unfolding evm_swap_for
  evm_swap_for_succeeds n s h = elim (Option-cases (get_elem? swap_names n)) [
    | inl e ↦ cc (rw (evm_swap_for, e) at h)
    | inr (t, e) ↦
        let d : ok t ≡ ok s = rw (evm_swap_for, e) at h in
        let k : t ≡ s = cc in swap_names-stack_op n s (rw k at e)
  ]

  swap_below_top-Simulates :
      (n : ℕ) (e after : Emission) (cost : ℕ)
      → swap_below_top (negsuc n) e ≡ ok (after, cost)
      → Simulates e after
  unfolding swap_below_top
  swap_below_top-Simulates n e after cost h =
      let (stack, p, k) = bind_succeeds (swap (some (negsuc n)) e.stack) _ h in
      let (name, q, r) = bind_succeeds (evm_swap_for (negsuc n)) _ k in
      let (t, rest, x, parts, g, d) = swap_succeeds n e.stack stack p in
      let done : extend_by (mnemonic name ∷ []) stack e ≡ after = cc in
      subst (Simulates e) done (
        simulate_op name (exchange_top n) e stack (evm_swap_for_succeeds n name q)
          (rw (parts, d) (do_swap-words n t x rest g)))

  swap_below_top_pos :
      (n : ℕ) (e after : Emission) (cost : ℕ)
      → swap_below_top (pos n) e ≡ ok (after, cost)
      → Simulates e after
  unfolding swap_below_top swap
  swap_below_top_pos n e after cost h =
      let (stack, p, k) = bind_succeeds (swap (some (pos n)) e.stack) _ h in
      let above : ltb_ℤ (pos n) (pos 0) ≡ false = ground arith in cc (rw (swap, above) at p)

  pub emit_swap-Simulates :
      (depth : Option ℤ) (e after : Emission) (cost : ℕ)
      → emit_swap depth e ≡ ok (after, cost)
      → Simulates e after
  unfolding emit_swap
  emit_swap-Simulates none e after cost h = cc
  emit_swap-Simulates (some (pos zero)) e after cost h =
      let d : e ≡ after = cc in rw (sym d) (Simulates-refl e e.stack refl)
  emit_swap-Simulates (some (pos (suc n))) e after cost h =
      swap_below_top_pos (suc n) e after cost h
  emit_swap-Simulates (some (negsuc n)) e after cost h = swap_below_top-Simulates n e after cost h
