-- ===== src/Evm/Optimizer/Control.antt =====
-- What assembly with jumps does, by which the pass of vyper/evm/assembler/optimizer.py on unreachable
-- code is judged. It is no code of the repository. What an instruction does to a state, and whether
-- control goes on behind it, is an argument that knows of no address: a jump names its label.
use Prim.Native.String.{String}
use vysvm.Common.{ℕ, Bool, Option, ◌∷◌, [], ◌≢◌, none, some, suc, zero, if◌then◌else◌, false}
use vysvm.Common.Eq.{str_eq}
use vysvm.Evm.Assembler.Instructions.{AssemblyInstruction, label, data_header, mnemonic}
use vysvm.Evm.Optimizer.Jumps.{Assembly}

pub data Control (S : Type 0) : Type 0 where
  next : S → Control S
  jump : String → S → Control S
  halt : S → Control S

-- `unfinished` where the number of steps is not enough.
pub data End (S : Type 0) : Type 0 where
  halted : S → End S
  ran_off : S → End S
  no_target : End S
  unfinished : S → End S

unfoldable pub is_label : String → AssemblyInstruction → Bool
is_label name (label l) = str_eq l name
is_label name _ = false

-- What stands behind the first label of the name.
unfoldable pub target : String → Assembly → Option Assembly
unfolding is_label
target name [] = none
target name (item ∷ rest) = if is_label name item then some rest else target name rest

module _ {S : Type 0} where
  unfoldable pub resume : (Assembly → S → End S) → S → Option Assembly → End S
  resume go s none = no_target
  resume go s (some code) = go code s

  unfoldable pub proceed : (Assembly → S → End S) → Assembly → Assembly → Control S → End S
  unfolding resume target
  proceed go whole rest (next s) = go rest s
  proceed go whole rest (jump l s) = resume go s (target l whole)
  proceed go whole rest (halt s) = halted s

module _ {S : Type 0} (act : AssemblyInstruction → S → Control S) where
  -- A `JUMPDEST` and the header of data do nothing.
  unfoldable pub act_on : AssemblyInstruction → S → Control S
  act_on (label l) s = next s
  act_on (data_header l) s = next s
  act_on item s = act item s

  unfoldable pub run_from : ℕ → Assembly → Assembly → S → End S
  unfolding proceed act_on
  run_from zero whole code s = unfinished s
  run_from (suc steps) whole [] s = ran_off s
  run_from (suc steps) whole (item ∷ rest) s =
      proceed (run_from steps whole) whole rest (act_on item s)

  -- So many steps from the start.
  unfoldable pub execute : ℕ → Assembly → S → End S
  unfolding run_from
  execute steps assembly s = run_from steps assembly assembly s

  -- The instructions of the EVM behind which control never goes on.
  pub record NeverGoesOn : Type 0 where
    pub after_jump : (s t : S) → act (mnemonic "JUMP") s ≢ next t
    pub after_return : (s t : S) → act (mnemonic "RETURN") s ≢ next t
    pub after_revert : (s t : S) → act (mnemonic "REVERT") s ≢ next t
    pub after_stop : (s t : S) → act (mnemonic "STOP") s ≢ next t
    pub after_invalid : (s t : S) → act (mnemonic "INVALID") s ≢ next t
