-- ===== src/Evm/Assembler/Instructions.antt =====
-- vyper/evm/assembler/instructions.py. A `Label` and a `CONSTREF` are told apart by the constructors
-- that hold their names; an offset is any integer, a byte and the value of a constant are natural
-- numbers. The metadata of a
-- `TaggedInstruction` (its source node and its error message) is not modelled: it is a mnemonic.
use Prim.Native.String.{String}
use vysvm.Common.{List, ℕ, [], length, suc, ◌/◌, if◌then◌else◌, ◌+◌, ◌%◌, leb, ◌==◌, ◌∷◌, ltb, zero}
use vysvm.Common.Errors.{Result, ok, err, assertion_error}
use vysvm.Common.Int.{ℤ, pos, negsuc, pos_part}

-- What `PUSH_OFST` adds its offset to.
pub data Target : Type 0 where
  code_label : String → Target
  const_ref : String → Target

-- `DATA_ITEM`
pub data DataItem : Type 0 where
  data_bytes : List ℕ → DataItem
  data_label : String → DataItem

pub data AssemblyInstruction : Type 0 where
  mnemonic : String → AssemblyInstruction
  byte : ℕ → AssemblyInstruction
  push_label : String → AssemblyInstruction
  label : String → AssemblyInstruction
  push_ofst : Target → ℤ → AssemblyInstruction
  data_item : DataItem → AssemblyInstruction
  data_header : String → AssemblyInstruction
  const : String → ℕ → AssemblyInstruction

-- The `while x > 0` loop, with fuel; the digits stand in front of those that are done.
unfoldable pub num_loop : ℕ → ℕ → List ℕ → List ℕ
num_loop zero x o = o
num_loop (suc fuel) x o =
    let rest = num_loop fuel (x / 256) (x % 256 ∷ o) in if ltb 0 x then rest else o

-- The loop ends within `x` rounds, since each divides by 256.
unfoldable pub num_to_bytearray : ℕ → List ℕ
unfolding num_loop
num_to_bytearray x = num_loop x x []

-- The index of "shanghai" in `evm_versions`, from which on `PUSH0` exists.
abbrev pub shanghai : ℕ
shanghai = 2

-- Without `PUSH0` a zero takes a byte.
unfoldable pub pad_zero : ℕ → List ℕ → List ℕ
pad_zero version [] = if leb shanghai version then [] else 0 ∷ []
pad_zero version (b ∷ bs) = b ∷ bs

-- The immediate bytes of `PUSH(x)`; the mnemonic names their number.
unfoldable pub push : ℕ → ℕ → List ℕ
unfolding num_to_bytearray pad_zero
push version x = pad_zero version (num_to_bytearray x)

-- `PUSH` of an integer: the `while` loop does not begin on a negative one, as on zero.
abbrev pub push_int : ℕ → ℤ → List ℕ
push_int version x = push version (pos_part x)

-- The `for` loop of `PUSH_N`, with what is left of `x`.
unfoldable pub push_n_loop : ℕ → ℕ → List ℕ → List ℕ × ℕ
push_n_loop zero x o = (o, x)
push_n_loop (suc n) x o = push_n_loop n (x / 256) (x % 256 ∷ o)

-- The immediate bytes of `PUSH_N(x, n)`.
unfoldable pub push_n : ℕ → ℕ → Result (List ℕ)
unfolding push_n_loop
push_n x n = let (o, left) = push_n_loop n x [] in if left == 0 then ok o else err assertion_error

-- `PUSH_N` of an integer: a negative one stays negative however often it is divided.
unfoldable pub push_n_int : ℤ → ℕ → Result (List ℕ)
unfolding push_n
push_n_int (pos x) n = push_n x n
push_n_int (negsuc x) n = err assertion_error

-- The mnemonic and the immediate bytes.
unfoldable pub calc_push_size : ℕ → ℤ → ℕ
unfolding push
calc_push_size version val = length (push_int version val) + 1
