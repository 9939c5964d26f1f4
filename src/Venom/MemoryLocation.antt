-- ===== src/Venom/MemoryLocation.antt =====
-- vyper/venom/memory_location.py: the locations that an instruction may read and write.
-- Opcodes are a data type with a constructor for each that the module names.
pub mod Alias
pub mod Access
pub mod Examples
use vysvm.Common.{
  Option, some, none, Bool, List, false, ◌&&◌, if◌then◌else◌, ◌∷◌, true, not, ◌||◌, get_elem?, [],
}
use vysvm.Venom.Operand.{IrOperand, literal, variable, ir_label}
use vysvm.Common.Int.{ℤ, pos, eqb_ℤ, leb_ℤ, ◌+ℤ◌}
use Prim.Native.String.{String}
use vysvm.Common.Errors.{Result, err, ◌>>=◌, ok, index_error, value_error, compiler_panic}

-- `none` where the offset or the size is not known.
pub record MemoryLocation : Type 0 where
  pub offset : Option ℤ
  pub size : Option ℤ
  pub is_volatile : Bool

abbrev pub location : Option ℤ → Option ℤ → MemoryLocation
location offset size = record { offset = offset; size = size; is_volatile = false }

abbrev pub empty : MemoryLocation
empty = location (some (pos 0)) (some (pos 0))

abbrev pub undefined : MemoryLocation
undefined = location none none

pub is_offset_fixed : MemoryLocation → Bool
is_offset_fixed l = elim l.offset [ none ↦ false | some _ ↦ true ]

pub is_size_fixed : MemoryLocation → Bool
is_size_fixed l = elim l.size [ none ↦ false | some _ ↦ true ]

pub is_fixed : MemoryLocation → Bool
unfolding is_offset_fixed is_size_fixed
is_fixed l = is_offset_fixed l && is_size_fixed l

-- An operand, or a plain integer.
pub operand_value : IrOperand → Result (Option ℤ)
operand_value (literal n) = ok (some n)
operand_value (variable _) = ok none
operand_value (ir_label _) = err compiler_panic

pub from_operands : IrOperand → IrOperand → Bool → Result MemoryLocation
unfolding operand_value
from_operands offset size is_volatile = do
  o ← operand_value offset
  s ← operand_value size
  ok (record { offset = o; size = s; is_volatile = is_volatile })

-- `s == 0`, which `None` is not.
pub is_zero : Option ℤ → Bool
is_zero none = false
is_zero (some n) = eqb_ℤ n (pos 0)

contains_fixed : Option ℤ → Option ℤ → Option ℤ → Option ℤ → Bool
contains_fixed (some o1) (some s1) (some o2) (some s2) = leb_ℤ o1 o2 && leb_ℤ (o2 +ℤ s2) (o1 +ℤ s1)
contains_fixed _ _ _ _ = false

-- `self.completely_contains(other)`
pub completely_contains : MemoryLocation → MemoryLocation → Bool
unfolding is_zero contains_fixed
completely_contains self other =
    if is_zero other.size
    then true
    else contains_fixed self.offset self.size other.offset other.size

-- `may_overlap` for sizes that are not zero.
overlap : Option ℤ → Option ℤ → Option ℤ → Option ℤ → Bool
overlap none s1 o2 s2 = true
overlap (some o1) s1 none s2 = true
overlap (some o1) (some s1) (some o2) (some s2) = not (leb_ℤ (o1 +ℤ s1) o2 || leb_ℤ (o2 +ℤ s2) o1)
overlap (some o1) (some s1) (some o2) none = if leb_ℤ (o1 +ℤ s1) o2 then false else true
overlap (some o1) none (some o2) (some s2) = if leb_ℤ (o2 +ℤ s2) o1 then false else true
overlap (some o1) none (some o2) none = true

pub may_overlap : MemoryLocation → MemoryLocation → Bool
unfolding is_zero overlap
may_overlap loc1 loc2 =
    if is_zero loc1.size || is_zero loc2.size
    then false
    else overlap loc1.offset loc1.size loc2.offset loc2.size

pub data Opcode : Type 0 where
  mstore mload mcopy calldatacopy dloadbytes codecopy returndatacopy dload sha3_64 sha3 : Opcode
  invoke call delegatecall staticcall extcodecopy return create create2 log revert : Opcode
  sload sstore tload tstore stop sink ret : Opcode
  other_opcode : String → Opcode

pub record IrInstruction : Type 0 where
  pub opcode : Opcode
  pub operands : List IrOperand

abbrev word : IrOperand
word = literal (pos 32)

abbrev of_operands : IrOperand → IrOperand → Result MemoryLocation
of_operands offset size = from_operands offset size false

-- `_get_memory_write_location`. Operands that do not unpack raise `ValueError`, a missing one
-- `IndexError`.
pub memory_write : Opcode → List IrOperand → Result MemoryLocation
unfolding from_operands
memory_write mstore (_ ∷ dst ∷ _) = of_operands dst word
memory_write mstore _ = err index_error
memory_write mcopy (size ∷ _ ∷ dst ∷ []) = of_operands dst size
memory_write mcopy _ = err value_error
memory_write calldatacopy (size ∷ _ ∷ dst ∷ []) = of_operands dst size
memory_write calldatacopy _ = err value_error
memory_write dloadbytes (size ∷ _ ∷ dst ∷ []) = of_operands dst size
memory_write dloadbytes _ = err value_error
memory_write codecopy (size ∷ _ ∷ dst ∷ []) = of_operands dst size
memory_write codecopy _ = err value_error
memory_write returndatacopy (size ∷ _ ∷ dst ∷ []) = of_operands dst size
memory_write returndatacopy _ = err value_error
memory_write dload _ = ok (location (some (pos 0)) (some (pos 32)))
memory_write sha3_64 _ = ok (location (some (pos 0)) (some (pos 64)))
memory_write invoke _ = ok (location (some (pos 0)) none)
memory_write call (size ∷ dst ∷ _ ∷ _ ∷ _ ∷ _ ∷ _ ∷ []) = of_operands dst size
memory_write call _ = err value_error
memory_write delegatecall (size ∷ dst ∷ _ ∷ _ ∷ _ ∷ _ ∷ []) = of_operands dst size
memory_write delegatecall _ = err value_error
memory_write staticcall (size ∷ dst ∷ _ ∷ _ ∷ _ ∷ _ ∷ []) = of_operands dst size
memory_write staticcall _ = err value_error
memory_write extcodecopy (size ∷ _ ∷ dst ∷ _ ∷ []) = of_operands dst size
memory_write extcodecopy _ = err value_error
memory_write _ _ = ok empty

-- The last two operands of `log`.
pub log_read : List IrOperand → Result MemoryLocation
unfolding from_operands
log_read [] = err value_error
log_read (_ ∷ []) = err value_error
log_read (size ∷ src ∷ []) = of_operands src size
log_read (_ ∷ b ∷ c ∷ rest) = log_read (b ∷ c ∷ rest)

-- `_get_memory_read_location`
pub memory_read : Opcode → List IrOperand → Result MemoryLocation
unfolding from_operands log_read
memory_read mload (src ∷ _) = of_operands src word
memory_read mload [] = err index_error
memory_read mcopy (size ∷ src ∷ _ ∷ []) = of_operands src size
memory_read mcopy _ = err value_error
memory_read dload _ = ok (location (some (pos 0)) (some (pos 32)))
memory_read invoke _ = ok (location (some (pos 0)) none)
memory_read call (_ ∷ _ ∷ size ∷ dst ∷ _ ∷ _ ∷ _ ∷ []) = of_operands dst size
memory_read call _ = err value_error
memory_read delegatecall (_ ∷ _ ∷ size ∷ dst ∷ _ ∷ _ ∷ []) = of_operands dst size
memory_read delegatecall _ = err value_error
memory_read staticcall (_ ∷ _ ∷ size ∷ dst ∷ _ ∷ _ ∷ []) = of_operands dst size
memory_read staticcall _ = err value_error
memory_read return (size ∷ src ∷ []) = of_operands src size
memory_read return _ = err value_error
memory_read create (size ∷ src ∷ _ ∷ []) = of_operands src size
memory_read create _ = err value_error
memory_read create2 (_ ∷ size ∷ src ∷ _ ∷ []) = of_operands src size
memory_read create2 _ = err value_error
memory_read sha3 (size ∷ offset ∷ []) = of_operands offset size
memory_read sha3 _ = err value_error
memory_read sha3_64 _ = ok (location (some (pos 0)) (some (pos 64)))
memory_read log operands = log_read operands
memory_read revert (size ∷ src ∷ []) = of_operands src size
memory_read revert _ = err value_error
memory_read _ _ = ok empty

-- The address spaces that locations are asked for.
pub data AddrSpace : Type 0 where
  memory storage transient other_space : AddrSpace

pub is_store_op : AddrSpace → Opcode → Bool
is_store_op storage sstore = true
is_store_op transient tstore = true
is_store_op _ _ = false

pub is_load_op : AddrSpace → Opcode → Bool
is_load_op storage sload = true
is_load_op transient tload = true
is_load_op _ _ = false

-- The opcodes that hand control to other code, for writes and for reads.
pub escapes_write : Opcode → Bool
escapes_write call = true
escapes_write delegatecall = true
escapes_write staticcall = true
escapes_write invoke = true
escapes_write create = true
escapes_write create2 = true
escapes_write _ = false

pub escapes_read : Opcode → Bool
unfolding escapes_write
escapes_read return = true
escapes_read stop = true
escapes_read sink = true
escapes_read ret = true
escapes_read op = escapes_write op

pub slot_operand : Option IrOperand → Result MemoryLocation
unfolding from_operands
slot_operand none = err index_error
slot_operand (some slot) = of_operands slot (literal (pos 1))

-- `_get_storage_write_location`; the slots of storage are one word wide.
pub storage_write : AddrSpace → Opcode → List IrOperand → Result MemoryLocation
unfolding is_store_op is_load_op escapes_write slot_operand
storage_write space op operands =
    if is_store_op space op
    then slot_operand (get_elem? operands 1)
    else if is_load_op space op
    then ok empty
    else if escapes_write op
    then ok undefined
    else ok empty

-- `_get_storage_read_location`
pub storage_read : AddrSpace → Opcode → List IrOperand → Result MemoryLocation
unfolding is_store_op is_load_op escapes_read slot_operand
storage_read space op operands =
    if is_store_op space op
    then ok empty
    else if is_load_op space op
    then slot_operand (get_elem? operands 0)
    else if escapes_read op
    then ok undefined
    else ok empty

pub get_write_location : IrInstruction → AddrSpace → Result MemoryLocation
unfolding memory_write storage_write
get_write_location inst memory = memory_write inst.opcode inst.operands
get_write_location inst storage = storage_write storage inst.opcode inst.operands
get_write_location inst transient = storage_write transient inst.opcode inst.operands
get_write_location inst other_space = err compiler_panic

pub get_read_location : IrInstruction → AddrSpace → Result MemoryLocation
unfolding memory_read storage_read
get_read_location inst memory = memory_read inst.opcode inst.operands
get_read_location inst storage = storage_read storage inst.opcode inst.operands
get_read_location inst transient = storage_read transient inst.opcode inst.operands
get_read_location inst other_space = err compiler_panic
