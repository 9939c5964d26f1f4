-- ===== src/AbiTypes.antt =====
-- vyper/abi_types.py: the types of the ABI and the sizes of their encodings. The list of a tuple's
-- types is a data type of its own.
pub mod Bounds
pub mod Examples
use vysvm.Common.{ℕ, Bool, false, ◌*◌, if◌then◌else◌, ◌+◌, true, ◌||◌, ltb, ◌&&◌, leb, ◌%◌, ◌==◌}
use vysvm.Common.Errors.{Result, ◌>>◌, unless, invalid_abi_type, ok}
use vysvm.Utils.Ints.{ceil32}

mutual
  pub data AbiType : Type 0 where
    g_int_m : ℕ → Bool → AbiType
    address : AbiType
    bool : AbiType
    bytes_m : ℕ → AbiType
    function : AbiType
    static_array : AbiType → ℕ → AbiType
    bytes : ℕ → AbiType
    string : ℕ → AbiType
    dynamic_array : AbiType → ℕ → AbiType
    tuple : AbiTypes → AbiType

  pub data AbiTypes : Type 0 where
    no_types : AbiTypes
    also : AbiType → AbiTypes → AbiTypes

-- The constructors that refuse an argument.
pub make_g_int_m : ℕ → Bool → Result AbiType
make_g_int_m m_bits signed = do
  unless invalid_abi_type (ltb 0 m_bits && leb m_bits 256 && m_bits % 8 == 0)
  ok (g_int_m m_bits signed)

pub make_bytes_m : ℕ → Result AbiType
make_bytes_m m_bytes = do
  unless invalid_abi_type (ltb 0 m_bytes && leb m_bytes 32)
  ok (bytes_m m_bytes)

unfoldable mutual
  pub is_dynamic : AbiType → Bool
  is_dynamic (g_int_m m_bits signed) = false
  is_dynamic address = false
  is_dynamic bool = false
  is_dynamic (bytes_m m_bytes) = false
  is_dynamic function = false
  is_dynamic (static_array subtyp m_elems) = is_dynamic subtyp
  is_dynamic (bytes bytes_bound) = true
  is_dynamic (string bytes_bound) = true
  is_dynamic (dynamic_array subtyp elems_bound) = true
  is_dynamic (tuple subtyps) = any_dynamic subtyps

  pub any_dynamic : AbiTypes → Bool
  any_dynamic no_types = false
  any_dynamic (also t ts) = is_dynamic t || any_dynamic ts

unfoldable mutual
  pub static_size : AbiType → ℕ
  static_size (g_int_m m_bits signed) = 32
  static_size address = 32
  static_size bool = 32
  static_size (bytes_m m_bytes) = 32
  static_size function = 32
  static_size (static_array subtyp m_elems) =
      m_elems * (let size = static_size subtyp in if is_dynamic subtyp then 32 else size)
  static_size (bytes bytes_bound) = 0
  static_size (string bytes_bound) = 0
  static_size (dynamic_array subtyp elems_bound) = 0
  static_size (tuple subtyps) = static_sizes subtyps

  pub static_sizes : AbiTypes → ℕ
  static_sizes no_types = 0
  static_sizes (also t ts) =
      (let size = static_size t in if is_dynamic t then 32 else size) + static_sizes ts

pub embedded_static_size : AbiType → ℕ
embedded_static_size t = if is_dynamic t then 32 else static_size t

unfoldable mutual
  pub dynamic_size_bound : AbiType → ℕ
  dynamic_size_bound (g_int_m m_bits signed) = 0
  dynamic_size_bound address = 0
  dynamic_size_bound bool = 0
  dynamic_size_bound (bytes_m m_bytes) = 0
  dynamic_size_bound function = 0
  dynamic_size_bound (static_array subtyp m_elems) =
      m_elems
      * (let bound = dynamic_size_bound subtyp in
          if is_dynamic subtyp then static_size subtyp + bound else 0)
  dynamic_size_bound (bytes bytes_bound) = 32 + ceil32 bytes_bound
  dynamic_size_bound (string bytes_bound) = 32 + ceil32 bytes_bound
  dynamic_size_bound (dynamic_array subtyp elems_bound) =
      32
      + (embedded_static_size subtyp
          + (let bound = dynamic_size_bound subtyp in
              if is_dynamic subtyp then static_size subtyp + bound else 0))
        * elems_bound
  dynamic_size_bound (tuple subtyps) = dynamic_size_bounds subtyps

  pub dynamic_size_bounds : AbiTypes → ℕ
  dynamic_size_bounds no_types = 0
  dynamic_size_bounds (also t ts) =
      (let bound = dynamic_size_bound t in if is_dynamic t then static_size t + bound else 0)
      + dynamic_size_bounds ts

pub size_bound : AbiType → ℕ
size_bound t = static_size t + dynamic_size_bound t

pub embedded_dynamic_size_bound : AbiType → ℕ
embedded_dynamic_size_bound t = if is_dynamic t then size_bound t else 0

pub is_complex_type : AbiType → Bool
is_complex_type (static_array subtyp m_elems) = true
is_complex_type (dynamic_array subtyp elems_bound) = true
is_complex_type (tuple subtyps) = true
is_complex_type _ = false
