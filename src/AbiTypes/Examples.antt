-- ===== src/AbiTypes/Examples.antt =====
-- vyper/abi_types.py: the theorems for a pair of an address and a byte string of at most 40 bytes,
-- and for an array of three addresses.
use vysvm.AbiTypes.{
  AbiType, is_dynamic, tuple, size_bound, also, static_array, static_size, address, bytes, no_types,
}
use vysvm.Common.{◌≤◌, ◌≡◌, refl, arith}
use vysvm.Utils.Ints.{ceil32}
use vysvm.AbiTypes.Bounds.{
  Encodes, members, Encodes-size_bound, member, in_place, all_elements, Encodes-static_size,
  address_word, element, by_offset, no_elements, byte_string, no_members,
}

abbrev pair : AbiType
pair = tuple (also address (also (bytes 40) no_types))

pair_encoding : Encodes pair 128
unfolding is_dynamic ceil32
pair_encoding = members (
    member (in_place refl address_word)
      (member (by_offset refl (byte_string {k = 5} (omega arith))) no_members))

Encodes-size_bound_example : 128 ≤ size_bound pair
Encodes-size_bound_example = Encodes-size_bound pair 128 pair_encoding

triple_encoding : Encodes (static_array address 3) 96
unfolding is_dynamic
triple_encoding = all_elements (
    element (in_place refl address_word)
      (element (in_place refl address_word) (element (in_place refl address_word) no_elements)))

Encodes-static_size_example : 96 ≡ static_size (static_array address 3)
unfolding is_dynamic
Encodes-static_size_example = Encodes-static_size (static_array address 3) 96 triple_encoding refl
