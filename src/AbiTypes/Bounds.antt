-- ===== src/AbiTypes/Bounds.antt =====
-- vyper/abi_types.py: the sizes against the encodings of the ABI specification.
use native.Mathlib.Nat.{mul-add, suc-mul, mul_comm, mul-le-mul_right}
-- `Encodes t n`: some value of the type `t` has an encoding of `n` bytes. In a sequence a dynamic
-- element takes a word that points to it besides its encoding.
use vysvm.AbiTypes.{
  AbiType, static_size, dynamic_size_bound, embedded_static_size, size_bound, g_int_m,
  embedded_dynamic_size_bound, address, is_dynamic, bool, bytes_m, AbiTypes, function, static_sizes,
  static_array, dynamic_size_bounds, bytes, string, dynamic_array, tuple, no_types, also,
  any_dynamic,
}
use vysvm.Utils.Ints.{ceil32}
use vysvm.Common.{ℕ, Bool, ◌≤◌, arith, ◌+◌, ◌*◌, ◌≡◌, false, true, suc, Bool-cases, inl, inr, refl}

mutual
  pub data Encodes : AbiType → ℕ → Type 0 where
    int_word : {m : ℕ} {s : Bool} → Encodes (g_int_m m s) 32
    address_word : Encodes address 32
    bool_word : Encodes bool 32
    bytes_word : {m : ℕ} → Encodes (bytes_m m) 32
    function_word : Encodes function 32
    all_elements : {t : AbiType} {m n : ℕ} → EncodesAll t m n → Encodes (static_array t m) n
    byte_string : {b k : ℕ} → k ≤ b → Encodes (bytes b) (32 + ceil32 k)
    text : {b k : ℕ} → k ≤ b → Encodes (string b) (32 + ceil32 k)
    some_elements :
        {t : AbiType} {m k n : ℕ} → k ≤ m → EncodesAll t k n → Encodes (dynamic_array t m) (32 + n)
    members : {ts : AbiTypes} {n : ℕ} → EncodesTuple ts n → Encodes (tuple ts) n

  pub data Embeds : AbiType → ℕ → Type 0 where
    in_place : {t : AbiType} {n : ℕ} → is_dynamic t ≡ false → Encodes t n → Embeds t n
    by_offset : {t : AbiType} {n : ℕ} → is_dynamic t ≡ true → Encodes t n → Embeds t (32 + n)

  pub data EncodesAll : AbiType → ℕ → ℕ → Type 0 where
    no_elements : {t : AbiType} → EncodesAll t 0 0
    element :
        {t : AbiType} {a k n : ℕ} → Embeds t a → EncodesAll t k n → EncodesAll t (suc k) (a + n)

  pub data EncodesTuple : AbiTypes → ℕ → Type 0 where
    no_members : EncodesTuple no_types 0
    member :
        {t : AbiType} {ts : AbiTypes} {a n : ℕ}
        → Embeds t a
        → EncodesTuple ts n
        → EncodesTuple (also t ts) (a + n)

ceil32_le : (k b : ℕ) → k ≤ b → ceil32 k ≤ ceil32 b
unfolding ceil32
ceil32_le k b h = ground arith

-- The room for an element of a sequence.
room : AbiType → ℕ
room t = embedded_static_size t + embedded_dynamic_size_bound t

mutual
  unfolding dynamic_size_bound is_dynamic

  static-dynamic_size_bound : (t : AbiType) → is_dynamic t ≡ false → dynamic_size_bound t ≡ 0
  static-dynamic_size_bound (g_int_m m s) h = refl
  static-dynamic_size_bound address h = refl
  static-dynamic_size_bound bool h = refl
  static-dynamic_size_bound (bytes_m m) h = refl
  static-dynamic_size_bound function h = refl
  static-dynamic_size_bound (static_array t m) h = rw h (omega arith)
  static-dynamic_size_bound (bytes b) h = cc
  static-dynamic_size_bound (string b) h = cc
  static-dynamic_size_bound (dynamic_array t m) h = cc
  static-dynamic_size_bound (tuple ts) h = statics-dynamic_size_bounds ts h

  statics-dynamic_size_bounds :
      (ts : AbiTypes) → any_dynamic ts ≡ false → dynamic_size_bounds ts ≡ 0
  statics-dynamic_size_bounds no_types h = refl
  statics-dynamic_size_bounds (also t ts) h = elim (Bool-cases (is_dynamic t)) [
    | inl p ↦ cc (rw p at h)
    | inr p ↦ rw p (omega (arith, statics-dynamic_size_bounds ts (rw p at h)))
  ]

room_static : (t : AbiType) (n : ℕ) → is_dynamic t ≡ false → n ≤ size_bound t → n ≤ room t
unfolding room embedded_static_size embedded_dynamic_size_bound size_bound
room_static t n h l = rw h (omega (arith, l, static-dynamic_size_bound t h))

room_dynamic : (t : AbiType) (n : ℕ) → is_dynamic t ≡ true → n ≤ size_bound t → 32 + n ≤ room t
unfolding room embedded_static_size embedded_dynamic_size_bound
room_dynamic t n h l = rw h (omega (arith, l))

mutual
  unfolding static_size dynamic_size_bound size_bound room embedded_static_size
      embedded_dynamic_size_bound is_dynamic

  bound_of_one : (t : AbiType) (n : ℕ) → Encodes t n → n ≤ size_bound t
  bound_of_one t n int_word = omega arith
  bound_of_one t n address_word = omega arith
  bound_of_one t n bool_word = omega arith
  bound_of_one t n bytes_word = omega arith
  bound_of_one t n function_word = omega arith
  bound_of_one t n (all_elements {t = s} {m = m} e) =
      omega
        (arith, all_le s m n e, mul-add m (embedded_static_size s) (embedded_dynamic_size_bound s))
  bound_of_one t n (byte_string {b = b} {k = k} h) = omega (arith, ceil32_le k b h)
  bound_of_one t n (text {b = b} {k = k} h) = omega (arith, ceil32_le k b h)
  bound_of_one t n (some_elements {t = s} {m = m} {k = k} {n = j} h e) =
      omega (arith, all_le s k j e, mul-le-mul_right (room s) h, mul_comm m (room s))
  bound_of_one t n (members {ts = ts} e) = tuple_le ts n e

  bound_of_inner : (t : AbiType) (n : ℕ) → Embeds t n → n ≤ room t
  bound_of_inner t n (in_place h e) = room_static t n h (bound_of_one t n e)
  bound_of_inner t n (by_offset {n = m} h e) = room_dynamic t m h (bound_of_one t m e)

  all_le : (t : AbiType) (k n : ℕ) → EncodesAll t k n → n ≤ k * room t
  all_le t k n no_elements = omega arith
  all_le t k n (element {a = a} {k = j} {n = m} e es) =
      omega (arith, bound_of_inner t a e, all_le t j m es, suc-mul j (room t))

  tuple_le :
      (ts : AbiTypes) (n : ℕ) → EncodesTuple ts n → n ≤ static_sizes ts + dynamic_size_bounds ts
  tuple_le ts n no_members = omega arith
  tuple_le ts n (member {t = t} {ts = us} {a = a} {n = m} e es) =
      omega (arith, bound_of_inner t a e, tuple_le us m es)

-- size_bound is an upper bound of the length of any encoding of a value of the type.
pub Encodes-size_bound : (t : AbiType) (n : ℕ) → Encodes t n → n ≤ size_bound t
Encodes-size_bound t n e = bound_of_one t n e

mutual
  unfolding static_size is_dynamic

  exact_one : (t : AbiType) (n : ℕ) → Encodes t n → is_dynamic t ≡ false → n ≡ static_size t
  exact_one t n int_word h = refl
  exact_one t n address_word h = refl
  exact_one t n bool_word h = refl
  exact_one t n bytes_word h = refl
  exact_one t n function_word h = refl
  exact_one t n (all_elements {t = s} {m = m} e) h = rw h (all_eq s m n e h)
  exact_one t n (byte_string l) h = cc
  exact_one t n (text l) h = cc
  exact_one t n (some_elements l e) h = cc
  exact_one t n (members {ts = ts} e) h = tuple_eq ts n e h

  exact_inner : (t : AbiType) (n : ℕ) → Embeds t n → is_dynamic t ≡ false → n ≡ static_size t
  exact_inner t n (in_place p e) h = exact_one t n e h
  exact_inner t n (by_offset p e) h = cc

  all_eq : (t : AbiType) (k n : ℕ) → EncodesAll t k n → is_dynamic t ≡ false → n ≡ k * static_size t
  all_eq t k n no_elements h = omega arith
  all_eq t k n (element {a = a} {k = j} {n = m} e es) h =
      omega (arith, exact_inner t a e h, all_eq t j m es h, suc-mul j (static_size t))

  tuple_eq :
      (ts : AbiTypes) (n : ℕ) → EncodesTuple ts n → any_dynamic ts ≡ false → n ≡ static_sizes ts
  tuple_eq ts n no_members h = refl
  tuple_eq ts n (member {t = t} {ts = us} {a = a} {n = m} e es) h =
      elim (Bool-cases (is_dynamic t)) [
        | inl p ↦ cc (rw p at h)
        | inr p ↦ rw p (omega (arith, exact_inner t a e p, tuple_eq us m es (rw p at h)))
      ]

-- Each encoding of a value of a static type has the length static_size.
pub Encodes-static_size :
    (t : AbiType) (n : ℕ) → Encodes t n → is_dynamic t ≡ false → n ≡ static_size t
Encodes-static_size t n e h = exact_one t n e h
