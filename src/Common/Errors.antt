-- ===== src/Common/Errors.antt =====
-- The exceptions of the compiler as values.
use vysvm.Common.{◌≡◌, refl, Bool, true, false}

pub data Error : Type 0 where
  compiler_panic : Error
  memory_allocation_exception : Error
  storage_layout_exception : Error
  assertion_error : Error
  key_error : Error
  value_error : Error
  index_error : Error
  invalid_abi_type : Error
  find_magic_failure : Error
  has_empty_buckets : Error
  runtime_error : Error
  unbound_local_error : Error
  structure_exception : Error
  namespace_collision : Error
  undeclared_definition : Error
  stack_too_deep : Error
  type_error : Error
  generic_exception : Error
  overflow_error : Error

pub data Result {ℓ} (A : Type ℓ) : Type ℓ where
  err : Error → Result A
  ok : A → Result A

-- An exception ends the rest of a block.
infixl 5 ◌>>=◌ ◌>>◌
abbrev pub ◌>>=◌ {ℓ κ} : {A : Type ℓ} {B : Type κ} → Result A → (A → Result B) → Result B
◌>>=◌ (err e) k = err e
◌>>=◌ (ok value) k = k value

abbrev pub ◌>>◌ {κ} : {B : Type κ} → Result (Unit {0}) → Result B → Result B
◌>>◌ step rest = step >>= λ _. rest

-- `assert`, or `if …: raise`, with the exception first.
abbrev pub unless : Error → Bool → Result (Unit {0})
unless e holds = elim holds [ false ↦ err e | true ↦ ok tt ]

module _ {ℓ κ} {A : Type ℓ} {B : Type κ} where
  -- In a block that succeeds the first step did, and so did the rest.
  pub bind_succeeds :
      (first : Result A) (rest : A → Result B) {result : B}
      → (first >>= rest) ≡ ok result
      → (value : A) × (first ≡ ok value) × (rest value ≡ ok result)
  bind_succeeds (err e) rest h = cc
  bind_succeeds (ok value) rest h = (value, refl, h)

-- The same for a goal, with the value of the first step as a variable.
pub bind_case {ℓ κ ν} :
    {A : Type ℓ} {B : Type κ} {C : Type ν} (first : Result A) (rest : A → Result B) {result : B}
    → (first >>= rest) ≡ ok result
    → ((value : A) → first ≡ ok value → rest value ≡ ok result → C)
    → C
bind_case (err e) rest h k = cc
bind_case (ok value) rest h k = k value refl h
