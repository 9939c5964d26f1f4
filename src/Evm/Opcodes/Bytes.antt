-- ===== src/Evm/Opcodes/Bytes.antt =====
-- Every name in the table is in upper case, and every opcode is a byte.
use Prim.Native.String.{String}
use vysvm.Evm.Opcodes.{
  opcodes, gas_value, mk_version_opcodes, get_opcodes, keep_opcode, OpcodeValue, OpcodeRulesetValue,
}
use vysvm.Common.{
  List, Bool, ◌≡◌, ℕ, true, some, ◌&&◌, ◌∷◌, ◌<◌, refl, [], none, false, ltb, arith, Option, ◌∙◌,
  Option-cases, ltb→lt, inl, inr, Bool-cases, suc, zero,
}
use vysvm.Common.Text.{upper}
use vysvm.Common.Eq.{str_eq, String_Eq}
use vysvm.Common.Dict.{get}
use text.Mathlib.TextEquality.{eq_iff}
use mathlib.Core.Path.{subst}

-- What is checked of every row: the name is in upper case, and the opcode is a byte.
row_fits : String × OpcodeValue → Bool
row_fits (k, v) = str_eq (upper k) k && (elim v.opcode [ none ↦ false | some c ↦ ltb c 256 ])

rows_fit : List (String × OpcodeValue) → Bool
unfolding row_fits
rows_fit [] = true
rows_fit (r ∷ rs) = row_fits r && rows_fit rs

opcodes_fit : rows_fit opcodes ≡ true
unfolding rows_fit opcodes upper
opcodes_fit = refl

pub record IsKnown (s : String) (v : OpcodeRulesetValue) : Type 0 where
  pub opcode : ℕ
  pub has_opcode : v.opcode ≡ some opcode
  pub in_range : opcode < 256
  pub is_upper : upper s ≡ s

opcode-gas_value :
    (o : OpcodeValue) (idx : ℕ) (w : OpcodeRulesetValue)
    → gas_value o idx ≡ some w
    → w.opcode ≡ o.opcode
unfolding gas_value
opcode-gas_value o idx w h = ground arith

opcode_byte :
    (o : Option ℕ)
    → (elim o [ none ↦ false | some c ↦ ltb c 256 ]) ≡ true
    → (c : ℕ) × (o ≡ some c) × (c < 256)
opcode_byte none h = cc
opcode_byte (some c) h = (c, refl, ltb→lt c 256 h)

and_parts : (a b : Bool) → (a && b) ≡ true → (a ≡ true) × (b ≡ true)
and_parts a b h = ground arith

kept-IsKnown :
    (k : String) (o : OpcodeValue) (idx : ℕ) (w : OpcodeRulesetValue)
    → row_fits (k, o) ≡ true
    → gas_value o idx ≡ some w
    → IsKnown k w
unfolding row_fits
kept-IsKnown k o idx w fits kept =
    let (upper_name, byte_opcode) = and_parts _ _ fits in
    let (c, e, small) = opcode_byte o.opcode byte_opcode in
    record {
      opcode = c;
      has_opcode = opcode-gas_value o idx w kept ∙ e;
      in_range = small;
      is_upper = (eq_iff (upper k) k).0 upper_name;
    }

get-IsKnown :
    (rows : List (String × OpcodeValue)) (idx : ℕ) (s : String) (v : OpcodeRulesetValue)
    → rows_fit rows ≡ true
    → get s (mk_version_opcodes rows idx) ≡ some v
    → IsKnown s v
unfolding rows_fit mk_version_opcodes keep_opcode get
get-IsKnown [] idx s v fits h = cc
get-IsKnown ((k, o) ∷ rows) idx s v fits h =
    let (first, others) = and_parts _ _ fits in
    elim (Option-cases (gas_value o idx)) [
      | inl gone ↦ get-IsKnown rows idx s v others (rw (gone, keep_opcode) at h)
      | inr (w, kept) ↦
          let found = rw (kept, keep_opcode) at h in
          elim (Bool-cases (str_eq k s)) [
            | inl same ↦
                let here : ◌≡◌ {A = Option OpcodeRulesetValue} (some w) (some v) =
                  rw same at found in
                let e : w ≡ v = cc in
                let name : k ≡ s = (eq_iff k s).0 same in
                subst (λ u. IsKnown s u) e
                  (subst (λ t. IsKnown t w) name (kept-IsKnown k o idx w first kept))
            | inr other ↦ get-IsKnown rows idx s v others (rw other at found)
          ]
    ]

-- A mnemonic of the table is its own upper case and has a one-byte opcode.
pub get_opcodes-IsKnown :
    (version : ℕ) (s : String) (v : OpcodeRulesetValue)
    → get s (get_opcodes version) ≡ some v
    → IsKnown s v
unfolding get_opcodes
get_opcodes-IsKnown version s v h = get-IsKnown opcodes version s v opcodes_fit h

-- In each of the five versions.
pub jumpdest_opcode :
    (version : ℕ)
    → version < 5
    → (v : OpcodeRulesetValue) × (get "JUMPDEST" (get_opcodes version) ≡ some v)
      × (v.opcode ≡ some 0x5b)
unfolding get_opcodes get
jumpdest_opcode zero h = (_, refl, refl)
jumpdest_opcode (suc zero) h = (_, refl, refl)
jumpdest_opcode (suc (suc zero)) h = (_, refl, refl)
jumpdest_opcode (suc (suc (suc zero))) h = (_, refl, refl)
jumpdest_opcode (suc (suc (suc (suc zero)))) h = (_, refl, refl)
jumpdest_opcode (suc (suc (suc (suc (suc n))))) h = absurd (omega arith)
