-- ===== src/Ast/Metadata.antt =====
-- vyper/ast/metadata.py: the metadata of the nodes, with the journal that takes back what a failed
-- speculation of the type checker has set. The dictionaries of all nodes are one map here.
pub mod Undo
pub mod Restore
pub mod Examples
use Prim.Native.String.{String}
use vysvm.Common.{
  ℕ, List, Bool, Option, [], ◌∷◌, some, none, true, false, ◌&&◌, if◌then◌else◌, ◌==◌, ==_iff, ◌≡◌,
  ◌↔◌, ap₂, refl, ap,
}
use vysvm.Common.Eq.{Equality, str_eq}
use vysvm.Common.Dict.{Dict, contains, put}
use text.Mathlib.TextEquality.{eq_iff}

-- The id of a node's dictionary, and a key in it.
abbrev pub Key : Type 0
Key = ℕ × String

abbrev same_key : Key → Key → Bool
same_key (a, s) (b, t) = (a == b) && str_eq s t

conjunction : (a b : Bool) → (a && b) ≡ true → (a ≡ true) × (b ≡ true)
conjunction true b h = (refl, h)
conjunction false b h = cc

pub same_key_iff : (j k : Key) → (same_key j k ≡ true) ↔ (j ≡ k)
same_key_iff (a, s) (b, t) = (
  (λ h.
      let (p, q) = conjunction (a == b) (str_eq s t) h in
      ap₂ (λ c u. (c, u)) ((==_iff a b).0 p) ((eq_iff s t).0 q)),
  (λ e.
      let p : a ≡ b = ap (λ (k : Key). k.0) e in
      let q : s ≡ t = ap (λ (k : Key). k.1) e in rw ((==_iff a b).1 p, (eq_iff s t).1 q) refl),
)

instance abbrev pub Key_Eq : Equality Key
Key_Eq = record { eqb = same_key; eqb_iff = same_key_iff }

-- What each key holds; `none` is _NOT_FOUND.
abbrev pub Values : Type 0 → Type 0
Values V = Key → Option V

unfoldable pub write : {V : Type 0} → Key → Option V → Values V → Values V
write k p values j = if same_key k j then p else values j

-- A changeset: what the keys that were set held before.
abbrev pub Changes : Type 0 → Type 0
Changes V = Dict Key (Option V)

-- The metadata, and _node_updates with the last changeset first.
pub data Journal (V : Type 0) : Type 0 where
  journal : Values V → List (Changes V) → Journal V

unfoldable pub register : {V : Type 0} → Key → Option V → Changes V → Changes V
register k prev changes = if contains k changes then changes else put k prev changes

-- `__setitem__`, which calls register_update if there is a changeset.
unfoldable pub set_item : {V : Type 0} → Key → V → Journal V → Journal V
set_item k v (journal values []) = journal (write k (some v) values) []
set_item k v (journal values (changes ∷ outer)) =
    journal (write k (some v) values) (register k (values k) changes ∷ outer)

-- The loop of _rollback_inner. Its assignments register nothing: their keys are in the changeset.
unfoldable pub undo : {V : Type 0} → Changes V → Values V → Values V
undo [] values = values
undo ((k, prev) ∷ changes) values = undo changes (write k prev values)

unfoldable pub enter_inner : {V : Type 0} → Journal V → Journal V
enter_inner (journal values all) = journal values ([] ∷ all)

-- `enter` calls these two only after it has opened a changeset.
unfoldable pub rollback_inner : {V : Type 0} → Journal V → Journal V
rollback_inner (journal values []) = journal values []
rollback_inner (journal values (inner ∷ outer)) = journal (undo inner values) outer

unfoldable pub merge : {V : Type 0} → Changes V → Changes V → Changes V
merge [] outer = outer
merge ((k, prev) ∷ inner) outer = merge inner (register k prev outer)

unfoldable pub commit_inner : {V : Type 0} → Journal V → Journal V
commit_inner (journal values []) = journal values []
commit_inner (journal values (inner ∷ [])) = journal values []
commit_inner (journal values (inner ∷ outer ∷ rest)) = journal values (merge inner outer ∷ rest)

-- What the type checker does with metadata: it sets keys, raises, and speculates; around a
-- speculation it may catch the exception.
pub data Program (V : Type 0) : Type 0 where
  done raise : Program V
  assign : Key → V → Program V → Program V
  speculate attempt : Program V → Program V → Program V

-- After the body of a speculation, with what follows: the exception goes on, or is caught.
unfoldable pub speculated :
    {V : Type 0} → (Journal V → Journal V × Bool) → Journal V × Bool → Journal V × Bool
speculated rest (s, true) = (rollback_inner s, true)
speculated rest (s, false) = rest (commit_inner s)

unfoldable pub attempted :
    {V : Type 0} → (Journal V → Journal V × Bool) → Journal V × Bool → Journal V × Bool
attempted rest (s, true) = rest (rollback_inner s)
attempted rest (s, false) = rest (commit_inner s)

-- The state that a program leaves, and whether it raised.
unfoldable pub run : {V : Type 0} → Program V → Journal V → Journal V × Bool
run done s = (s, false)
run raise s = (s, true)
run (assign k v p) s = run p (set_item k v s)
run (speculate body p) s = speculated (run p) (run body (enter_inner s))
run (attempt body p) s = attempted (run p) (run body (enter_inner s))

-- The same on the metadata alone: a speculation that raises leaves what was there before it.
unfoldable pub kept_or_dropped :
    {V : Type 0} → Values V → (Values V → Values V × Bool) → Values V × Bool → Values V × Bool
kept_or_dropped values rest (new, true) = (values, true)
kept_or_dropped values rest (new, false) = rest new

unfoldable pub kept_or_restored :
    {V : Type 0} → Values V → (Values V → Values V × Bool) → Values V × Bool → Values V × Bool
kept_or_restored values rest (new, true) = rest values
kept_or_restored values rest (new, false) = rest new

unfoldable pub expected : {V : Type 0} → Program V → Values V → Values V × Bool
expected done values = (values, false)
expected raise values = (values, true)
expected (assign k v p) values = expected p (write k (some v) values)
expected (speculate body p) values = kept_or_dropped values (expected p) (expected body values)
expected (attempt body p) values = kept_or_restored values (expected p) (expected body values)
