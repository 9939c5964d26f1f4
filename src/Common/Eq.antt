-- ===== src/Common/Eq.antt =====
-- Python's `==` as an interface, with its instances at numbers and texts.
use Prim.Native.String.{String}
pub use text.Mathlib.Text.{◌==◌ as str_eq}
use text.Mathlib.TextEquality.{eq_iff}
use vysvm.Common.{
  ℕ, ◌≡◌, ◌↔◌, Bool, true, ◌==◌ as nat_eq, ==_iff, ◌≢◌, refl, false, Bool-cases, inl, inr,
}

pub record Equality {ℓ} (A : Type ℓ) : Type ℓ where
  pub eqb : A → A → Bool
  pub eqb_iff : (a b : A) → (eqb a b ≡ true) ↔ (a ≡ b)

instance abbrev pub ℕ_Eq : Equality ℕ
ℕ_Eq = record { eqb = nat_eq; eqb_iff = ==_iff }

instance abbrev pub String_Eq : Equality String
String_Eq = record { eqb = str_eq; eqb_iff = eq_iff }

module _ {ℓ} {K : Type ℓ} ⦃e : Equality K⦄ where
  pub eqb_refl : (k : K) → e.eqb k k ≡ true
  eqb_refl k = (e.eqb_iff k k).1 refl

  pub eqb_ne : (j k : K) → j ≢ k → e.eqb j k ≡ false
  eqb_ne j k h = elim (Bool-cases (e.eqb j k)) [
    | inl p ↦ absurd (h ((e.eqb_iff j k).0 p))
    | inr q ↦ q
  ]
