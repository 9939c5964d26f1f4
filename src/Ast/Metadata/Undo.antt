-- ===== src/Ast/Metadata/Undo.antt =====
-- vyper/ast/metadata.py: taking changes back.
use mathlib.Core.Path.{fun_ext}
use vysvm.Common.{
  Bool, Option, [], ◌∷◌, ◌≡◌, All, false, Bool-cases, true, arith, refl, inl, ◌∙◌, ap, sym, inr,
  if◌then◌else◌,
}
use vysvm.Common.Dict.{contains, put}
use vysvm.Ast.Metadata.{Values, Changes, Key, write, Key_Eq, register, undo, merge}

neither : (a b : Bool) → (if a then true else b) ≡ false → (a ≡ false) × (b ≡ false)
neither a b h = ground arith

module _ {V : Type 0} where
  -- Every change holds what its key held in `base`.
  Holds : Values V → Changes V → Type 0
  Holds base changes = All (λ (e : Key × Option V). e.1 ≡ base e.0) changes

  -- Taking the changes back leads to `base`.
  pub IsUndo : Changes V → Values V → Values V → Type 0
  IsUndo changes values base =
      Holds base changes × ((k : Key) → contains k changes ≡ false → values k ≡ base k)

  write_ne :
      (k j : Key) (p : Option V) (values : Values V)
      → Key_Eq.eqb k j ≡ false
      → write k p values j ≡ values j
  unfolding write
  write_ne k j p values h = rw h refl

  put-Holds :
      (base : Values V) (k : Key) (p : Option V) (changes : Changes V)
      → p ≡ base k
      → Holds base changes
      → Holds base (put k p changes)
  unfolding Holds put
  put-Holds base k p [] h a = (h, tt)
  put-Holds base k p ((j, q) ∷ changes) h (b, a) = elim (Bool-cases (Key_Eq.eqb j k)) [
    | inl e ↦ rw e (h ∙ ap base (sym ((Key_Eq.eqb_iff j k).0 e)), a)
    | inr e ↦ rw e (b, put-Holds base k p changes h a)
  ]

  contains-put :
      (k j : Key) (p : Option V) (changes : Changes V)
      → contains j (put k p changes) ≡ false
      → (Key_Eq.eqb k j ≡ false) × (contains j changes ≡ false)
  unfolding contains put
  contains-put k j p [] h = (ground arith, refl)
  contains-put k j p ((i, q) ∷ changes) h = elim (Bool-cases (Key_Eq.eqb i k)) [
    | inl e ↦
        let d : i ≡ k = (Key_Eq.eqb_iff i k).0 e in
        let (a, b) = neither (Key_Eq.eqb i j) (contains j changes) (rw e at h) in
        (rw (sym d) a, rw a b)
    | inr e ↦
        let (a, b) = neither (Key_Eq.eqb i j) (contains j (put k p changes)) (rw e at h) in
        let (c, d) = contains-put k j p changes b in (c, rw a d)
  ]

  contains_self :
      (k j : Key) (changes : Changes V)
      → contains k changes ≡ true
      → contains j changes ≡ false
      → Key_Eq.eqb k j ≡ false
  contains_self k j changes p q = elim (Bool-cases (Key_Eq.eqb k j)) [
    | inl e ↦ let d : k ≡ j = (Key_Eq.eqb_iff k j).0 e in absurd (cc (rw d at p))
    | inr e ↦ e
  ]

  contains-register :
      (k j : Key) (p : Option V) (changes : Changes V)
      → contains j (register k p changes) ≡ false
      → (Key_Eq.eqb k j ≡ false) × (contains j changes ≡ false)
  unfolding register
  contains-register k j p changes h = elim (Bool-cases (contains k changes)) [
    | inl e ↦ let d : contains j changes ≡ false = rw e at h in (contains_self k j changes e d, d)
    | inr e ↦ contains-put k j p changes (rw e at h)
  ]

  register-Holds :
      (base : Values V) (k : Key) (p : Option V) (changes : Changes V)
      → (contains k changes ≡ false → p ≡ base k)
      → Holds base changes
      → Holds base (register k p changes)
  unfolding register
  register-Holds base k p changes h a = elim (Bool-cases (contains k changes)) [
    | inl e ↦ rw e a
    | inr e ↦ rw e (put-Holds base k p changes (h e) a)
  ]

  -- Setting a key, registered.
  pub register-IsUndo :
      (changes : Changes V) (values base : Values V) (k : Key) (p : Option V)
      → IsUndo changes values base
      → IsUndo (register k (values k) changes) (write k p values) base
  unfolding IsUndo
  register-IsUndo changes values base k p (a, f) = (
    register-Holds base k (values k) changes (f k) a,
    λ j h.
        let (c, d) = contains-register k j (values k) changes h in write_ne k j p values c ∙ f j d,
  )

  undo_at :
      (changes : Changes V) (values base : Values V)
      → Holds base changes
      → (k : Key) → (contains k changes ≡ false → values k ≡ base k)
      → undo changes values k ≡ base k
  unfolding undo Holds contains write
  undo_at [] values base a k f = f refl
  undo_at ((j, p) ∷ changes) values base (b, a) k f =
      undo_at changes (write j p values) base a k (λ h. elim (Bool-cases (Key_Eq.eqb j k)) [
        | inl e ↦ rw (e, write) (b ∙ ap base ((Key_Eq.eqb_iff j k).0 e))
        | inr e ↦ write_ne j k p values e ∙ f (rw e h)
      ])

  -- A rollback leads back.
  pub undo-IsUndo :
      (changes : Changes V) (values base : Values V)
      → IsUndo changes values base
      → undo changes values ≡ base
  unfolding IsUndo
  undo-IsUndo changes values base (a, f) = fun_ext (λ k. undo_at changes values base a k (f k))

  merge-IsUndo :
      (inner outer : Changes V) (values middle base : Values V)
      → Holds middle inner
      → ((k : Key) → contains k inner ≡ false → contains k outer ≡ false → values k ≡ base k)
      → ((k : Key) → contains k outer ≡ false → middle k ≡ base k)
      → Holds base outer
      → IsUndo (merge inner outer) values base
  unfolding IsUndo merge Holds contains
  merge-IsUndo [] outer values middle base a f g b = (b, λ k. f k refl)
  merge-IsUndo ((k, p) ∷ inner) outer values middle base (c, a) f g b =
      merge-IsUndo inner (register k p outer) values middle base a
        (λ j h l. let (d, e) = contains-register k j p outer l in f j (rw d h) e)
        (λ j l. g j (contains-register k j p outer l).1)
        (register-Holds base k p outer (λ h. c ∙ g k h) b)

  -- A commit keeps the outer changes an undo.
  pub commit-IsUndo :
      (inner outer : Changes V) (values middle base : Values V)
      → IsUndo inner values middle
      → IsUndo outer middle base
      → IsUndo (merge inner outer) values base
  unfolding IsUndo
  commit-IsUndo inner outer values middle base (a, f) (b, g) =
      merge-IsUndo inner outer values middle base a (λ k h l. f k h ∙ g k l) g b

  pub nothing-IsUndo : (values : Values V) → IsUndo [] values values
  unfolding IsUndo Holds
  nothing-IsUndo values = (tt, λ k h. refl)
