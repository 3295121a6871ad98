-- ===== src/Types/Lattice/Apart.antt =====
-- The meet of two types of which neither is below the other is bottom.
use ida_structor.Prelude.{◌≡◌, refl, false, inl, inr, Bool-cases}
use ida_structor.Types.Base.{BaseType}
use ida_structor.Types.Inferred.{InferredType, base, pointer, to, is_unknown, is_bottom, bottom}
use ida_structor.Types.Subtype.{base_subtype, is_subtype}
use ida_structor.Types.Subtype.Rules.{
  Sub, from_bottom, to_unknown, of_base, of_pointer, child, is_subtype_iff,
}
use ida_structor.Types.Lattice.Scalars.{glb_base_apart}
use ida_structor.Types.Lattice.Spec.{meet, meet_or, meet_kinds, meet_lem}

pub not_Sub : (a b : InferredType) → is_subtype a b ≡ false → ¬ Sub a b
not_Sub a b h s = cc ((is_subtype_iff a b).1 s)

pub is_subtype-false : (a b : InferredType) → ¬ Sub a b → is_subtype a b ≡ false
is_subtype-false a b h = elim (Bool-cases (is_subtype a b)) [
  | inl e ↦ absurd (h ((is_subtype_iff a b).0 e))
  | inr e ↦ e
]

base_subtype-false : (x y : BaseType) → ¬ Sub (base x) (base y) → base_subtype x y ≡ false
base_subtype-false x y h = elim (Bool-cases (base_subtype x y)) [
  | inl e ↦ absurd (h (of_base e))
  | inr e ↦ e
]

module _ (a b : InferredType) (ab : ¬ Sub a b) (ba : ¬ Sub b a) where
  pub apart_not_bottom : (is_bottom a ≡ false) × (is_bottom b ≡ false)
  apart_not_bottom = (not_bottom a b ab, not_bottom b a ba)
    where
      not_bottom : (c d : InferredType) → ¬ Sub c d → is_bottom c ≡ false
      not_bottom c d h = elim (Bool-cases (is_bottom c)) [
        | inl e ↦ absurd (h (from_bottom e))
        | inr e ↦ e
      ]

  pub apart_not_unknown : (is_unknown a ≡ false) × (is_unknown b ≡ false)
  apart_not_unknown = (not_unknown a b ba, not_unknown b a ab)
    where
      not_unknown : (c d : InferredType) → ¬ Sub d c → is_unknown c ≡ false
      not_unknown c d h = elim (Bool-cases (is_unknown c)) [
        | inl e ↦ absurd (h (to_unknown e))
        | inr e ↦ e
      ]

  pub meet_or_apart : (inner : InferredType) → meet_or a b inner ≡ inner
  meet_or_apart inner =
      let n = apart_not_bottom in
      let u = apart_not_unknown in
      rw (n.0, n.1, u.0, u.1, is_subtype-false a b ab, is_subtype-false b a ba)

meet_kinds_apart : (a b : InferredType) → ¬ Sub a b → ¬ Sub b a → meet_kinds a b ≡ bottom
unfolding meet_kinds
meet_kinds_apart (base x) (base y) h k =
    glb_base_apart x y (base_subtype-false x y h, base_subtype-false y x k)
meet_kinds_apart (pointer (to p)) (pointer (to q)) h k =
    let hp : ¬ Sub p q = λ s. h (of_pointer (child s)) in
    let kp : ¬ Sub q p = λ s. k (of_pointer (child s)) in
    rw (meet_lem p q, meet_or_apart p q hp kp (meet_kinds p q), meet_kinds_apart p q hp kp)
meet_kinds_apart a b h k = refl

pub meet_apart : (a b : InferredType) → ¬ Sub a b → ¬ Sub b a → meet a b ≡ bottom
meet_apart a b h k =
    rw (meet_lem a b, meet_or_apart a b h k (meet_kinds a b), meet_kinds_apart a b h k)
