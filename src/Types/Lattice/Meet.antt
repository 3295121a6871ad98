-- ===== src/Types/Lattice/Meet.antt =====
-- The meet is a lower bound, the greatest one, and bottom where neither type is below the other.
use mathlib.Core.Bool.{false≢true}
use ida_structor.Prelude.{◌∙◌, ℕ, ◌≡◌, refl, sym, true, false, ◌||◌, ◌⊎◌, inl, inr, Bool-cases}
use ida_structor.Types.Base.{BaseType}
use ida_structor.Types.Inferred.{
  InferredType, base, pointer, function, array, structure, sum, Child, null, to, is_unknown,
  is_bottom,
}
use ida_structor.Types.Subtype.{base_subtype, is_subtype}
use ida_structor.Types.Subtype.Shapes.{IsSumFree}
use ida_structor.Types.Subtype.Rules.{
  Sub, from_bottom, to_unknown, of_base, of_pointer, of_function, of_array, of_structure, of_sum,
  SubChild, no_child, child, is_subtype_iff,
}
use ida_structor.Types.Subtype.Antisym.{Sub-refl}
use ida_structor.Types.Lattice.Scalars.{glb_base-Sub, below_apart}
use ida_structor.Types.Lattice.Spec.{meet, meet_or, meet_kinds, meet_lem}

-- The comparable pairs.
meet_or-Sub :
    (a b inner : InferredType)
    → Sub a a
    → Sub b b
    → Sub inner a × Sub inner b
    → Sub (meet_or a b inner) a × Sub (meet_or a b inner) b
meet_or-Sub a b inner ra rb h = elim (Bool-cases (is_bottom a || is_bottom b)) [
  | inl e ↦ rw e (from_bottom refl, from_bottom refl)
  | inr e ↦ elim (Bool-cases (is_unknown a)) [
    | inl u ↦ rw (e, u) (to_unknown u, rb)
    | inr u ↦ elim (Bool-cases (is_unknown b)) [
      | inl v ↦ rw (e, u, v) (ra, to_unknown v)
      | inr v ↦ elim (Bool-cases (is_subtype a b)) [
        | inl s ↦ rw (e, u, v, s) (ra, (is_subtype_iff a b).0 s)
        | inr s ↦ elim (Bool-cases (is_subtype b a)) [
          | inl t ↦ rw (e, u, v, s, t) ((is_subtype_iff b a).0 t, rb)
          | inr t ↦ rw (e, u, v, s, t) h
        ]
      ]
    ]
  ]
]

meet_kinds-Sub :
    (a b : InferredType)
    → IsSumFree a
    → IsSumFree b
    → Sub (meet_kinds a b) a × Sub (meet_kinds a b) b
unfolding meet_kinds
meet_kinds-Sub (base x) (base y) v w = glb_base-Sub x y
meet_kinds-Sub (pointer (to p)) (pointer (to q)) v w = elim (Bool-cases (is_bottom (meet p q))) [
  | inl e ↦ rw e (from_bottom refl, from_bottom refl)
  | inr e ↦
      let r =
        meet_or-Sub p q (meet_kinds p q) (Sub-refl p v) (Sub-refl q w) (meet_kinds-Sub p q v w) in
      rw e (of_pointer (child (rw (meet_lem p q) r.0)), of_pointer (child (rw (meet_lem p q) r.1)))
]
meet_kinds-Sub a b v w = (from_bottom refl, from_bottom refl)

pub meet-Sub :
    (a b : InferredType) → IsSumFree a → IsSumFree b → Sub (meet a b) a × Sub (meet a b) b
meet-Sub a b v w =
    rw (meet_lem a b)
      (meet_or-Sub a b (meet_kinds a b) (Sub-refl a v) (Sub-refl b w) (meet_kinds-Sub a b v w))

-- Scalars, structures, and pointers and arrays of such.
abbrev mutual
  pub IsData : InferredType → Type 0
  IsData (base b) = Unit
  IsData (pointer c) = IsDataChild c
  IsData (function r ps) = ⊥
  IsData (array c n) = IsDataChild c
  IsData (structure t) = Unit
  IsData (sum ts) = ⊥

  pub IsDataChild : Child → Type 0
  IsDataChild null = Unit
  IsDataChild (to t) = IsData t

-- No contradiction stands in the type, under pointers and arrays either.
abbrev mutual
  pub IsSolid : InferredType → Type 0
  IsSolid (base b) = is_bottom (base b) ≡ false
  IsSolid (pointer c) = IsSolidChild c
  IsSolid (function r ps) = Unit
  IsSolid (array c n) = IsSolidChild c
  IsSolid (structure t) = Unit
  IsSolid (sum ts) = Unit

  pub IsSolidChild : Child → Type 0
  IsSolidChild null = Unit
  IsSolidChild (to t) = IsSolid t

pub IsSolid-bottom : (c : InferredType) → IsSolid c → is_bottom c ≡ false
IsSolid-bottom (base b) h = h
IsSolid-bottom _ h = refl

bases_comparable :
    (z x y : BaseType)
    → base_subtype z x ≡ true
    → base_subtype z y ≡ true
    → Sub (base x) (base y) ⊎ Sub (base y) (base x)
bases_comparable z x y h k = elim (Bool-cases (base_subtype x y)) [
  | inl e ↦ inl (of_base e)
  | inr e ↦ elim (Bool-cases (base_subtype y x)) [
    | inl f ↦ inr (of_base f)
    | inr f ↦ absurd (below_apart x y z (e, f) h k)
  ]
]

abbrev Comparable : InferredType → InferredType → Type 0
Comparable a b = Sub a b ⊎ Sub b a

comparable_pointers :
    {c d : Child} → SubChild c d ⊎ SubChild d c → Comparable (pointer c) (pointer d)
comparable_pointers (inl h) = inl (of_pointer h)
comparable_pointers (inr h) = inr (of_pointer h)

comparable_arrays :
    {c d : Child} {m n : ℕ}
    → m ≡ n
    → SubChild c d ⊎ SubChild d c
    → Comparable (array c m) (array d n)
comparable_arrays e (inl h) = inl (of_array e h)
comparable_arrays e (inr h) = inr (of_array (sym e) h)

comparable_children :
    {a b : InferredType} → Comparable a b → SubChild (to a) (to b) ⊎ SubChild (to b) (to a)
comparable_children (inl h) = inl (child h)
comparable_children (inr h) = inr (child h)

-- Two data types with a common subtype that holds no contradiction are comparable.
mutual
  pub solid_comparable :
      {a b c : InferredType} → IsSolid c → IsData a → Sub c a → Sub c b → Comparable a b
  solid_comparable {c} s v (from_bottom e) k = absurd (false≢true (sym (IsSolid-bottom c s) ∙ e))
  solid_comparable s v (to_unknown e) k = inr (to_unknown e)
  solid_comparable {c} s v h (from_bottom e) = absurd (false≢true (sym (IsSolid-bottom c s) ∙ e))
  solid_comparable s v h (to_unknown e) = inl (to_unknown e)
  solid_comparable s v (of_base {x = z} {y = x} h) (of_base {y} k) = bases_comparable z x y h k
  solid_comparable s v (of_pointer h) (of_pointer k) = comparable_pointers (solid_children s v h k)
  solid_comparable s v (of_array e h) (of_array f k) =
      comparable_arrays (sym e ∙ f) (solid_children s v h k)
  solid_comparable s v (of_structure e) (of_structure f) = inl (of_structure (sym e ∙ f))
  solid_comparable s v (of_function h k) _ = absurd v
  solid_comparable s v (of_sum h) _ = absurd v

  solid_children :
      {a b c : Child}
      → IsSolidChild c
      → IsDataChild a
      → SubChild c a
      → SubChild c b
      → SubChild a b ⊎ SubChild b a
  solid_children s v no_child no_child = inl no_child
  solid_children s v (child h) (child k) = comparable_children (solid_comparable s v h k)
