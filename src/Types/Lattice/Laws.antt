-- ===== src/Types/Lattice/Laws.antt =====
-- The laws of `TypeLattice::lub`, `glb` and `are_compatible`, memo tables included.
use ida_structor.Prelude.{◌≡◌, true, false, ◌||◌, ◌&&◌, not, ◌⊎◌, inl, inr, arith, Bool-cases}
use ida_structor.Types.Inferred.{InferredType, is_unknown, is_bottom}
use ida_structor.Types.Subtype.{is_subtype}
use ida_structor.Types.Subtype.Shapes.{IsSumFree, bottom_not_unknown, base_subtype_bottom}
use ida_structor.Types.Subtype.Rules.{
  Sub, from_bottom, to_unknown, of_base, of_pointer, of_function, of_array, of_structure, of_sum,
  is_subtype_iff,
}
use ida_structor.Types.Lattice.{Lattice, lub, glb, are_compatible}
use ida_structor.Types.Lattice.Memo.{IsCoherent}
use ida_structor.Types.Lattice.Memo.Lub.{lub-join}
use ida_structor.Types.Lattice.Memo.Glb.{glb-meet}
use ida_structor.Types.Lattice.Spec.{meet, meet_or, meet_kinds, meet_lem, join}
use ida_structor.Types.Lattice.Apart.{meet_apart, not_Sub}
use ida_structor.Types.Lattice.Meet.{IsData, IsSolid, meet-Sub, solid_comparable}
use ida_structor.Types.Lattice.Join.{joinable, join-Sub}
use ida_structor.Types.Lattice.Least.{join_least}

-- From coherent memo tables `glb` returns a common subtype of two types without alternatives.
pub glb_lower :
    (a b : InferredType) (l : Lattice)
    → IsSumFree a
    → IsSumFree b
    → IsCoherent l
    → (is_subtype (glb a b l).0 a ≡ true) × (is_subtype (glb a b l).0 b ≡ true)
glb_lower a b l v w c =
    let r = meet-Sub a b v w in
    rw ((glb-meet a b l c).0)
      ((is_subtype_iff (meet a b) a).1 r.0, (is_subtype_iff (meet a b) b).1 r.1)

-- From coherent memo tables `lub` returns a common supertype of two types without alternatives, if no
-- signed integer in them stands against an unsigned one and no pointer with a pointee against one
-- without.
pub lub_upper :
    (a b : InferredType) (l : Lattice)
    → IsSumFree a
    → IsSumFree b
    → joinable a b ≡ true
    → IsCoherent l
    → (is_subtype a (lub a b l).0 ≡ true) × (is_subtype b (lub a b l).0 ≡ true)
lub_upper a b l v w j c =
    let r = join-Sub a b v w j in
    rw ((lub-join a b l c).0)
      ((is_subtype_iff a (join a b)).1 r.0, (is_subtype_iff b (join a b)).1 r.1)

-- On scalars, structures, and pointers and arrays of such, what `lub` returns from coherent memo
-- tables is a subtype of every common supertype.
pub lub_least :
    (a b d : InferredType) (l : Lattice)
    → IsData a
    → IsData b
    → IsCoherent l
    → is_subtype a d ≡ true
    → is_subtype b d ≡ true
    → is_subtype (lub a b l).0 d ≡ true
lub_least a b d l v w c h k = rw ((lub-join a b l c).0) (
    (is_subtype_iff (join a b) d).1
      (join_least a b d v w ((is_subtype_iff a d).0 h) ((is_subtype_iff b d).0 k)))

Sub-bottom : {a d : InferredType} → is_bottom a ≡ true → Sub d a → is_bottom d ≡ true
Sub-bottom e (from_bottom f) = f
Sub-bottom {a} e (to_unknown f) = absurd (bottom_not_unknown a f e)
Sub-bottom e (of_base {x} {y} h) = base_subtype_bottom x y h e
Sub-bottom e (of_pointer h) = cc
Sub-bottom e (of_function h k) = cc
Sub-bottom e (of_array h k) = cc
Sub-bottom e (of_structure h) = cc
Sub-bottom e (of_sum h) = cc

above_bottom :
    (a b d : InferredType)
    → Sub d a
    → Sub d b
    → is_bottom a || is_bottom b ≡ true
    → is_bottom d ≡ true
above_bottom a b d h k e = elim (Bool-cases (is_bottom a)) [
  | inl f ↦ Sub-bottom f h
  | inr f ↦ Sub-bottom (ground arith) k
]

meet_or_greatest :
    (a b d inner : InferredType) → Sub d a → Sub d b → Sub a b ⊎ Sub b a → Sub d (meet_or a b inner)
meet_or_greatest a b d inner h k c = elim (Bool-cases (is_bottom a || is_bottom b)) [
  | inl e ↦ from_bottom (above_bottom a b d h k e)
  | inr e ↦ elim (Bool-cases (is_unknown a)) [
    | inl u ↦ rw (e, u) k
    | inr u ↦ elim (Bool-cases (is_unknown b)) [
      | inl v ↦ rw (e, u, v) h
      | inr v ↦ elim (Bool-cases (is_subtype a b)) [
        | inl s ↦ rw (e, u, v, s) h
        | inr s ↦ elim (Bool-cases (is_subtype b a)) [
          | inl t ↦ rw (e, u, v, s, t) k
          | inr t ↦ absurd (elim c [
            | inl x ↦ cc ((is_subtype_iff a b).1 x)
            | inr x ↦ cc ((is_subtype_iff b a).1 x)
          ])
        ]
      ]
    ]
  ]
]

-- On scalars, structures, and pointers and arrays of such, a common subtype that holds no bottom
-- type, under its pointers and arrays either, is a subtype of what `glb` returns from coherent memo
-- tables.
pub glb_greatest :
    (a b d : InferredType) (l : Lattice)
    → IsData a
    → IsSolid d
    → IsCoherent l
    → is_subtype d a ≡ true
    → is_subtype d b ≡ true
    → is_subtype d (glb a b l).0 ≡ true
glb_greatest a b d l v s c h k =
    let x = (is_subtype_iff d a).0 h in
    let y = (is_subtype_iff d b).0 k in
    rw ((glb-meet a b l c).0) (
      (is_subtype_iff d (meet a b)).1 (
        rw (meet_lem a b) (meet_or_greatest a b d (meet_kinds a b) x y (solid_comparable s v x y))))

meet_or_not_bottom :
    (a b inner : InferredType)
    → is_bottom a ≡ false
    → is_bottom b ≡ false
    → is_subtype a b || is_subtype b a ≡ true
    → is_bottom (meet_or a b inner) ≡ false
meet_or_not_bottom a b inner p q c = elim (Bool-cases (is_unknown a)) [
  | inl u ↦ rw (p, q, u) q
  | inr u ↦ elim (Bool-cases (is_unknown b)) [
    | inl v ↦ rw (p, q, u, v) p
    | inr v ↦ elim (Bool-cases (is_subtype a b)) [
      | inl s ↦ rw (p, q, u, v, s) p
      | inr s ↦ let t : is_subtype b a ≡ true = ground arith in rw (p, q, u, v, s, t) q
    ]
  ]
]

meet_compatible :
    (a b : InferredType)
    → not (is_bottom (meet a b))
      ≡ (not (is_bottom a || is_bottom b) && (is_subtype a b || is_subtype b a))
meet_compatible a b = elim (Bool-cases (is_bottom a || is_bottom b)) [
  | inl e ↦ rw (meet_lem a b, e)
  | inr e ↦
      let p : is_bottom a ≡ false = ground arith in
      let q : is_bottom b ≡ false = ground arith in
      elim (Bool-cases (is_subtype a b || is_subtype b a)) [
        | inl c ↦ rw (p, q, c, meet_lem a b, meet_or_not_bottom a b (meet_kinds a b) p q c)
        | inr c ↦
            let x : is_subtype a b ≡ false = ground arith in
            let y : is_subtype b a ≡ false = ground arith in
            rw (meet_apart a b (not_Sub a b x) (not_Sub b a y), p, q, c)
      ]
]

-- From coherent memo tables `are_compatible` accepts exactly the pairs in which neither type is bottom
-- and one of the two is a subtype of the other.
pub are_compatible_lem :
    (a b : InferredType) (l : Lattice)
    → IsCoherent l
    → (are_compatible a b l).0
      ≡ (not (is_bottom a || is_bottom b) && (is_subtype a b || is_subtype b a))
unfolding are_compatible
are_compatible_lem a b l c = rw ((glb-meet a b l c).0) (meet_compatible a b)
