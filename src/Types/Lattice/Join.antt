-- ===== src/Types/Lattice/Join.antt =====
-- The join is an upper bound where no two integers of different signs meet.
use ida_structor.Prelude.{
  ◌≡◌, refl, sym, Bool, true, false, ◌||◌, not, ◌==◌, ==_iff, inl, inr, arith, Bool-cases,
}
use ida_structor.Types.Inferred.{
  InferredType, base, pointer, array, null, to, is_unknown, is_bottom, unknown,
}
use ida_structor.Types.Subtype.{is_subtype}
use ida_structor.Types.Subtype.Shapes.{IsSumFree}
use ida_structor.Types.Subtype.Rules.{
  Sub, from_bottom, to_unknown, of_pointer, of_array, no_child, child, is_subtype_iff,
}
use ida_structor.Types.Subtype.Antisym.{Sub-refl}
use ida_structor.Types.Lattice.Scalars.{mixed_signs, lub_base-Sub}
use ida_structor.Types.Lattice.Apart.{not_Sub}
use ida_structor.Types.Lattice.Spec.{join, join_or, join_kinds, join_lem}

-- Under the same pointers and arrays no signed integer stands against an unsigned one, and no
-- pointer without a pointee against one with.
unfoldable pub joinable : InferredType → InferredType → Bool
joinable (base x) (base y) = not (mixed_signs x y)
joinable (pointer (to p)) (pointer (to q)) = joinable p q
joinable (pointer null) (pointer (to q)) = false
joinable (pointer (to p)) (pointer null) = false
joinable (array (to p) m) (array (to q) n) = not (m == n) || joinable p q
joinable _ _ = true

join_or-Sub :
    (a b inner : InferredType)
    → Sub a a
    → Sub b b
    → (is_subtype a b ≡ false → Sub a inner × Sub b inner)
    → Sub a (join_or a b inner) × Sub b (join_or a b inner)
join_or-Sub a b inner ra rb h = elim (Bool-cases (is_unknown a || is_unknown b)) [
  | inl e ↦ rw e (to_unknown refl, to_unknown refl)
  | inr e ↦ elim (Bool-cases (is_bottom a)) [
    | inl u ↦ rw (e, u) (from_bottom u, rb)
    | inr u ↦ elim (Bool-cases (is_bottom b)) [
      | inl v ↦ rw (e, u, v) (ra, from_bottom v)
      | inr v ↦ elim (Bool-cases (is_subtype a b)) [
        | inl s ↦ rw (e, u, v, s) ((is_subtype_iff a b).0 s, rb)
        | inr s ↦ elim (Bool-cases (is_subtype b a)) [
          | inl t ↦ rw (e, u, v, s, t) (ra, (is_subtype_iff b a).0 t)
          | inr t ↦ rw (e, u, v, s, t) (h s)
        ]
      ]
    ]
  ]
]

top : {a b : InferredType} → Sub a unknown × Sub b unknown
top = (to_unknown refl, to_unknown refl)

join_kinds-Sub :
    (a b : InferredType)
    → IsSumFree a
    → IsSumFree b
    → joinable a b ≡ true
    → is_subtype a b ≡ false
    → Sub a (join_kinds a b) × Sub b (join_kinds a b)
unfolding join_kinds joinable
join_kinds-Sub (base x) (base y) v w j f = lub_base-Sub x y (ground arith)
join_kinds-Sub (pointer (to p)) (pointer (to q)) v w j f =
    let r =
      join_or-Sub p q (join_kinds p q) (Sub-refl p v) (Sub-refl q w) (join_kinds-Sub p q v w j) in
    rw (join_lem p q) (of_pointer (child r.0), of_pointer (child r.1))
join_kinds-Sub (pointer null) (pointer null) v w j f =
    absurd (not_Sub (pointer null) (pointer null) f (of_pointer no_child))
join_kinds-Sub (pointer null) (pointer (to q)) v w j f = absurd (ground arith)
join_kinds-Sub (pointer (to p)) (pointer null) v w j f = absurd (ground arith)
join_kinds-Sub (array (to p) m) (array (to q) n) v w j f = elim (Bool-cases (m == n)) [
  | inr e ↦ rw e top
  | inl e ↦
      let r =
        join_or-Sub p q (join_kinds p q) (Sub-refl p v) (Sub-refl q w)
          (join_kinds-Sub p q v w (ground arith)) in
      rw (e, join_lem p q)
        (of_array refl (child r.0), of_array (sym ((==_iff m n).0 e)) (child r.1))
]
join_kinds-Sub a b v w j f = top

-- The join is above both types.
pub join-Sub :
    (a b : InferredType)
    → IsSumFree a
    → IsSumFree b
    → joinable a b ≡ true
    → Sub a (join a b) × Sub b (join a b)
join-Sub a b v w j =
    rw (join_lem a b)
      (join_or-Sub a b (join_kinds a b) (Sub-refl a v) (Sub-refl b w) (join_kinds-Sub a b v w j))
