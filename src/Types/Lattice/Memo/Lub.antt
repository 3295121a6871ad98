-- ===== src/Types/Lattice/Memo/Lub.antt =====
-- `lub` with its memo table.
use ida_structor.Prelude.{
  ℕ, zero, suc, ◌+◌, ◌≤◌, ◌≡◌, refl, ap, false, ◌||◌, inl, inr, ◌==◌, arith, Bool-cases,
  Option-cases,
}
use ida_structor.Types.Inferred.{
  InferredType, base, pointer, array, to, make_ptr, is_unknown, is_bottom,
}
use ida_structor.Types.Subtype.{is_subtype, nodes}
use ida_structor.Types.Lattice.{
  cache_find, Lattice, lub_kinds, lub_impl, lub_lookup, lub_body, lub_fuel, lub, Op,
}
use ida_structor.Types.Lattice.Spec.{join, join_kinds, join_lem}
use ida_structor.Types.Lattice.Memo.{IsCoherent, Holds-emplace, Returns}

lub_kinds_right :
    (rec : Op) (n : ℕ)
    → Returns join rec n
    → (a b : InferredType) (l : Lattice) → nodes a ≤ n
    → IsCoherent l
    → ((lub_kinds rec a b l).0 ≡ join_kinds a b) × IsCoherent (lub_kinds rec a b l).1
unfolding lub_kinds join_kinds nodes
lub_kinds_right rec n ok (base x) (base y) l h c = (refl, c)
lub_kinds_right rec n ok (pointer (to p)) (pointer (to q)) l h c =
    let r = ok p q l (omega arith) c in (ap make_ptr r.0, r.1)
lub_kinds_right rec n ok (pointer c) (pointer d) l h k = (refl, k)
lub_kinds_right rec n ok (array (to p) i) (array (to q) j) l h c =
    let r = ok p q l (omega arith) c in
    elim (Bool-cases (i == j)) [
      | inl e ↦ rw e (ap (λ t. array (to t) i) r.0, r.1)
      | inr e ↦ rw e (refl, c)
    ]
lub_kinds_right rec n ok a b l h c = (refl, c)

-- One round over a recursive call that is right on smaller types. `is_subtype` stays shut.
module _ (rec : Op) (n : ℕ) where
  lub_impl_right :
      Returns join rec n
      → (a b : InferredType) (l : Lattice) → nodes a ≤ n
      → IsCoherent l
      → is_unknown a || is_unknown b ≡ false
      → is_bottom a ≡ false
      → is_bottom b ≡ false
      → ((lub_impl rec a b l).0 ≡ join a b) × IsCoherent (lub_impl rec a b l).1
  unfolding lub_impl
  lub_impl_right ok a b l h c u x y = elim (Bool-cases (is_subtype a b)) [
    | inl s ↦ rw (join_lem a b, u, x, y, s) (refl, c)
    | inr s ↦ elim (Bool-cases (is_subtype b a)) [
      | inl t ↦ rw (join_lem a b, u, x, y, s, t) (refl, c)
      | inr t ↦ rw (join_lem a b, u, x, y, s, t) (lub_kinds_right rec n ok a b l h c)
    ]
  ]

  lub_lookup_right :
      Returns join rec n
      → (a b : InferredType) (l : Lattice) → nodes a ≤ n
      → IsCoherent l
      → is_unknown a || is_unknown b ≡ false
      → is_bottom a ≡ false
      → is_bottom b ≡ false
      → ((lub_lookup rec a b l).0 ≡ join a b) × IsCoherent (lub_lookup rec a b l).1
  unfolding lub_lookup
  lub_lookup_right ok a b l h c u x y = elim (Option-cases (cache_find l.lub_cache a b)) [
    | inr (r, e) ↦ rw (e, lub_lookup) (c.lubs a b r e, record { lubs = c.lubs; glbs = c.glbs })
    | inl e ↦
        let m = record l { lub_misses = l.lub_misses + 1 } in
        let (v, k) = lub_impl_right ok a b m h (record { lubs = c.lubs; glbs = c.glbs }) u x y in
        rw (e, lub_lookup)
          (
            v,
            record {
              lubs = rw v (Holds-emplace join (lub_impl rec a b m).1.lub_cache a b k.lubs);
              glbs = k.glbs;
            },
          )
  ]

  lub_body_right :
      Returns join rec n
      → (a b : InferredType) (l : Lattice) → nodes a ≤ n
      → IsCoherent l
      → ((lub_body rec a b l).0 ≡ join a b) × IsCoherent (lub_body rec a b l).1
  unfolding lub_body
  lub_body_right ok a b l h c = elim (Bool-cases (is_unknown a || is_unknown b)) [
    | inl u ↦ rw (join_lem a b, u) (refl, c)
    | inr u ↦ elim (Bool-cases (is_bottom a)) [
      | inl x ↦ rw (join_lem a b, u, x) (refl, c)
      | inr x ↦ elim (Bool-cases (is_bottom b)) [
        | inl y ↦ rw (join_lem a b, u, x, y) (refl, c)
        | inr y ↦ rw (u, x, y) (lub_lookup_right ok a b l h c u x y)
      ]
    ]
  ]

lub_fuel_right : (n : ℕ) → Returns join (lub_fuel n) n
unfolding lub_fuel
lub_fuel_right zero a b l h c = absurd (omega arith)
lub_fuel_right (suc n) a b l h c =
    lub_body_right (lub_fuel n) n (lub_fuel_right n) a b l (omega arith) c

-- From coherent memo tables `lub` returns the join that has no table, and leaves coherent tables.
pub lub-join :
    (a b : InferredType) (l : Lattice)
    → IsCoherent l
    → ((lub a b l).0 ≡ join a b) × IsCoherent (lub a b l).1
unfolding lub
lub-join a b l c = lub_fuel_right (suc (nodes a)) a b l (omega arith) c
