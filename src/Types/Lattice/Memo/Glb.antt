-- ===== src/Types/Lattice/Memo/Glb.antt =====
-- `glb` with its memo table.
use ida_structor.Prelude.{
  ℕ, zero, suc, ◌+◌, ◌≤◌, ◌≡◌, refl, ap, false, ◌||◌, inl, inr, if◌then◌else◌, arith, Bool-cases,
  Option-cases,
}
use ida_structor.Types.Inferred.{
  InferredType, base, pointer, to, bottom, make_ptr, is_unknown, is_bottom,
}
use ida_structor.Types.Subtype.{is_subtype, nodes}
use ida_structor.Types.Lattice.{
  cache_find, Lattice, glb_kinds, glb_impl, glb_lookup, glb_body, glb_fuel, glb, Op,
}
use ida_structor.Types.Lattice.Spec.{meet, meet_kinds, meet_lem}
use ida_structor.Types.Lattice.Memo.{IsCoherent, Holds-emplace, Returns}

glb_kinds_right :
    (rec : Op) (n : ℕ)
    → Returns meet rec n
    → (a b : InferredType) (l : Lattice) → nodes a ≤ n
    → IsCoherent l
    → ((glb_kinds rec a b l).0 ≡ meet_kinds a b) × IsCoherent (glb_kinds rec a b l).1
unfolding glb_kinds meet_kinds nodes
glb_kinds_right rec n ok (base x) (base y) l h c = (refl, c)
glb_kinds_right rec n ok (pointer (to p)) (pointer (to q)) l h c =
    let r = ok p q l (omega arith) c in
    (ap (λ t. if is_bottom t then bottom else make_ptr t) r.0, r.1)
glb_kinds_right rec n ok a b l h c = (refl, c)

-- One round over a recursive call that is right on smaller types. `is_subtype` stays shut.
module _ (rec : Op) (n : ℕ) where
  glb_impl_right :
      Returns meet rec n
      → (a b : InferredType) (l : Lattice) → nodes a ≤ n
      → IsCoherent l
      → is_bottom a || is_bottom b ≡ false
      → is_unknown a ≡ false
      → is_unknown b ≡ false
      → ((glb_impl rec a b l).0 ≡ meet a b) × IsCoherent (glb_impl rec a b l).1
  unfolding glb_impl
  glb_impl_right ok a b l h c u x y = elim (Bool-cases (is_subtype a b)) [
    | inl s ↦ rw (meet_lem a b, u, x, y, s) (refl, c)
    | inr s ↦ elim (Bool-cases (is_subtype b a)) [
      | inl t ↦ rw (meet_lem a b, u, x, y, s, t) (refl, c)
      | inr t ↦ rw (meet_lem a b, u, x, y, s, t) (glb_kinds_right rec n ok a b l h c)
    ]
  ]

  glb_lookup_right :
      Returns meet rec n
      → (a b : InferredType) (l : Lattice) → nodes a ≤ n
      → IsCoherent l
      → is_bottom a || is_bottom b ≡ false
      → is_unknown a ≡ false
      → is_unknown b ≡ false
      → ((glb_lookup rec a b l).0 ≡ meet a b) × IsCoherent (glb_lookup rec a b l).1
  unfolding glb_lookup
  glb_lookup_right ok a b l h c u x y = elim (Option-cases (cache_find l.glb_cache a b)) [
    | inr (r, e) ↦ rw (e, glb_lookup) (c.glbs a b r e, record { lubs = c.lubs; glbs = c.glbs })
    | inl e ↦
        let m = record l { glb_misses = l.glb_misses + 1 } in
        let (v, k) = glb_impl_right ok a b m h (record { lubs = c.lubs; glbs = c.glbs }) u x y in
        rw (e, glb_lookup)
          (
            v,
            record {
              lubs = k.lubs;
              glbs = rw v (Holds-emplace meet (glb_impl rec a b m).1.glb_cache a b k.glbs);
            },
          )
  ]

  glb_body_right :
      Returns meet rec n
      → (a b : InferredType) (l : Lattice) → nodes a ≤ n
      → IsCoherent l
      → ((glb_body rec a b l).0 ≡ meet a b) × IsCoherent (glb_body rec a b l).1
  unfolding glb_body
  glb_body_right ok a b l h c = elim (Bool-cases (is_bottom a || is_bottom b)) [
    | inl u ↦ rw (meet_lem a b, u) (refl, c)
    | inr u ↦ elim (Bool-cases (is_unknown a)) [
      | inl x ↦ rw (meet_lem a b, u, x) (refl, c)
      | inr x ↦ elim (Bool-cases (is_unknown b)) [
        | inl y ↦ rw (meet_lem a b, u, x, y) (refl, c)
        | inr y ↦ rw (u, x, y) (glb_lookup_right ok a b l h c u x y)
      ]
    ]
  ]

glb_fuel_right : (n : ℕ) → Returns meet (glb_fuel n) n
unfolding glb_fuel
glb_fuel_right zero a b l h c = absurd (omega arith)
glb_fuel_right (suc n) a b l h c =
    glb_body_right (glb_fuel n) n (glb_fuel_right n) a b l (omega arith) c

-- From coherent memo tables `glb` returns the meet that has no table, and leaves coherent tables.
pub glb-meet :
    (a b : InferredType) (l : Lattice)
    → IsCoherent l
    → ((glb a b l).0 ≡ meet a b) × IsCoherent (glb a b l).1
unfolding glb
glb-meet a b l c = glb_fuel_right (suc (nodes a)) a b l (omega arith) c
